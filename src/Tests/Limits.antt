-- ===== src/Tests/Limits.antt =====
-- The rate limiter over a Redis in memory.
use quota_lane.Prelude.{◌≡◌, ◌≢◌, ◌+◌, ◌≤◌, refl, [], ◌∷◌, some, String, length, arith}
use quota_lane.Prelude.Int.{ℤ, pos, ◌+ℤ◌, ◌≤ℤ◌, ◌<ℤ◌, int32}
use quota_lane.Prelude.Effect.{Error, ok, err, panic, wrap, ignore, attempt}
use quota_lane.Redis.{int}
use quota_lane.Redis.Memory.{
  Memory, empty, memory_redis, memory_view, memory_redis-IsLawful, insert_in,
}
use quota_lane.RateLimit.Repo.{IsLawful, to_int32}
use quota_lane.RateLimit.Store.{
  new_rate_limit_repo, increment_rpm, add_concurrency_request, get_concurrency_count,
}
use quota_lane.RateLimit.Store.Laws.{counters, new_rate_limit_repo-IsLawful}
use quota_lane.RateLimit.Estimate.{estimate_of_length_lem}
use quota_lane.RateLimit.Usecase.{
  estimate_of_length, new_rate_limit_exceeded_error, max_concurrency, check_rpm, check_tpm,
  update_tpm, acquire_concurrency_slot,
}
use quota_lane.RateLimit.Rpm.{admitted, admitted-eq, check_rpm_refused}
use quota_lane.RateLimit.Tpm.{spent, spent-le-limit, check_tpm_overflow, update_tpm-check_tpm}
use quota_lane.RateLimit.Slots.{
  idle, added, granted, System, set_phase, add, grant, Reach, here, next,
}
use quota_lane.RateLimit.Slots.Alone.{IsRun, acquire_concurrency_slot-Reach}
use quota_lane.RateLimit.Slots.Bound.{granted-le-max_concurrency}
use quota_lane.Tests.Available.{repo, tally, lawful, available}

-- Three requests of one window, of which the limit admits two.
admitted-eq_example : admitted repo 7 (pos 2) 3 empty ≡ 2
admitted-eq_example =
    admitted-eq repo tally lawful (available 7) 2 (omega arith) (omega arith) 3 0 empty (tt, tt)
      refl

abbrev two_counted : Memory
two_counted = record empty { strings = λ _. some (int (pos 2)) }

abbrev too_many : Error
too_many = new_rate_limit_exceeded_error "RPM" (pos 3) (pos 2) (pos 60)

refused : (check_rpm repo 7 (pos 2) two_counted).0 ≡ err too_many
unfolding check_rpm increment_rpm wrap ignore attempt ◌+ℤ◌ int32
refused = refl

check_rpm_refused_example :
    (count : ℤ) × ((repo.increment_rpm 7 two_counted).0 ≡ ok count)
    × (too_many ≡ new_rate_limit_exceeded_error "RPM" count (pos 2) (pos 60))
    × (pos 0 <ℤ pos 2)
    × (pos 2 <ℤ count)
    × (count ≡ to_int32 (tally.rpm (repo.increment_rpm 7 two_counted).1 7))
check_rpm_refused_example =
    check_rpm_refused repo tally lawful 7 (pos 2) two_counted too_many refused

-- Of estimates 400, 500 and 200 under a limit of 1000, the last but one and the first fit.
spent-le-limit_example :
    (0 + (spent repo 7 1000 (400 ∷ 500 ∷ 200 ∷ []) empty).0 ≤ 1000)
    × (tally.tpm (spent repo 7 1000 (400 ∷ 500 ∷ 200 ∷ []) empty).1 7
        ≡ pos (0 + (spent repo 7 1000 (400 ∷ 500 ∷ 200 ∷ []) empty).0))
spent-le-limit_example =
    spent-le-limit repo tally lawful (available 7) 1000 (omega arith) (400 ∷ 500 ∷ 200 ∷ [])
      ((omega arith, omega arith), ((omega arith, omega arith), ((omega arith, omega arith), tt))) 0
      empty (tt, tt) (omega arith) refl

abbrev nearly_full : Memory
nearly_full = record empty { strings = λ _. some (int (pos 2147483000)) }

check_tpm_overflow_example :
    ((check_tpm repo 7 (pos 1000) (pos 1000) nearly_full).0 ≡ ok tt)
    × (tally.tpm (check_tpm repo 7 (pos 1000) (pos 1000) nearly_full).1 7 ≡ pos 2147484000)
check_tpm_overflow_example =
    check_tpm_overflow repo tally lawful (available 7) 1000 1000 2147483000 nearly_full (tt, tt)
      (omega arith) (omega arith) (omega arith) refl (omega arith)

update_tpm-check_tpm_example :
    tally.tpm
      (update_tpm repo 7 (pos 250) (pos 400) (check_tpm repo 7 (pos 1000) (pos 400) empty).1).1
      7
    ≡ pos 250
update_tpm-check_tpm_example =
    update_tpm-check_tpm repo tally lawful (available 7) 1000 400 250 0 empty (tt, tt) (omega arith)
      (omega arith) (omega arith) (omega arith) refl (omega arith)

abbrev all_idle : System Memory
all_idle = record { world = empty; phase = λ _. idle }

-- A request that no other one interrupts.
calm : (acquire_concurrency_slot repo (pos 60) 7 "request" empty).0 ≢ panic
unfolding acquire_concurrency_slot add_concurrency_request get_concurrency_count wrap attempt ignore
    insert_in int32
calm e = cc

acquire_concurrency_slot-Reach_example :
    (y : System Memory) × IsRun repo 7 all_idle "request"
      (acquire_concurrency_slot repo (pos 60) 7 "request" empty)
      y
acquire_concurrency_slot-Reach_example =
    acquire_concurrency_slot-Reach repo 7 (pos 60) "request" all_idle refl calm

new_rate_limit_repo-IsLawful_example :
    IsLawful (new_rate_limit_repo (some memory_redis)) (counters memory_view)
new_rate_limit_repo-IsLawful_example =
    new_rate_limit_repo-IsLawful memory_redis memory_view memory_redis-IsLawful

abbrev after_add : Memory
after_add = (repo.add_concurrency_request 7 "request" (pos 60) empty).1

acquired : Reach repo 7 all_idle (record {
  world = after_add;
  phase = set_phase (set_phase (λ _. idle) "request" added) "request" granted;
})
unfolding add_concurrency_request get_concurrency_count wrap insert_in int32
acquired =
    next (next here (add "request" (pos 60) refl refl))
      (grant "request" (pos 1) refl refl (omega arith))

granted-le-max_concurrency_example : pos (length {A = String} ("request" ∷ [])) ≤ℤ max_concurrency
granted-le-max_concurrency_example =
    granted-le-max_concurrency repo tally lawful 7 empty acquired ("request" ∷ []) (tt, tt)
      (refl, tt)

estimate_of_length_lem_example : estimate_of_length 400 (pos 2147483600) ≡ pos 1
estimate_of_length_lem_example = estimate_of_length_lem 400 2147483600 (omega arith) (omega arith)
