-- ===== src/Tests/Available.antt =====
-- When a Redis in memory answers the counting commands.
use quota_lane.Prelude.{
  ℕ, ◌≡◌, ◌≤◌, refl, subst, sym, Bool-cases, inl, inr, Option, none, some, arith,
}
use quota_lane.Prelude.Int.{ℤ, pos}
use quota_lane.Prelude.Effect.{ok, wrap, ignore, attempt}
use quota_lane.Redis.{Key, rate, Value, int, text}
use quota_lane.Redis.Memory.{
  Memory, memory_redis, memory_view, memory_redis-IsLawful, put, same_key, bump_by,
}
use quota_lane.RateLimit.Repo.{RateLimitRepo, Counters, IsLawful, IsAvailable, to_int32}
use quota_lane.RateLimit.Store.{new_rate_limit_repo, increment_rpm, get_tpm_count, increment_tpm}
use quota_lane.RateLimit.Store.Laws.{counters, new_rate_limit_repo-IsLawful}

abbrev pub repo : RateLimitRepo Memory
repo = new_rate_limit_repo (some memory_redis)

abbrev pub tally : Counters Memory
tally = counters memory_view

pub lawful : IsLawful repo tally
lawful = new_rate_limit_repo-IsLawful memory_redis memory_view memory_redis-IsLawful

-- The counters hold numbers.
abbrev pub IsNumber : Option Value → Type 0
IsNumber (some (text _)) = ⊥
IsNumber _ = Unit

abbrev pub Up : ℕ → Memory → Type 0
Up a s = IsNumber (s.strings (rate a "rpm")) × IsNumber (s.strings (rate a "tpm"))

put-IsNumber :
    (f : Key → Option Value) (k j : Key) (n : ℤ)
    → IsNumber (f j)
    → IsNumber (put f k (some (int n)) j)
put-IsNumber f k j n h = elim (Bool-cases (same_key k j)) [ inl e ↦ rw e tt | inr e ↦ rw e h ]

bump_number :
    (a : ℕ) (k : Key) (d : ℤ) (v : Option Value) (s : Memory)
    → IsNumber v
    → Up a s
    → (n : ℤ) × ((bump_by k d v s).0 ≡ ok n) × Up a (bump_by k d v s).1
bump_number a k d none s h u =
    (_, refl, (put-IsNumber s.strings k _ _ u.0, put-IsNumber s.strings k _ _ u.1))
bump_number a k d (some (int m)) s h u =
    (_, refl, (put-IsNumber s.strings k _ _ u.0, put-IsNumber s.strings k _ _ u.1))
bump_number a k d (some (text t)) s h u = absurd h

-- `Up` reads the strings only.
Up-same : (a : ℕ) (s s' : Memory) → s'.strings ≡ s.strings → Up a s → Up a s'
Up-same a s s' e u =
    subst (λ f. IsNumber (f (rate a "rpm")) × IsNumber (f (rate a "tpm"))) (sym e) u

increment_rpm-Up :
    (a : ℕ) (s : Memory)
    → Up a s
    → (n : ℤ) × ((increment_rpm memory_redis a s).0 ≡ ok n)
      × Up a (increment_rpm memory_redis a s).1
unfolding increment_rpm wrap ignore
increment_rpm-Up a s u =
    let (n, p, v) = bump_number a (rate a "rpm") (pos 1) (s.strings (rate a "rpm")) s u.0 u in
    (
      to_int32 n,
      ground (arith, p),
      Up-same a (bump_by (rate a "rpm") (pos 1) (s.strings (rate a "rpm")) s).1
          (increment_rpm memory_redis a s).1 (ground (arith, p)) v,
    )

increment_tpm-Up :
    (a : ℕ) (d : ℤ) (s : Memory)
    → Up a s
    → (n : ℤ) × ((increment_tpm memory_redis a d s).0 ≡ ok n)
      × Up a (increment_tpm memory_redis a d s).1
unfolding increment_tpm wrap ignore attempt
increment_tpm-Up a d s u =
    let (n, p, v) = bump_number a (rate a "tpm") d (s.strings (rate a "tpm")) s u.1 u in
    (
      to_int32 n,
      ground (arith, p),
      Up-same a (bump_by (rate a "tpm") d (s.strings (rate a "tpm")) s).1
          (increment_tpm memory_redis a d s).1 (ground (arith, p)) v,
    )

get_tpm_count-Up :
    (a : ℕ) (s : Memory) (x : ℕ)
    → Up a s
    → tally.tpm s a ≡ pos x
    → x ≤ 2147483647
    → (n : ℤ) × ((get_tpm_count memory_redis a s).0 ≡ ok n)
      × Up a (get_tpm_count memory_redis a s).1
unfolding get_tpm_count wrap
get_tpm_count-Up a s x u h fits = number (s.strings (rate a "tpm")) refl
  where
    number :
        (v : Option Value)
        → s.strings (rate a "tpm") ≡ v
        → (n : ℤ) × ((get_tpm_count memory_redis a s).0 ≡ ok n)
          × Up a (get_tpm_count memory_redis a s).1
    number none e = (
      pos 0,
      ground (arith, e),
      Up-same a s (get_tpm_count memory_redis a s).1 (ground (arith, e)) u,
    )
    number (some (int (pos n))) e = (
      pos n,
      ground (arith, h, e),
      Up-same a s (get_tpm_count memory_redis a s).1 (ground (arith, h, e)) u,
    )
    number (some (int (ℤ.negsuc n))) e = absurd (ground (arith, rw e at h))
    number (some (text t)) e = absurd (subst IsNumber e u.1)

pub available : (a : ℕ) → IsAvailable repo tally a (Up a)
available a = record {
  increment_rpm_up = increment_rpm-Up a;
  get_tpm_count_up = λ s x. get_tpm_count-Up a s x;
  increment_tpm_up = increment_tpm-Up a;
}
