-- ===== src/Tests/Breaker.antt =====
-- The circuit breaker over a repository in memory, and its data layer over a table and a Redis in memory.
use quota_lane.Prelude.{
  ℕ, ◌≢◌, ◌+◌, ◌↔◌, ◌≤◌, ◌≡◌, refl, Bool, true, false, ◌||◌, Option, none, some, some-injective,
  List, [], ◌∷◌, arith, leb, if◌then◌else◌,
}
use quota_lane.Prelude.Int.{ℤ, pos, ◌+ℤ◌, int32, ltb_ℤ}
use quota_lane.Prelude.Effect.{ok, panic, wrap, ignore, attempt, modify, read}
use quota_lane.Account.{Account, claude_official, active}
use quota_lane.Redis.Memory.{Memory, empty, memory_redis}
use quota_lane.Database.Memory.{Table, memory_database, memory_database-IsLawful}
use quota_lane.CircuitBreaker.Domain.{CircuitState, overloaded, delta}
use quota_lane.CircuitBreaker.Laws.{Same}
use quota_lane.CircuitBreaker.Memory.{
  Store, memory_repo, memory_env, memory_health, memory_repo-IsLawful,
}
use quota_lane.CircuitBreaker.Usecase.{
  clamp, cap, update_health_score, is_half_open, record_probe_success, record_probe_failure,
  Operation, perform_all, trigger_circuit_breaker, record_api_error, reset_health_score,
  error_type_of_status, reset_circuit_breaker_after_probe, error_seen, api_failed, probe_succeeded,
  reset_requested,
}
use quota_lane.CircuitBreaker.Range.{InScale, perform_all-InScale}
use quota_lane.CircuitBreaker.Trip.{
  update_health_score-trips, is_half_open_late, earliest, CanBreak,
}
use quota_lane.CircuitBreaker.Probe.{
  is_half_open_apart, record_probe_failure-Same, record_probe_failure_panics_iff, CanMark,
  IsForward,
}
use quota_lane.CircuitBreaker.Recovery.{record_probe_success_closes, CanCount}
use quota_lane.CircuitBreaker.Store
use quota_lane.World.{World, Surroundings}
use quota_lane.CircuitBreaker.Store.{update_loop}
use quota_lane.CircuitBreaker.Store.Locking.{Reaches, update_health_score_replaces}

-- An account with a score and a breaker.
abbrev account : ℤ → Bool → Option ℕ → Account
account score broken at = record {
  id = 1;
  name = "main";
  description = "";
  provider = claude_official;
  api_key_encrypted = [];
  base_api = "";
  oauth_data_encrypted = [];
  oauth_expires_at = none;
  access_token_encrypted = [];
  refresh_token_encrypted = [];
  token_expires_at = none;
  id_token_encrypted = [];
  organizations = "";
  rpm_limit = pos 60;
  tpm_limit = pos 10000;
  health_score = score;
  is_circuit_broken = broken;
  status = active;
  metadata = none;
  version = pos 4;
  circuit_broken_at = at;
  last_error = none;
  last_error_at = none;
  consecutive_errors = pos 0;
  created_at = 0;
  updated_at = 0;
}

abbrev store : Account → ℤ → Store
store x probes = record {
  rows = λ _. some x;
  successes = λ _. probes;
  marker = λ _. none;
  retry = λ _. none;
  clock = 900000000000;
}

abbrev healthy : Store
healthy = store (account (pos 50) false none) (pos 0)

abbrev open_breaker : Store
open_breaker = store (account (pos 0) true (some 0)) (pos 2)

abbrev calls : List (Operation × ℕ)
calls =
    (error_seen overloaded, 1)
    ∷ (api_failed 529 false, 1)
    ∷ (probe_succeeded, 1)
    ∷ (reset_requested, 2)
    ∷ []

-- 50, 20, 0 and 20, and the breaker is open.
after_calls :
    memory_health.score (perform_all memory_repo memory_env calls healthy) 1 ≡ some (pos 20)
unfolding update_health_score record_api_error record_probe_success reset_health_score clamp delta
    error_type_of_status ◌+ℤ◌ wrap attempt ignore modify read trigger_circuit_breaker
after_calls = refl

perform_all-InScale_example : InScale (pos 20)
perform_all-InScale_example =
    perform_all-InScale memory_repo memory_env memory_health memory_repo-IsLawful calls healthy
      (λ b n e. rw (← some-injective _ _ e) (omega arith, omega arith)) 1 (pos 20) after_calls

-- Marking a row as broken succeeds where there is one.
can_break : CanBreak memory_repo memory_env memory_health memory_repo-IsLawful
can_break a t s b h = row (s.rows a) refl
  where
    row : (y : Option Account) → s.rows a ≡ y → (memory_repo.set_circuit_broken a t s).0 ≡ ok tt
    row none e = absurd (ground (arith, rw e at h))
    row (some x) e = rw e refl

trip_ok : (update_health_score memory_repo memory_env 1 overloaded healthy).0 ≡ ok tt
unfolding update_health_score clamp delta ◌+ℤ◌ wrap attempt ignore modify read
    trigger_circuit_breaker
trip_ok = refl

update_health_score-trips_example :
    (memory_health.score (update_health_score memory_repo memory_env 1 overloaded healthy).1 1
      ≡ some (clamp (pos 50 +ℤ delta overloaded)))
    × (memory_health.broken (update_health_score memory_repo memory_env 1 overloaded healthy).1 1
        ≡ some (false || ltb_ℤ (clamp (pos 50 +ℤ delta overloaded)) (pos 30)))
update_health_score-trips_example =
    update_health_score-trips memory_repo memory_env memory_health memory_repo-IsLawful can_break 1
      overloaded healthy (pos 50) false refl refl trip_ok

can_mark : CanMark memory_repo memory_env memory_health memory_repo-IsLawful
can_mark a ttl s = (_, refl)

can_count : CanCount memory_repo memory_env memory_health memory_repo-IsLawful
can_count a s = (_, refl)

-- Fifteen minutes after the break, a probe is allowed.
probe_ok : (is_half_open memory_repo memory_env 1 open_breaker).0 ≡ ok true
unfolding is_half_open wrap attempt read
probe_ok = refl

can_go_on : IsForward memory_repo memory_env memory_health memory_repo-IsLawful
can_go_on = (λ a s. forward (s.rows a) a s refl, λ a s. omega arith, λ a ttl s. omega arith)
  where
    forward :
        (y : Option Account) (a : ℕ) (s : Store)
        → s.rows a ≡ y
        → s.clock ≤ (memory_repo.get_circuit_state a s).1.clock
    forward none a s e = rw e (omega arith)
    forward (some x) a s e = rw e (omega arith)

-- A minute and a second after the first probe.
abbrev later_on : Store
later_on = record ((is_half_open memory_repo memory_env 1 open_breaker).1) { clock = 961000000000 }

again_ok : (is_half_open memory_repo memory_env 1 later_on).0 ≡ ok true
unfolding is_half_open wrap attempt read
again_ok = refl

is_half_open_apart_example :
    memory_env.now open_breaker + 60000000000
    ≤ memory_env.now (is_half_open memory_repo memory_env 1 later_on).1
is_half_open_apart_example =
    is_half_open_apart memory_repo memory_env memory_health memory_repo-IsLawful can_mark can_go_on
      1 open_breaker later_on probe_ok refl again_ok

abbrev open_state : CircuitState
open_state = record {
  is_circuit_broken = true;
  circuit_broken_at = some 0;
  is_half_open = false;
  success_count = pos 2;
  backoff_retry_time = none;
}

is_half_open_late_example :
    (t : ℕ) × (memory_health.broken open_breaker 1 ≡ some true)
    × (open_state.circuit_broken_at ≡ some t)
    × (earliest t (memory_repo.get_backoff_time 1 open_breaker).0
        ≤ memory_env.now (memory_repo.get_backoff_time 1 open_breaker).1)
is_half_open_late_example =
    is_half_open_late memory_repo memory_env memory_health memory_repo-IsLawful 1 open_breaker
      open_breaker open_state refl probe_ok

record_probe_failure-Same_example :
    Same memory_health open_breaker (record_probe_failure memory_repo memory_env 1 open_breaker).1 1
record_probe_failure-Same_example =
    record_probe_failure-Same memory_repo memory_env memory_health memory_repo-IsLawful 1 1
      open_breaker

-- A break with no instant, and a retry time left over.
abbrev odd : Store
odd = record (store (account (pos 0) true none) (pos 0)) { retry = λ _. some 600000000000 }

record_probe_failure_panics_iff_example :
    ((record_probe_failure memory_repo memory_env 1 odd).0 ≡ panic) ↔ (
      (st : CircuitState) × (u : ℕ) × ((memory_repo.get_circuit_state 1 odd).0 ≡ ok st)
      × (st.circuit_broken_at ≡ none)
      × ((memory_repo.get_backoff_time 1 (memory_repo.get_circuit_state 1 odd).1).0 ≡ ok (some u)))
record_probe_failure_panics_iff_example =
    record_probe_failure_panics_iff memory_repo memory_env memory_health memory_repo-IsLawful 1 odd
      (λ e. cc) (λ e. cc) (λ u w e. cc)

-- The third success in a row, at a score of 0.
success_ok : (record_probe_success memory_repo memory_env 1 open_breaker).0 ≡ ok tt
unfolding record_probe_success reset_circuit_breaker_after_probe ◌+ℤ◌ wrap attempt modify read
success_ok = refl

record_probe_success_closes_example :
    (memory_health.score (record_probe_success memory_repo memory_env 1 open_breaker).1 1
      ≡ some (cap (pos 0 +ℤ pos 20)))
    × (memory_health.broken (record_probe_success memory_repo memory_env 1 open_breaker).1 1
        ≡ (if leb 2 2 then some false else memory_health.broken open_breaker 1))
record_probe_success_closes_example =
    record_probe_success_closes memory_repo memory_env memory_health memory_repo-IsLawful can_count
      1 2 open_breaker (pos 0) refl refl success_ok

abbrev world : World Table Memory
world = record { table = λ _. some (account (pos 50) false none); redis = empty }

abbrev alone : Surroundings (World Table Memory)
alone = record { now = λ _. 5; pause = λ _ w. w }

stored_ok :
    (Store.update_health_score memory_database memory_redis alone 1 (pos 20) world).0 ≡ ok tt
unfolding Store.update_health_score update_loop wrap ignore modify read Store.clear_account_cache
stored_ok = refl

update_health_score_replaces_example :
    (before : World Table Memory) × Reaches memory_database alone world before
    × (x : Account) × (before.table 1 ≡ some x)
    × ((Store.update_health_score memory_database memory_redis alone 1 (pos 20) world).1.table 1
        ≡ some (record x {
          health_score = pos 20;
          version = int32 (x.version +ℤ pos 1);
          updated_at = alone.now before;
        }))
    × ((b : ℕ)
        → b ≢ 1
        → (Store.update_health_score memory_database memory_redis alone 1 (pos 20) world).1.table b
          ≡ before.table b)
update_health_score_replaces_example =
    update_health_score_replaces memory_database memory_redis alone (λ t. t)
      memory_database-IsLawful 1 (pos 20) world stored_ok
