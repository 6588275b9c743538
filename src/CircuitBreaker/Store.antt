-- ===== src/CircuitBreaker/Store.antt =====
-- internal/data/circuit_breaker.go: `CircuitBreakerRepo` over the table of accounts and Redis.
pub mod Locking
use quota_lane.Prelude.{
  ℕ, zero, suc, ◌+◌, ◌*◌, ◌/◌, String, Bool, true, false, ◌&&◌, Option, none, some, List, [], ◌∷◌,
  ltb, ◌==◌, if◌then◌else◌,
}
use quota_lane.Prelude.Int.{ℤ, pos, negsuc, ◌+ℤ◌, int32, leb_ℤ}
use quota_lane.Prelude.Effect.{
  message, wrapped, record_not_found, Result, ok, err, panic, M, pure, fail, panics, ◌>>=◌, ◌>>◌,
  wrap, attempt, ignore, modify, read,
}
use quota_lane.Account.{Account}
use quota_lane.Database.{Database}
use quota_lane.Redis.{
  Redis, Key, circuit, half_open, success_count, backoff, account_cache, Value, int, text, minute,
}
use quota_lane.World.{World, Surroundings, on_table, on_redis}
use quota_lane.CircuitBreaker.Domain.{CircuitState, CircuitBreakerRepo}

abbrev pub same_int : ℤ → ℤ → Bool
same_int m n = leb_ℤ m n && leb_ℤ n m

-- `.Int()` and `.Int64()` of a reply.
abbrev as_number : {S : Type 0} → Value → M S ℤ
as_number (int n) = pure n
as_number (text t) = fail (message "value is not an integer")

abbrev count_of : {S : Type 0} → Option Value → M S ℤ
count_of none = pure (pos 0)
count_of (some value) = as_number value

-- `time.Unix(timestamp, 0)`; a time stamp before the epoch is not stored by this code.
abbrev time_of : {S : Type 0} → Option Value → M S (Option ℕ)
time_of none = pure none
time_of (some (int (pos n))) = pure (some (n * 1000000000))
time_of (some (int (negsuc n))) = pure (some 0)
time_of (some (text t)) = fail (message "value is not an integer")

module _ {D R : Type 0} (db : Database D) (rdb : Redis R) (around : Surroundings (World D R)) where
  unfoldable pub clear_account_cache : ℕ → M (World D R) (Unit {0})
  clear_account_cache a = wrap "failed to clear cache" (on_redis (rdb.del (account_cache a ∷ [])))

  -- The columns that `UpdateHealthScore` sets.
  abbrev pub with_score : ℤ → ℤ → ℕ → Account → Account
  with_score score version now x = record x {
    health_score = score;
    version = int32 (version +ℤ pos 1);
    updated_at = now;
  }

  -- The loop of `UpdateHealthScore`, by the rounds that are left and those that are done.
  unfoldable pub update_loop : ℕ → ℕ → ℕ → ℤ → M (World D R) (Unit {0})
  update_loop zero done a score =
      fail (message "health score update failed after 3 retries (version conflicts)")
  update_loop (suc left) done a score = do
    account ← wrap "failed to get account" (on_table (db.first_account a))
    modify (around.pause 0)
    now ← read around.now
    rows ← wrap "failed to update health score" (
        on_table (
          db.update_account a (λ x. same_int x.version account.version)
            (with_score score account.version now)))
    if rows == 0
        then (do modify (around.pause ((done + 1) * 10000000)); update_loop left (done + 1) a score)
        else ignore (clear_account_cache a)

  unfoldable pub update_health_score : ℕ → ℤ → M (World D R) (Unit {0})
  update_health_score a score = update_loop 3 0 a score

  abbrev pub any_row : Account → Bool
  any_row _ = true

  unfoldable pub set_circuit_broken : ℕ → ℕ → M (World D R) (Unit {0})
  set_circuit_broken a broken_at = do
    now ← read around.now
    rows ← wrap "failed to set circuit broken" (
        on_table (
          db.update_account a any_row (λ x. record x {
            is_circuit_broken = true;
            circuit_broken_at = some broken_at;
            updated_at = now;
          })))
    if rows == 0 then fail (message "account not found") else (do
      ignore (on_redis (rdb.set (circuit a) (int (pos 1)) 300000000000))
      ignore (clear_account_cache a))

  unfoldable pub get_success_count : ℕ → M (World D R) ℤ
  get_success_count a = do
    reply ← wrap "failed to get success count" (on_redis (rdb.get (success_count a)))
    wrap "failed to get success count" (count_of reply)

  unfoldable pub get_backoff_time : ℕ → M (World D R) (Option ℕ)
  get_backoff_time a = do
    reply ← wrap "failed to get backoff time" (on_redis (rdb.get (backoff a)))
    wrap "failed to get backoff time" (time_of reply)

  -- What `GetCircuitState` makes of replies that may be errors.
  abbrev pub is_marked : Result ℕ → Bool
  is_marked (ok n) = ltb 0 n
  is_marked _ = false

  abbrev pub count_or_zero : Result ℤ → ℤ
  count_or_zero (ok n) = n
  count_or_zero _ = pos 0

  abbrev pub time_or_zero : Result (Option ℕ) → Option ℕ
  time_or_zero (ok t) = t
  time_or_zero _ = none

  unfoldable pub get_circuit_state : ℕ → M (World D R) CircuitState
  get_circuit_state a = do
    account ← wrap "failed to get account" (on_table (db.first_account a))
    marker ← attempt (on_redis (rdb.exists (half_open a)))
    count ← attempt (get_success_count a)
    retry ← attempt (get_backoff_time a)
    pure (record {
      is_circuit_broken = account.is_circuit_broken;
      circuit_broken_at = account.circuit_broken_at;
      is_half_open = is_marked marker;
      success_count = count_or_zero count;
      backoff_retry_time = time_or_zero retry;
    })

  unfoldable pub set_half_open : ℕ → ℕ → M (World D R) Bool
  set_half_open a ttl =
      wrap "failed to set half-open marker" (on_redis (rdb.set_nx (half_open a) (int (pos 1)) ttl))

  unfoldable pub increment_success_count : ℕ → M (World D R) ℤ
  increment_success_count a = do
    new_count ← wrap "failed to increment success count" (on_redis (rdb.incr (success_count a)))
    if same_int new_count (pos 1)
        then ignore (on_redis (rdb.expire (success_count a) 600000000000))
        else pure tt
    pure new_count

  unfoldable pub reset_circuit_breaker : ℕ → M (World D R) (Unit {0})
  reset_circuit_breaker a = do
    now ← read around.now
    rows ← wrap "failed to reset circuit breaker" (
        on_table (
          db.update_account a any_row (λ x. record x {
            is_circuit_broken = false;
            circuit_broken_at = none;
            updated_at = now;
          })))
    if rows == 0 then fail (message "account not found") else (do
      ignore (on_redis (rdb.del (circuit a ∷ success_count a ∷ half_open a ∷ backoff a ∷ [])))
      ignore (clear_account_cache a))

  -- `nextRetry.Unix()` drops the part of the second.
  unfoldable pub set_backoff_time : ℕ → ℕ → M (World D R) (Unit {0})
  set_backoff_time a next_retry =
      wrap "failed to set backoff time"
        (on_redis (rdb.set (backoff a) (int (pos (next_retry / 1000000000))) 3600000000000))

  abbrev pub found_or_error : Result Account → M (World D R) Account
  found_or_error (ok account) = pure account
  found_or_error (err record_not_found) = fail (message "account not found: %d")
  found_or_error (err e) = fail (wrapped "failed to get account" e)
  found_or_error panic = panics

  unfoldable pub get_account : ℕ → M (World D R) Account
  get_account a = attempt (on_table (db.first_account a)) >>= found_or_error

  -- `NewCircuitBreakerRepo`
  abbrev pub new_circuit_breaker_repo : CircuitBreakerRepo (World D R)
  new_circuit_breaker_repo = record {
    update_health_score = update_health_score;
    set_circuit_broken = set_circuit_broken;
    get_circuit_state = get_circuit_state;
    set_half_open = set_half_open;
    increment_success_count = increment_success_count;
    get_success_count = get_success_count;
    reset_circuit_breaker = reset_circuit_breaker;
    set_backoff_time = set_backoff_time;
    get_backoff_time = get_backoff_time;
    get_account = get_account;
  }
