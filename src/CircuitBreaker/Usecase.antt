-- ===== src/CircuitBreaker/Usecase.antt =====
-- internal/biz/circuit_breaker.go: `CircuitBreakerUsecase`. Logging is left out.
use quota_lane.Prelude.{
  ℕ, ◌+◌, Bool, true, false, not, ◌&&◌, ◌||◌, Option, none, some, List, [], ◌∷◌, ltb, ◌==◌,
  if◌then◌else◌,
}
use quota_lane.Prelude.Int.{ℤ, pos, ◌+ℤ◌, sub_ℕ, ltb_ℤ, leb_ℤ}
use quota_lane.Prelude.Effect.{
  Result, ok, err, panic, M, pure, panics, ◌>>=◌, ◌>>◌, wrap, attempt, ignore, modify, read,
}
use quota_lane.Redis.{minute}
use quota_lane.Account.{Account}
use quota_lane.CircuitBreaker.Domain.{
  ErrorType, rate_limited, overloaded, server_error, timeout, to_string, delta, CircuitBreakerRepo,
  notify_broken, notify_recovered, Env,
}

-- `if n < 0 { n = 0 }; if n > 100 { n = 100 }`
unfoldable pub clamp : ℤ → ℤ
clamp n =
    let floored = if ltb_ℤ n (pos 0) then pos 0 else n in
    if ltb_ℤ (pos 100) floored then pos 100 else floored

abbrev pub cap : ℤ → ℤ
cap n = if ltb_ℤ (pos 100) n then pos 100 else n

abbrev is_hundred : ℤ → Bool
is_hundred n = leb_ℤ n (pos 100) && leb_ℤ (pos 100) n

-- The `switch` of `RecordAPIError`.
unfoldable pub error_type_of_status : ℕ → ErrorType
error_type_of_status code =
    if code == 429
    then rate_limited
    else if code == 529
    then overloaded
    else if code == 500 || code == 502 || code == 503 || code == 504
    then server_error
    else if code == 0
    then timeout
    else server_error

module _ {S : Type 0} (repo : CircuitBreakerRepo S) (env : Env S) where
  unfoldable pub trigger_circuit_breaker : ℕ → ℤ → M S (Unit {0})
  trigger_circuit_breaker account health_score = do
    now ← read env.now
    wrap "failed to set circuit broken" (repo.set_circuit_broken account now)
    modify (env.log_circuit_broken account health_score now)
    modify (env.spawn (notify_broken account health_score now))

  unfoldable pub update_health_score : ℕ → ErrorType → M S (Unit {0})
  update_health_score id error_type = do
    account ← wrap "failed to get account" (repo.get_account id)
    let old_score = account.health_score
    let new_score = clamp (old_score +ℤ delta error_type)
    wrap "failed to update health score" (repo.update_health_score id new_score)
    modify (env.log_health_score_change id old_score new_score (to_string error_type))
    if ltb_ℤ new_score (pos 30) && not account.is_circuit_broken
        then ignore (trigger_circuit_breaker id new_score)
        else pure tt

  unfoldable pub increment_health_score : ℕ → M S (Unit {0})
  increment_health_score id = do
    account ← wrap "failed to get account" (repo.get_account id)
    let old_score = account.health_score
    let new_score = cap (old_score +ℤ pos 1)
    if is_hundred old_score then pure tt else (do
      wrap "failed to increment health score" (repo.update_health_score id new_score)
      if ltb_ℤ old_score (pos 100) && is_hundred new_score
          then modify (env.log_health_score_change id old_score new_score "SuccessRequest")
          else pure tt)

  -- `time.Since(*account.CircuitBrokenAt)`; a nil pointer panics.
  abbrev pub since : Option ℕ → M S ℤ
  since none = panics
  since (some t) = read (λ s. sub_ℕ (env.now s) t)

  -- The end of `ResetHealthScore`, by what `ResetCircuitBreaker` returned.
  abbrev pub log_reset : ℕ → Account → Result (Unit {0}) → M S (Unit {0})
  log_reset id account (ok _) = do
    down ← since account.circuit_broken_at
    modify (env.log_circuit_recovered id down (pos 0))
  log_reset id account (err e) = pure tt
  log_reset id account panic = panics

  unfoldable pub reset_health_score : ℕ → M S (Unit {0})
  reset_health_score id = do
    account ← wrap "failed to get account" (repo.get_account id)
    let old_score = account.health_score
    if is_hundred old_score && not account.is_circuit_broken then pure tt else (do
      wrap "failed to reset health score" (repo.update_health_score id (pos 100))
      modify (env.log_health_score_change id old_score (pos 100) "TokenRefreshSuccess")
      if account.is_circuit_broken
          then attempt (repo.reset_circuit_breaker id) >>= log_reset id account
          else pure tt)

  unfoldable pub check_circuit_breaker : ℕ → M S (Unit {0})
  check_circuit_breaker id = do
    account ← wrap "failed to get account" (repo.get_account id)
    if ltb_ℤ account.health_score (pos 30) && not account.is_circuit_broken
        then trigger_circuit_breaker id account.health_score
        else pure tt

  -- The instant from which `IsHalfOpen` allows a probe: the stored one, or five minutes after the
  -- break where none is stored or it cannot be read.
  abbrev pub probe_from : ℕ → Result (Option ℕ) → M S ℕ
  probe_from broken_at (ok (some t)) = pure t
  probe_from broken_at (ok none) = pure (broken_at + 300000000000)
  probe_from broken_at (err e) = pure (broken_at + 300000000000)
  probe_from broken_at panic = panics

  abbrev pub allow_degraded : Result Bool → M S Bool
  allow_degraded (ok success) = pure success
  allow_degraded (err e) = pure true
  allow_degraded panic = panics

  abbrev pub half_open_since : ℕ → Option ℕ → M S Bool
  half_open_since id none = pure false
  half_open_since id (some broken_at) = do
    from ← attempt (repo.get_backoff_time id) >>= probe_from broken_at
    now ← read env.now
    if ltb now from then pure false else attempt (repo.set_half_open id minute) >>= allow_degraded

  unfoldable pub is_half_open : ℕ → M S Bool
  is_half_open id = do
    state ← wrap "failed to get circuit state" (repo.get_circuit_state id)
    if not state.is_circuit_broken then pure false else half_open_since id state.circuit_broken_at

  abbrev pub recover_time : Option ℕ → M S ℤ
  recover_time none = pure (pos 0)
  recover_time (some t) = read (λ s. sub_ℕ (env.now s) t)

  unfoldable pub reset_circuit_breaker_after_probe : ℕ → ℤ → M S (Unit {0})
  reset_circuit_breaker_after_probe id probe_count = do
    account ← repo.get_account id
    repo.reset_circuit_breaker id
    down ← recover_time account.circuit_broken_at
    modify (env.log_circuit_recovered id down probe_count)
    modify (env.spawn (notify_recovered id account.name probe_count down))

  abbrev pub count_or_zero : Result ℤ → M S ℤ
  count_or_zero (ok n) = pure n
  count_or_zero (err e) = pure (pos 0)
  count_or_zero panic = panics

  unfoldable pub record_probe_success : ℕ → M S (Unit {0})
  record_probe_success id = do
    account ← wrap "failed to get account" (repo.get_account id)
    let old_score = account.health_score
    let new_score = cap (old_score +ℤ pos 20)
    wrap "failed to update health score after probe success" (repo.update_health_score id new_score)
    success_count ← attempt (repo.increment_success_count id) >>= count_or_zero
    modify (env.log_health_score_change id old_score new_score "ProbeSuccess")
    if leb_ℤ (pos 3) success_count
        then wrap "failed to reset circuit breaker"
            (reset_circuit_breaker_after_probe id success_count)
        else pure tt

  -- The next delay by the stored retry time: both branches of the test give 30 minutes, and the test
  -- dereferences `CircuitBrokenAt`.
  abbrev pub next_backoff : Option ℕ → Result (Option ℕ) → M S ℕ
  next_backoff broken_at (ok none) = pure 600000000000
  next_backoff broken_at (err e) = pure 600000000000
  next_backoff broken_at (ok (some _)) = do
    time_since_break ← since broken_at
    if ltb_ℤ time_since_break (pos 900000000000) then pure 1800000000000 else pure 1800000000000
  next_backoff broken_at panic = panics

  unfoldable pub record_probe_failure : ℕ → M S (Unit {0})
  record_probe_failure id = do
    state ← wrap "failed to get circuit state" (repo.get_circuit_state id)
    backoff ← attempt (repo.get_backoff_time id) >>= next_backoff state.circuit_broken_at
    now ← read env.now
    ignore (repo.set_backoff_time id (now + backoff))

  unfoldable pub record_api_error : ℕ → ℕ → Bool → M S (Unit {0})
  record_api_error id status_code is_local_rate_limit =
      if is_local_rate_limit
      then pure tt
      else update_health_score id (error_type_of_status status_code)

  unfoldable pub record_api_success : ℕ → M S (Unit {0})
  record_api_success id = increment_health_score id

-- The exported methods of the use case.
pub data Operation : Type 0 where
  error_seen : ErrorType → Operation
  success_seen reset_requested breaker_checked probe_requested : Operation
  probe_succeeded probe_failed api_succeeded : Operation
  api_failed : (status_code : ℕ) → (is_local_rate_limit : Bool) → Operation

module _ {S : Type 0} (repo : CircuitBreakerRepo S) (env : Env S) where
  -- The state after one method call on an account, whatever it returned.
  abbrev pub perform : Operation → ℕ → S → S
  perform (error_seen e) a s = (update_health_score repo env a e s).1
  perform success_seen a s = (increment_health_score repo env a s).1
  perform reset_requested a s = (reset_health_score repo env a s).1
  perform breaker_checked a s = (check_circuit_breaker repo env a s).1
  perform probe_requested a s = (is_half_open repo env a s).1
  perform probe_succeeded a s = (record_probe_success repo env a s).1
  perform probe_failed a s = (record_probe_failure repo env a s).1
  perform api_succeeded a s = (record_api_success repo env a s).1
  perform (api_failed code loc) a s = (record_api_error repo env a code loc s).1

  abbrev pub perform_all : List (Operation × ℕ) → S → S
  perform_all [] s = s
  perform_all ((op, a) ∷ ops) s = perform_all ops (perform op a s)
