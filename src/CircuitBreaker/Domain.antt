-- ===== src/CircuitBreaker/Domain.antt =====
-- internal/biz/circuit_breaker.go and internal/model/event.go: the error types and what they cost,
-- the state of a breaker, and the interfaces that the use case calls.
use quota_lane.Prelude.{ℕ, String, Bool, Option}
use quota_lane.Prelude.Int.{ℤ, pos, negsuc}
use quota_lane.Prelude.Effect.{M}
use quota_lane.Account.{Account}

-- `ErrorType`; an int that is none of the constants is `unknown_error`.
pub data ErrorType : Type 0 where
  token_refresh_failed health_check_failed rate_limited : ErrorType
  overloaded server_error timeout unknown_error : ErrorType

-- `String`
unfoldable pub to_string : ErrorType → String
to_string token_refresh_failed = "TokenRefreshFailed"
to_string health_check_failed = "HealthCheckFailed"
to_string rate_limited = "RateLimited"
to_string overloaded = "Overloaded"
to_string server_error = "ServerError"
to_string timeout = "Timeout"
to_string unknown_error = "Unknown"

-- `Delta`; `negsuc n` is -(n + 1).
unfoldable pub delta : ErrorType → ℤ
delta token_refresh_failed = negsuc 19
delta health_check_failed = negsuc 14
delta rate_limited = negsuc 9
delta overloaded = negsuc 29
delta server_error = negsuc 4
delta timeout = negsuc 4
delta unknown_error = pos 0

-- `model.CircuitState`. The zero `time.Time` of `BackoffRetryTime` is `none`.
pub record CircuitState : Type 0 where
  pub is_circuit_broken : Bool
  pub circuit_broken_at : Option ℕ
  pub is_half_open : Bool
  pub success_count : ℤ
  pub backoff_retry_time : Option ℕ

-- `CircuitBreakerRepo`
pub record CircuitBreakerRepo (S : Type 0) : Type 0 where
  pub update_health_score : ℕ → ℤ → M S (Unit {0})
  pub set_circuit_broken : ℕ → ℕ → M S (Unit {0})
  pub get_circuit_state : ℕ → M S CircuitState
  pub set_half_open : ℕ → ℕ → M S Bool
  pub increment_success_count : ℕ → M S ℤ
  pub get_success_count : ℕ → M S ℤ
  pub reset_circuit_breaker : ℕ → M S (Unit {0})
  pub set_backoff_time : ℕ → ℕ → M S (Unit {0})
  pub get_backoff_time : ℕ → M S (Option ℕ)
  pub get_account : ℕ → M S Account

-- A goroutine that the use case starts.
pub data Task : Type 0 where
  notify_broken : (account : ℕ) → (score : ℤ) → (at : ℕ) → Task
  notify_recovered : (account : ℕ) → (name : String) → (probes : ℤ) → (after : ℤ) → Task

-- `time.Now`, the methods of `AuditLogger` that the use case calls, and `go`.
pub record Env (S : Type 0) : Type 0 where
  pub now : S → ℕ
  pub log_health_score_change : ℕ → ℤ → ℤ → String → S → S
  pub log_circuit_broken : ℕ → ℤ → ℕ → S → S
  pub log_circuit_recovered : ℕ → ℤ → ℤ → S → S
  pub spawn : Task → S → S
