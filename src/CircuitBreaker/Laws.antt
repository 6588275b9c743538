-- ===== src/CircuitBreaker/Laws.antt =====
-- What the circuit breaker relies on: the health of an account as the repository keeps it, and what
-- each call does to it. A call that comes back with an error may still have taken effect.
use quota_lane.Prelude.{
  ℕ, ◌+◌, ltb, none, String, ◌≡◌, ◌≢◌, Bool, true, false, not, Option, some, ◌⊎◌,
}
use quota_lane.Prelude.Int.{ℤ, pos, ◌+ℤ◌}
use quota_lane.Prelude.Effect.{ok}
use quota_lane.Account.{Account}
use quota_lane.CircuitBreaker.Domain.{CircuitState, CircuitBreakerRepo, Task, Env}

-- The stored score and breaker of an account, its count of successful probes, and the instant at which
-- its half-open marker runs out, if one was set. Redis and the caller read one clock.
pub record Health (S : Type 0) : Type 0 where
  pub score : S → ℕ → Option ℤ
  pub broken : S → ℕ → Option Bool
  pub probes : S → ℕ → ℤ
  pub marked : S → ℕ → Option ℕ

-- A marker that runs out at an instant, if there is one, is there at time `t`.
abbrev pub is_live : Option ℕ → ℕ → Bool
is_live none t = false
is_live (some u) t = ltb t u

module _ {S : Type 0} (h : Health S) where
  abbrev pub SameRow : S → S → ℕ → Type 0
  SameRow s s' b = (h.score s' b ≡ h.score s b) × (h.broken s' b ≡ h.broken s b)

  abbrev pub Same : S → S → ℕ → Type 0
  Same s s' b =
      (h.score s' b ≡ h.score s b)
      × (h.broken s' b ≡ h.broken s b)
      × (h.probes s' b ≡ h.probes s b)
      × (h.marked s' b ≡ h.marked s b)

module _ {S : Type 0} (repo : CircuitBreakerRepo S) (env : Env S) (h : Health S) where
  pub record IsLawful : Type 0 where
    pub get_account_ok :
        (a : ℕ) (s s' : S) (x : Account)
        → repo.get_account a s ≡ (ok x, s')
        → (h.score s a ≡ some x.health_score) × (h.broken s a ≡ some x.is_circuit_broken)
    pub get_account_same : (a b : ℕ) (s : S) → Same h s (repo.get_account a s).1 b
    pub get_circuit_state_ok :
        (a : ℕ) (s s' : S) (x : CircuitState)
        → repo.get_circuit_state a s ≡ (ok x, s')
        → h.broken s a ≡ some x.is_circuit_broken
    pub get_circuit_state_same : (a b : ℕ) (s : S) → Same h s (repo.get_circuit_state a s).1 b
    pub get_backoff_time_same : (a b : ℕ) (s : S) → Same h s (repo.get_backoff_time a s).1 b
    pub set_backoff_time_same : (a b t : ℕ) (s : S) → Same h s (repo.set_backoff_time a t s).1 b
    pub update_health_score_ok :
        (a : ℕ) (n : ℤ) (s s' : S)
        → repo.update_health_score a n s ≡ (ok tt, s')
        → h.score s' a ≡ some n
    pub update_health_score_any :
        (a : ℕ) (n : ℤ) (s : S)
        → (h.score (repo.update_health_score a n s).1 a ≡ h.score s a)
          ⊎ (h.score (repo.update_health_score a n s).1 a ≡ some n)
    pub update_health_score_others :
        (a b : ℕ) (n : ℤ) (s : S)
        → b ≢ a
        → h.score (repo.update_health_score a n s).1 b ≡ h.score s b
    pub update_health_score_rest :
        (a b : ℕ) (n : ℤ) (s : S)
        → (h.broken (repo.update_health_score a n s).1 b ≡ h.broken s b)
          × (h.probes (repo.update_health_score a n s).1 b ≡ h.probes s b)
    pub set_circuit_broken_ok :
        (a t : ℕ) (s s' : S)
        → repo.set_circuit_broken a t s ≡ (ok tt, s')
        → h.broken s' a ≡ some true
    pub set_circuit_broken_rest :
        (a b t : ℕ) (s : S)
        → (h.score (repo.set_circuit_broken a t s).1 b ≡ h.score s b)
          × (h.probes (repo.set_circuit_broken a t s).1 b ≡ h.probes s b)
    pub set_half_open_ok :
        (a ttl : ℕ) (s s' : S) (won : Bool)
        → repo.set_half_open a ttl s ≡ (ok won, s')
        → (won ≡ not (is_live (h.marked s a) (env.now s)))
          × (won ≡ true → h.marked s' a ≡ some (env.now s + ttl))
    pub set_half_open_rest : (a b ttl : ℕ) (s : S) → SameRow h s (repo.set_half_open a ttl s).1 b
    pub increment_success_count_ok :
        (a : ℕ) (s s' : S) (n : ℤ)
        → repo.increment_success_count a s ≡ (ok n, s')
        → (n ≡ h.probes s a +ℤ pos 1) × (h.probes s' a ≡ n)
    pub increment_success_count_rest :
        (a b : ℕ) (s : S) → SameRow h s (repo.increment_success_count a s).1 b
    pub reset_circuit_breaker_ok :
        (a : ℕ) (s s' : S)
        → repo.reset_circuit_breaker a s ≡ (ok tt, s')
        → h.broken s' a ≡ some false
    pub reset_circuit_breaker_rest :
        (a b : ℕ) (s : S) → h.score (repo.reset_circuit_breaker a s).1 b ≡ h.score s b
    pub log_health_score_change_same :
        (a b : ℕ) (m n : ℤ) (t : String) (s : S)
        → Same h s (env.log_health_score_change a m n t s) b
    pub log_circuit_broken_same :
        (a b t : ℕ) (n : ℤ) (s : S) → Same h s (env.log_circuit_broken a n t s) b
    pub log_circuit_recovered_same :
        (a b : ℕ) (m n : ℤ) (s : S) → Same h s (env.log_circuit_recovered a m n s) b
    pub spawn_same : (t : Task) (b : ℕ) (s : S) → Same h s (env.spawn t s) b
