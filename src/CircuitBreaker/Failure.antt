-- ===== src/CircuitBreaker/Failure.antt =====
-- internal/biz/circuit_breaker.go: `RecordProbeFailure`, by the predicates that its calls keep.
use quota_lane.Prelude.{ℕ, ◌+◌, Option, none, some}
use quota_lane.Prelude.Int.{ℤ}
use quota_lane.Prelude.Effect.{Result, ok, err, panic}
use quota_lane.Prelude.Hoare.{
  Always, Ensures, Ensures-pure, Ensures-panics, Ensures-bind, Ensures-wrap, Ensures-attempt,
  Ensures-read, Ensures-if, Ensures-ignore,
}
use quota_lane.CircuitBreaker.Domain.{CircuitState, CircuitBreakerRepo, Env}
use quota_lane.CircuitBreaker.Usecase.{since, next_backoff, record_probe_failure}

module _ {S : Type 0} (repo : CircuitBreakerRepo S) (env : Env S) (P : S → Type 0) where
  pub Ensures-since : (t : Option ℕ) → Ensures P (Always {A = ℤ}) (since repo env t)
  Ensures-since none = Ensures-panics P Always
  Ensures-since (some t) = Ensures-read P _

  Ensures-next_backoff :
      (t : Option ℕ) (r : Result (Option ℕ))
      → Ensures P (Always {A = ℕ}) (next_backoff repo env t r)
  Ensures-next_backoff t (ok none) = Ensures-pure P Always _ tt
  Ensures-next_backoff t (err e) = Ensures-pure P Always _ tt
  Ensures-next_backoff t (ok (some u)) =
      Ensures-bind P _ Always _ _ (Ensures-since t)
        λ d _. Ensures-if P Always _ _ _ (Ensures-pure P Always _ tt) (Ensures-pure P Always _ tt)
  Ensures-next_backoff t panic = Ensures-panics P Always

  pub Ensures-record_probe_failure :
      (a : ℕ)
      → Ensures P (Always {A = CircuitState}) (repo.get_circuit_state a)
      → Ensures P (Always {A = Option ℕ}) (repo.get_backoff_time a)
      → ((t : ℕ) → Ensures P (Always {A = Unit {0}}) (repo.set_backoff_time a t))
      → Ensures P (Always {A = Unit {0}}) (record_probe_failure repo env a)
  unfolding record_probe_failure
  Ensures-record_probe_failure a state backoff set =
      Ensures-bind P _ Always _ _ (Ensures-wrap P _ _ _ state) λ x _.
        Ensures-bind P _ Always _ _
          (Ensures-bind P _ Always _ _ (Ensures-attempt P _ _ backoff)
            λ r _. Ensures-next_backoff x.circuit_broken_at r)
          λ d _.
            Ensures-bind P _ Always _ _ (Ensures-read P env.now)
              λ now _. Ensures-ignore P Always _ (set (now + d))
