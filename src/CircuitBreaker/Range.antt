-- ===== src/CircuitBreaker/Range.antt =====
-- internal/biz/circuit_breaker.go: the range of the health scores under every operation.
use quota_lane.Prelude.{
  ℕ, String, ◌≡◌, sym, ◌∙◌, inl, inr, Bool, Option, none, some, some-injective, List, [], ◌∷◌,
  arith, ◌==◌, ==_iff, Bool-cases,
}
use quota_lane.Prelude.Int.{ℤ, pos, ◌+ℤ◌, ◌≤ℤ◌}
use quota_lane.Prelude.Effect.{Result, ok, err, panic, M, modify, read, Result-cases}
use quota_lane.Prelude.Hoare.{
  Holds, Always, Ensures, Ensures-run, Ensures-intro, Ensures-keep, Ensures-pure, Ensures-panics,
  Ensures-bind, Ensures-then, Ensures-wrap, Ensures-attempt, Ensures-modify, Ensures-read,
  Ensures-if, Ensures-ignore,
}
use quota_lane.Account.{Account}
use quota_lane.CircuitBreaker.Domain.{ErrorType, delta, CircuitState, CircuitBreakerRepo, Task, Env}
use quota_lane.CircuitBreaker.Failure.{Ensures-since, Ensures-record_probe_failure}
use quota_lane.CircuitBreaker.Laws.{Health, IsLawful}
use quota_lane.Redis.{minute}
use quota_lane.CircuitBreaker.Usecase.{
  Operation, error_seen, success_seen, reset_requested, breaker_checked, probe_requested,
  probe_succeeded, probe_failed, api_succeeded, api_failed, perform, perform_all, log_reset,
  probe_from, allow_degraded, half_open_since, recover_time, count_or_zero, clamp, cap,
  trigger_circuit_breaker, update_health_score, increment_health_score, reset_health_score,
  check_circuit_breaker, is_half_open, reset_circuit_breaker_after_probe, record_probe_success,
  record_probe_failure, record_api_error, record_api_success,
}

-- A score on the scale of the breaker.
abbrev pub InScale : ℤ → Type 0
InScale n = (pos 0 ≤ℤ n) × (n ≤ℤ pos 100)

pub clamp-InScale : (n : ℤ) → InScale (clamp n)
unfolding clamp
clamp-InScale n = ground arith

cap-InScale : (n : ℤ) (k : ℕ) → InScale n → InScale (cap (n +ℤ pos k))
unfolding ◌+ℤ◌
cap-InScale n k h = ground arith

module _ {S : Type 0} (repo : CircuitBreakerRepo S) (env : Env S) (h : Health S)
    (law : IsLawful repo env h) where
  abbrev Scored : S → Type 0
  Scored s = (b : ℕ) (n : ℤ) → h.score s b ≡ some n → InScale n

  abbrev Good : {A : Type 0} → (A → Type 0) → M S A → Type 0
  Good = Ensures Scored

  -- A call that leaves the scores alone.
  same_scores :
      {A : Type 0} (m : M S A)
      → ((b : ℕ) (s : S) → h.score (m s).1 b ≡ h.score s b)
      → Good (Always {A = A}) m
  same_scores m f = Ensures-keep Scored m (λ s p b n e. p b n (sym (f b s) ∙ e))

  Good-account : (a : ℕ) → Good (λ (x : Account). InScale x.health_score) (repo.get_account a)
  Good-account a =
      Ensures-intro Scored _ _
        (λ s p. (λ b n e. p b n (sym (law.get_account_same a b s).0 ∙ e), held s p))
    where
      held :
          (s : S)
          → Scored s
          → Holds (λ (x : Account). InScale x.health_score) (repo.get_account a s).0
      held s p = elim (Result-cases (repo.get_account a s)) [
        | inl (x, e) ↦ rw e (p a x.health_score (law.get_account_ok a s _ x e).0)
        | inr (inl (f, e)) ↦ rw e tt
        | inr (inr e) ↦ rw e tt
      ]

  Good-update :
      (a : ℕ) (n : ℤ) → InScale n → Good (Always {A = Unit {0}}) (repo.update_health_score a n)
  Good-update a n ok_n = Ensures-keep Scored _ (λ s p b k e. elim (Bool-cases (b == a)) [
    | inl same ↦ at_a s p k (rw ((==_iff b a).0 same) at e)
    | inr other ↦ p b k (sym (law.update_health_score_others a b n s (ground arith)) ∙ e)
  ])
    where
      at_a :
          (s : S)
          → Scored s
          → (k : ℤ) → h.score (repo.update_health_score a n s).1 a ≡ some k
          → InScale k
      at_a s p k e = elim (law.update_health_score_any a n s) [
        | inl kept ↦ p a k (sym kept ∙ e)
        | inr written ↦ rw (some-injective _ _ (sym e ∙ written)) ok_n
      ]

  Good-now : Good (Always {A = ℕ}) (read env.now)
  Good-now = Ensures-read Scored env.now

  Good-modify :
      (f : S → S)
      → ((b : ℕ) (s : S) → h.score (f s) b ≡ h.score s b)
      → Good (Always {A = Unit {0}}) (modify f)
  Good-modify f g = Ensures-modify Scored f (λ s p b n e. p b n (sym (g b s) ∙ e))

  Good-log :
      (a : ℕ) (m n : ℤ) (t : String)
      → Good (Always {A = Unit {0}}) (modify (env.log_health_score_change a m n t))
  Good-log a m n t = Good-modify _ (λ b s. (law.log_health_score_change_same a b m n t s).0)

  Good-log_recovered :
      (a : ℕ) (m n : ℤ) → Good (Always {A = Unit {0}}) (modify (env.log_circuit_recovered a m n))
  Good-log_recovered a m n = Good-modify _ (λ b s. (law.log_circuit_recovered_same a b m n s).0)

  Good-spawn : (t : Task) → Good (Always {A = Unit {0}}) (modify (env.spawn t))
  Good-spawn t = Good-modify _ (λ b s. (law.spawn_same t b s).0)

  Good-reset : (a : ℕ) → Good (Always {A = Unit {0}}) (repo.reset_circuit_breaker a)
  Good-reset a = same_scores _ (λ b s. law.reset_circuit_breaker_rest a b s)

  Good-state : (a : ℕ) → Good (Always {A = CircuitState}) (repo.get_circuit_state a)
  Good-state a = same_scores _ (λ b s. (law.get_circuit_state_same a b s).0)

  Good-backoff : (a : ℕ) → Good (Always {A = Option ℕ}) (repo.get_backoff_time a)
  Good-backoff a = same_scores _ (λ b s. (law.get_backoff_time_same a b s).0)

  Good-trigger :
      (a : ℕ) (n : ℤ) → Good (Always {A = Unit {0}}) (trigger_circuit_breaker repo env a n)
  unfolding trigger_circuit_breaker
  Good-trigger a n = Ensures-bind Scored Always Always _ _ Good-now λ now _.
      Ensures-then Scored Always _ _
        (Ensures-wrap Scored Always _ _ (
          same_scores (repo.set_circuit_broken a now)
            (λ b s. (law.set_circuit_broken_rest a b now s).0)))
        (Ensures-then Scored Always _ _
          (Good-modify _ (λ b s. (law.log_circuit_broken_same a b now n s).0)) (Good-spawn _))

  pub Good-update_health_score :
      (a : ℕ) (e : ErrorType) → Good (Always {A = Unit {0}}) (update_health_score repo env a e)
  unfolding update_health_score
  Good-update_health_score a e =
      Ensures-bind Scored _ Always _ _ (Ensures-wrap Scored _ _ _ (Good-account a)) λ x inside.
        Ensures-then Scored Always _ _
          (Ensures-wrap Scored Always _ _
            (Good-update a (clamp (x.health_score +ℤ delta e)) (clamp-InScale _)))
          (Ensures-then Scored Always _ _ (Good-log a _ _ _) (
            Ensures-if Scored Always _ _ _ (Ensures-ignore Scored Always _ (Good-trigger a _))
              (Ensures-pure Scored Always _ tt)))

  Good-increment : (a : ℕ) → Good (Always {A = Unit {0}}) (increment_health_score repo env a)
  unfolding increment_health_score
  Good-increment a =
      Ensures-bind Scored _ Always _ _ (Ensures-wrap Scored _ _ _ (Good-account a)) λ x inside.
        Ensures-if Scored Always _ _ _ (Ensures-pure Scored Always _ tt) (
          Ensures-then Scored Always _ _
            (Ensures-wrap Scored Always _ _ (Good-update a _ (cap-InScale x.health_score 1 inside)))
            (Ensures-if Scored Always _ _ _ (Good-log a _ _ _) (Ensures-pure Scored Always _ tt)))

  Good-log_reset :
      (a : ℕ) (x : Account) (r : Result (Unit {0}))
      → Good (Always {A = Unit {0}}) (log_reset repo env a x r)
  Good-log_reset a x (ok _) =
      Ensures-bind Scored _ Always _ _ (Ensures-since repo env Scored x.circuit_broken_at)
        λ d _. Good-log_recovered a _ _
  Good-log_reset a x (err e) = Ensures-pure Scored Always _ tt
  Good-log_reset a x panic = Ensures-panics Scored Always

  Good-reset_health_score : (a : ℕ) → Good (Always {A = Unit {0}}) (reset_health_score repo env a)
  unfolding reset_health_score
  Good-reset_health_score a =
      Ensures-bind Scored _ Always _ _ (Ensures-wrap Scored _ _ _ (Good-account a)) λ x inside.
        Ensures-if Scored Always _ _ _ (Ensures-pure Scored Always _ tt) (
          Ensures-then Scored Always _ _
            (Ensures-wrap Scored Always _ _ (Good-update a (pos 100) (omega arith)))
            (Ensures-then Scored Always _ _ (Good-log a _ _ _) (
              Ensures-if Scored Always _ _ _
                (Ensures-bind Scored _ Always _ _ (Ensures-attempt Scored _ _ (Good-reset a))
                  λ r _. Good-log_reset a x r)
                (Ensures-pure Scored Always _ tt))))

  Good-check : (a : ℕ) → Good (Always {A = Unit {0}}) (check_circuit_breaker repo env a)
  unfolding check_circuit_breaker
  Good-check a =
      Ensures-bind Scored _ Always _ _ (Ensures-wrap Scored _ _ _ (Good-account a)) λ x inside.
        Ensures-if Scored Always _ _ _ (Good-trigger a _) (Ensures-pure Scored Always _ tt)

  Good-probe_from :
      (t : ℕ) (r : Result (Option ℕ)) → Good (Always {A = ℕ}) (probe_from repo env t r)
  Good-probe_from t (ok (some u)) = Ensures-pure Scored Always _ tt
  Good-probe_from t (ok none) = Ensures-pure Scored Always _ tt
  Good-probe_from t (err e) = Ensures-pure Scored Always _ tt
  Good-probe_from t panic = Ensures-panics Scored Always

  Good-allow : (r : Result Bool) → Good (Always {A = Bool}) (allow_degraded repo env r)
  Good-allow (ok b) = Ensures-pure Scored Always _ tt
  Good-allow (err e) = Ensures-pure Scored Always _ tt
  Good-allow panic = Ensures-panics Scored Always

  Good-half_open_since :
      (a : ℕ) (t : Option ℕ) → Good (Always {A = Bool}) (half_open_since repo env a t)
  Good-half_open_since a none = Ensures-pure Scored Always _ tt
  Good-half_open_since a (some t) =
      Ensures-bind Scored _ Always _ _
        (Ensures-bind Scored _ Always _ _ (Ensures-attempt Scored _ _ (Good-backoff a))
          λ r _. Good-probe_from t r)
        λ from _. Ensures-bind Scored _ Always _ _ Good-now λ now _.
          Ensures-if Scored Always _ _ _ (Ensures-pure Scored Always _ tt) (
            Ensures-bind Scored _ Always _ _
              (Ensures-attempt Scored Always _ (
                same_scores (repo.set_half_open a minute)
                  (λ b s. (law.set_half_open_rest a b minute s).0)))
              λ r _. Good-allow r)

  Good-is_half_open : (a : ℕ) → Good (Always {A = Bool}) (is_half_open repo env a)
  unfolding is_half_open
  Good-is_half_open a =
      Ensures-bind Scored _ Always _ _ (Ensures-wrap Scored _ _ _ (Good-state a)) λ x _.
        Ensures-if Scored Always _ _ _ (Ensures-pure Scored Always _ tt)
          (Good-half_open_since a x.circuit_broken_at)

  Good-recover_time : (t : Option ℕ) → Good (Always {A = ℤ}) (recover_time repo env t)
  Good-recover_time none = Ensures-pure Scored Always _ tt
  Good-recover_time (some t) = Ensures-read Scored _

  Good-after_probe :
      (a : ℕ) (n : ℤ)
      → Good (Always {A = Unit {0}}) (reset_circuit_breaker_after_probe repo env a n)
  unfolding reset_circuit_breaker_after_probe
  Good-after_probe a n = Ensures-bind Scored _ Always _ _ (Good-account a) λ x _.
      Ensures-then Scored Always _ _ (Good-reset a) (
        Ensures-bind Scored _ Always _ _ (Good-recover_time x.circuit_broken_at)
          λ d _. Ensures-then Scored Always _ _ (Good-log_recovered a _ _) (Good-spawn _))

  Good-count_or_zero : (r : Result ℤ) → Good (Always {A = ℤ}) (count_or_zero repo env r)
  Good-count_or_zero (ok n) = Ensures-pure Scored Always _ tt
  Good-count_or_zero (err e) = Ensures-pure Scored Always _ tt
  Good-count_or_zero panic = Ensures-panics Scored Always

  Good-probe_success : (a : ℕ) → Good (Always {A = Unit {0}}) (record_probe_success repo env a)
  unfolding record_probe_success
  Good-probe_success a =
      Ensures-bind Scored _ Always _ _ (Ensures-wrap Scored _ _ _ (Good-account a)) λ x inside.
        Ensures-then Scored Always _ _
          (Ensures-wrap Scored Always _ _ (Good-update a _ (cap-InScale x.health_score 20 inside)))
          (Ensures-bind Scored _ Always _ _
            (Ensures-bind Scored _ Always _ _
              (Ensures-attempt Scored Always _ (
                same_scores (repo.increment_success_count a)
                  (λ b s. (law.increment_success_count_rest a b s).0)))
              λ r _. Good-count_or_zero r)
            λ n _. Ensures-then Scored Always _ _ (Good-log a _ _ _) (
              Ensures-if Scored Always _ _ _ (Ensures-wrap Scored Always _ _ (Good-after_probe a n))
                (Ensures-pure Scored Always _ tt)))

  Good-probe_failure : (a : ℕ) → Good (Always {A = Unit {0}}) (record_probe_failure repo env a)
  Good-probe_failure a =
      Ensures-record_probe_failure repo env Scored a (Good-state a) (Good-backoff a)
        λ t. same_scores (repo.set_backoff_time a t) (λ b s. (law.set_backoff_time_same a b t s).0)

  Good-api_error :
      (a code : ℕ) (loc : Bool)
      → Good (Always {A = Unit {0}}) (record_api_error repo env a code loc)
  unfolding record_api_error
  Good-api_error a code loc =
      Ensures-if Scored Always loc _ _ (Ensures-pure Scored Always _ tt)
        (Good-update_health_score a _)

  perform-Scored : (op : Operation) (a : ℕ) (s : S) → Scored s → Scored (perform repo env op a s)
  unfolding record_api_success
  perform-Scored (error_seen e) a = Ensures-run Scored Always _ (Good-update_health_score a e)
  perform-Scored success_seen a = Ensures-run Scored Always _ (Good-increment a)
  perform-Scored reset_requested a = Ensures-run Scored Always _ (Good-reset_health_score a)
  perform-Scored breaker_checked a = Ensures-run Scored Always _ (Good-check a)
  perform-Scored probe_requested a = Ensures-run Scored Always _ (Good-is_half_open a)
  perform-Scored probe_succeeded a = Ensures-run Scored Always _ (Good-probe_success a)
  perform-Scored probe_failed a = Ensures-run Scored Always _ (Good-probe_failure a)
  perform-Scored api_succeeded a = Ensures-run Scored Always _ (Good-increment a)
  perform-Scored (api_failed code loc) a = Ensures-run Scored Always _ (Good-api_error a code loc)

  -- If every stored health score lies between 0 and 100, so it does after any sequence of method calls on
  -- any accounts, whichever of the calls below them fail or panic.
  pub perform_all-InScale :
      (ops : List (Operation × ℕ)) (s : S)
      → ((b : ℕ) (n : ℤ) → h.score s b ≡ some n → InScale n)
      → (b : ℕ) (n : ℤ) → h.score (perform_all repo env ops s) b ≡ some n
      → InScale n
  perform_all-InScale [] s p = p
  perform_all-InScale ((op, a) ∷ ops) s p =
      perform_all-InScale ops (perform repo env op a s) (perform-Scored op a s p)
