-- ===== src/CircuitBreaker/Trip.antt =====
-- internal/biz/circuit_breaker.go: `UpdateHealthScore` and the trip, and when `IsHalfOpen` opens.
use quota_lane.Prelude.{
  ℕ, ◌+◌, ◌≤◌, ◌≡◌, sym, ap, ◌∙◌, inl, inr, Bool, true, false, not, ◌&&◌, ◌||◌, Option, none, some,
  arith, Bool-cases, Option-cases, if◌then◌else◌,
}
use quota_lane.Prelude.Int.{ℤ, pos, ◌+ℤ◌, ltb_ℤ}
use quota_lane.Prelude.Effect.{
  Result, ok, pure, wrap, attempt, ignore, ignore_state, modify, read, Result-cases,
}
use quota_lane.Account.{Account}
use quota_lane.CircuitBreaker.Domain.{
  ErrorType, delta, to_string, CircuitState, CircuitBreakerRepo, notify_broken, Env,
}
use quota_lane.CircuitBreaker.Laws.{Health, IsLawful}
use quota_lane.CircuitBreaker.Usecase.{
  clamp, trigger_circuit_breaker, update_health_score, is_half_open,
}

-- The earliest time of a probe: the retry time where one is read, or five minutes after the break.
abbrev pub earliest : ℕ → Result (Option ℕ) → ℕ
earliest broken_at (ok (some retry)) = retry
earliest broken_at _ = broken_at + 300000000000

module _ {S : Type 0} (repo : CircuitBreakerRepo S) (env : Env S) (h : Health S)
    (law : IsLawful repo env h) where
  trigger_lem :
      (a : ℕ) (n : ℤ) (s s' : S)
      → repo.set_circuit_broken a (env.now s) s ≡ (ok tt, s')
      → (h.broken (trigger_circuit_breaker repo env a n s).1 a ≡ some true)
        × (h.score (trigger_circuit_breaker repo env a n s).1 a ≡ h.score s a)
        × ((trigger_circuit_breaker repo env a n s).0 ≡ ok tt)
  unfolding trigger_circuit_breaker wrap modify read
  trigger_lem a n s s' e = ground (
    arith,
    e,
    law.set_circuit_broken_ok a (env.now s) s s' e,
    law.set_circuit_broken_rest a a (env.now s) s,
    law.log_circuit_broken_same a a (env.now s) n s',
    law.spawn_same (notify_broken a n (env.now s)) a (env.log_circuit_broken a n (env.now s) s'),
  )

  -- Marking an account that is there as broken succeeds.
  abbrev pub CanBreak : Type 0
  CanBreak =
      (a t : ℕ) (s : S) (b : Bool)
      → h.broken s a ≡ some b
      → (repo.set_circuit_broken a t s).0 ≡ ok tt

  module _ (a : ℕ) (e : ErrorType) (s s₁ s₂ : S) (x : Account)
      (p : repo.get_account a s ≡ (ok x, s₁))
      (q : repo.update_health_score a (clamp (x.health_score +ℤ delta e)) s₁ ≡ (ok tt, s₂)) where
    abbrev new : ℤ
    new = clamp (x.health_score +ℤ delta e)

    abbrev s₃ : S
    s₃ = env.log_health_score_change a x.health_score new (to_string e) s₂

    abbrev tripped : Bool
    tripped = ltb_ℤ new (pos 30) && not x.is_circuit_broken

    -- The run, by the states after its calls.
    run_eq :
        update_health_score repo env a e s
        ≡ (if tripped then ignore (trigger_circuit_breaker repo env a new) else pure tt) s₃
    unfolding update_health_score wrap modify
    run_eq = rw (p, q)

    run_open : tripped ≡ false → update_health_score repo env a e s ≡ (ok tt, s₃)
    run_open t = run_eq ∙ rw t

    run_trip :
        tripped ≡ true
        → (update_health_score repo env a e s).1 ≡ (trigger_circuit_breaker repo env a new s₃).1
    run_trip t = ap (λ w. w.1) run_eq ∙ rw t (ignore_state _ s₃)

    stored : (h.score s₃ a ≡ some new) × (h.broken s₃ a ≡ some x.is_circuit_broken)
    stored = (
      (law.log_health_score_change_same a a _ new _ s₂).0
          ∙ law.update_health_score_ok a new s₁ s₂ q,
      (law.log_health_score_change_same a a _ new _ s₂).1
          ∙ ap (λ w. h.broken w.1 a) (sym q)
          ∙ (law.update_health_score_rest a a new s₁).0
          ∙ ap (λ w. h.broken w.1 a) (sym p)
          ∙ (law.get_account_same a a s).1
          ∙ (law.get_account_ok a s s₁ x p).1,
    )

    update_run :
        CanBreak
        → (h.score (update_health_score repo env a e s).1 a ≡ some new)
          × (h.broken (update_health_score repo env a e s).1 a
              ≡ some (x.is_circuit_broken || ltb_ℤ new (pos 30)))
    update_run can = elim (Bool-cases tripped) [
      | inl t ↦ rw (run_trip t) (trig.1 ∙ stored.0, trig.0 ∙ ap some (ground (arith, t)))
      | inr t ↦ rw (run_open t) (stored.0, stored.1 ∙ ap some (ground (arith, t)))
    ]
      where
        trig :
            (h.broken (trigger_circuit_breaker repo env a new s₃).1 a ≡ some true)
            × (h.score (trigger_circuit_breaker repo env a new s₃).1 a ≡ h.score s₃ a)
            × ((trigger_circuit_breaker repo env a new s₃).0 ≡ ok tt)
        trig = trigger_lem a new s₃ (repo.set_circuit_broken a (env.now s₃) s₃).1 (λ i.
            (can a (env.now s₃) s₃ _ stored.1 i, (repo.set_circuit_broken a (env.now s₃) s₃).1))

  -- Where an account can be marked as broken, a successful update stores the old score changed by the
  -- error's delta and clamped, and the breaker is open after it exactly if it was open before or the
  -- new score is below 30.
  pub update_health_score-trips :
      CanBreak
      → (a : ℕ) (e : ErrorType) (s : S) (n : ℤ) (b : Bool) → h.score s a ≡ some n
      → h.broken s a ≡ some b
      → (update_health_score repo env a e s).0 ≡ ok tt
      → (h.score (update_health_score repo env a e s).1 a ≡ some (clamp (n +ℤ delta e)))
        × (h.broken (update_health_score repo env a e s).1 a
            ≡ some (b || ltb_ℤ (clamp (n +ℤ delta e)) (pos 30)))
  unfolding update_health_score wrap modify ignore
  update_health_score-trips can a e s n b hn hb fine = elim (Result-cases (repo.get_account a s)) [
    | inl (x, p) ↦
        elim (Result-cases (
          repo.update_health_score a (clamp (x.health_score +ℤ delta e))
            (repo.get_account a s).1)) [
              | inl (_, q) ↦
                  ground (arith, update_run a e s _ _ x p q can, law.get_account_ok a s _ x p)
              | inr (inl (f, q)) ↦ absurd (ground (arith, p, q))
              | inr (inr q) ↦ absurd (ground (arith, p, q))
            ]
    | inr (inl (f, p)) ↦ absurd (ground (arith, p))
    | inr (inr p) ↦ absurd (ground (arith, p))
  ]

  -- `IsHalfOpen` says yes only for an account whose breaker is open since a known instant, once the
  -- clock has reached the stored retry time, or five minutes after that instant where none is stored or
  -- it cannot be read.
  pub is_half_open_late :
      (a : ℕ) (s s₁ : S) (st : CircuitState)
      → repo.get_circuit_state a s ≡ (ok st, s₁)
      → (is_half_open repo env a s).0 ≡ ok true
      → (t : ℕ) × (h.broken s a ≡ some true)
        × (st.circuit_broken_at ≡ some t)
        × (earliest t (repo.get_backoff_time a s₁).0 ≤ env.now (repo.get_backoff_time a s₁).1)
  unfolding is_half_open wrap attempt read
  is_half_open_late a s s₁ st p fine = elim (Option-cases st.circuit_broken_at) [
    | inl none_at ↦ absurd (ground (arith, p))
    | inr (t, at) ↦ elim (Result-cases (repo.get_backoff_time a s₁)) [
      | inl (none, q) ↦ (t, ground (arith, p, broken), at, rw q (ground (arith, p, q)))
      | inl (some u, q) ↦ (t, ground (arith, p, broken), at, rw q (ground (arith, p, q)))
      | inr (inl (f, q)) ↦ (t, ground (arith, p, broken), at, rw q (ground (arith, p, q)))
      | inr (inr q) ↦ absurd (ground (arith, p, q))
    ]
  ]
    where
      broken : h.broken s a ≡ some st.is_circuit_broken
      broken = law.get_circuit_state_ok a s s₁ st p
