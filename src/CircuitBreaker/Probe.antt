-- ===== src/CircuitBreaker/Probe.antt =====
-- internal/biz/circuit_breaker.go: `IsHalfOpen` and `RecordProbeFailure`.
use quota_lane.Prelude.{
  ℕ, ◌+◌, ◌≤◌, ◌↔◌, ◌≡◌, ◌≢◌, refl, sym, ap, ◌∙◌, inl, inr, Bool, true, false, Option, none, some,
  arith, Option-cases, Bool-cases, not, subst,
}
use quota_lane.Prelude.Int.{pos, sub_ℕ, ltb_ℤ}
use quota_lane.Prelude.Effect.{Result, ok, err, panic, wrap, attempt, ignore, read, Result-cases}
use quota_lane.Prelude.Hoare.{Always, Ensures-run, Ensures-keep}
use quota_lane.CircuitBreaker.Failure.{Ensures-record_probe_failure}
use quota_lane.Redis.{minute}
use quota_lane.CircuitBreaker.Domain.{CircuitState, CircuitBreakerRepo, Env}
use quota_lane.CircuitBreaker.Laws.{Health, Same, IsLawful, is_live}
use quota_lane.CircuitBreaker.Usecase.{is_half_open, record_probe_failure}

module _ {S : Type 0} (repo : CircuitBreakerRepo S) (env : Env S) (h : Health S)
    (law : IsLawful repo env h) where
  -- Redis answers `SETNX`.
  abbrev pub CanMark : Type 0
  CanMark = (a ttl : ℕ) (s : S) → (won : Bool) × ((repo.set_half_open a ttl s).0 ≡ ok won)

  -- The clock does not go back during a call.
  abbrev pub IsForward : Type 0
  IsForward =
      ((a : ℕ) (s : S) → env.now s ≤ env.now (repo.get_circuit_state a s).1)
      × ((a : ℕ) (s : S) → env.now s ≤ env.now (repo.get_backoff_time a s).1)
      × ((a ttl : ℕ) (s : S) → env.now s ≤ env.now (repo.set_half_open a ttl s).1)

  -- A call that says yes sets the marker for a minute at some moment of the call, when none was there.
  abbrev IsMarking : ℕ → S → Type 0
  IsMarking a s =
      (t : ℕ) × (env.now s ≤ t)
      × (t ≤ env.now (is_half_open repo env a s).1)
      × (is_live (h.marked s a) t ≡ false)
      × (h.marked (is_half_open repo env a s).1 a ≡ some (t + 60000000000))

  marks_run :
      CanMark
      → IsForward
      → (a t : ℕ) (s s₁ s₂ : S) (st : CircuitState) (r : Result (Option ℕ))
      → repo.get_circuit_state a s ≡ (ok st, s₁)
      → st.circuit_broken_at ≡ some t
      → repo.get_backoff_time a s₁ ≡ (r, s₂)
      → r ≢ panic
      → (is_half_open repo env a s).0 ≡ ok true
      → IsMarking a s
  unfolding is_half_open wrap attempt read
  marks_run can forward a t s s₁ s₂ st r p at q calm fine = (
    env.now s₂,
    start,
    ground (arith, p, at, q, won, set, stop),
    ground (arith, p, at, q, won, set, clear),
    ground (arith, p, at, q, won, set),
  )
    where
      won :
          repo.set_half_open a minute s₂
          ≡ (ok (can a minute s₂).0, (repo.set_half_open a minute s₂).1)
      won = λ i. ((can a minute s₂).1 i, (repo.set_half_open a minute s₂).1)

      set :
          ((can a minute s₂).0 ≡ not (is_live (h.marked s₂ a) (env.now s₂)))
          × ((can a minute s₂).0 ≡ true
              → h.marked (repo.set_half_open a minute s₂).1 a ≡ some (env.now s₂ + 60000000000))
      set = law.set_half_open_ok a minute s₂ (repo.set_half_open a minute s₂).1 _ won

      start : env.now s ≤ env.now s₂
      start = omega (
        arith,
        subst (λ (w : Result CircuitState × S). env.now s ≤ env.now w.1) p (forward.0 a s),
        subst (λ (w : Result (Option ℕ) × S). env.now s₁ ≤ env.now w.1) q (forward.1 a s₁),
      )

      stop : env.now s₂ ≤ env.now (repo.set_half_open a minute s₂).1
      stop = forward.2 a minute s₂

      clear : h.marked s₂ a ≡ h.marked s a
      clear =
          ap (λ w. h.marked w.1 a) (sym q)
          ∙ (law.get_backoff_time_same a a s₁).3
          ∙ ap (λ w. h.marked w.1 a) (sym p)
          ∙ (law.get_circuit_state_same a a s).3

  marks :
      CanMark
      → IsForward
      → (a : ℕ) (s : S) → (is_half_open repo env a s).0 ≡ ok true
      → IsMarking a s
  unfolding is_half_open wrap attempt read
  marks can forward a s fine = elim (Result-cases (repo.get_circuit_state a s)) [
    | inl (st, p) ↦ elim (Option-cases st.circuit_broken_at) [
      | inl e ↦ absurd (ground (arith, p))
      | inr (t, at) ↦ elim (Result-cases (repo.get_backoff_time a (repo.get_circuit_state a s).1)) [
        | inl (u, q) ↦ marks_run can forward a t s _ _ st (ok u) p at q (λ e. cc) fine
        | inr (inl (f, q)) ↦ marks_run can forward a t s _ _ st (err f) p at q (λ e. cc) fine
        | inr (inr q) ↦ absurd (ground (arith, p, q))
      ]
    ]
    | inr (inl (f, p)) ↦ absurd (ground (arith, p))
    | inr (inr p) ↦ absurd (ground (arith, p))
  ]

  -- Where Redis answers `SETNX` and the clock does not go back during a call: if a call of `IsHalfOpen`
  -- says yes, and a later one for the same account, which finds the marker as the first call left it,
  -- says yes too, then the clock is after the second at least a minute past where it was before the
  -- first.
  pub is_half_open_apart :
      CanMark
      → IsForward
      → (a : ℕ) (s t : S) → (is_half_open repo env a s).0 ≡ ok true
      → h.marked t a ≡ h.marked (is_half_open repo env a s).1 a
      → (is_half_open repo env a t).0 ≡ ok true
      → env.now s + 60000000000 ≤ env.now (is_half_open repo env a t).1
  is_half_open_apart can forward a s t first kept second =
      let (m, above, _, _, set) = marks can forward a s first in
      let (n, _, below, free, _) = marks can forward a t second in
      ground (arith, above, below, kept, set, free)

  -- A failed probe changes no score, no breaker, no marker and no count of successful probes, whatever
  -- its calls come back with.
  pub record_probe_failure-Same :
      (a b : ℕ) (s : S) → Same h s (record_probe_failure repo env a s).1 b
  record_probe_failure-Same a b s =
      Ensures-run P Always _
        (Ensures-record_probe_failure repo env P a
          (Ensures-keep P _ (λ t f. chain f (law.get_circuit_state_same a b t)))
          (Ensures-keep P _ (λ t f. chain f (law.get_backoff_time_same a b t)))
          (λ u.
            Ensures-keep P (repo.set_backoff_time a u)
              (λ t f. chain f (law.set_backoff_time_same a b u t))))
        s (refl, refl, refl, refl)
    where
      P : S → Type 0
      P t = Same h s t b

      chain : {y z : S} → Same h s y b → Same h y z b → Same h s z b
      chain u v = (v.0 ∙ u.0, v.1 ∙ u.1, v.2 ∙ u.2, v.3 ∙ u.3)

  -- Where no call of the repository panics, a failed probe panics exactly if the state of the account is
  -- read and has no time of the break, and a retry time is read.
  pub record_probe_failure_panics_iff :
      (a : ℕ) (s : S)
      → (repo.get_circuit_state a s).0 ≢ panic
      → (repo.get_backoff_time a (repo.get_circuit_state a s).1).0 ≢ panic
      → ((u : ℕ) (w : S) → (repo.set_backoff_time a u w).0 ≢ panic)
      → ((record_probe_failure repo env a s).0 ≡ panic) ↔ (
          (st : CircuitState) × (u : ℕ) × ((repo.get_circuit_state a s).0 ≡ ok st)
          × (st.circuit_broken_at ≡ none)
          × ((repo.get_backoff_time a (repo.get_circuit_state a s).1).0 ≡ ok (some u)))
  unfolding record_probe_failure wrap attempt ignore read
  record_probe_failure_panics_iff a s p q r = elim (Result-cases (repo.get_circuit_state a s)) [
    | inl (st, e) ↦ elim (Option-cases st.circuit_broken_at) [
      | inl at ↦ elim (Result-cases (repo.get_backoff_time a (repo.get_circuit_state a s).1)) [
        | inl (some u, f) ↦ (
          λ x. (
            st,
            u,
            ap (λ (w : Result CircuitState × S). w.0) e,
            at,
            ap (λ (w : Result (Option ℕ) × S). w.0) f,
          ),
          λ y. ground (arith, e, f, at),
        )
        | inl (none, f) ↦
            (λ x. absurd (set_fine _ _ (rw (e, f) at x)), λ y. absurd (ground (arith, e, f, y)))
        | inr (inl (g, f)) ↦
            (λ x. absurd (set_fine _ _ (rw (e, f) at x)), λ y. absurd (ground (arith, e, f, y)))
        | inr (inr f) ↦ absurd (ground (arith, f))
      ]
      | inr (t, at) ↦ (λ x. absurd (later st t e at x), λ y. absurd (ground (arith, e, at, y)))
    ]
    | inr (inl (g, e)) ↦ (λ x. absurd (ground (arith, e, x)), λ y. absurd (ground (arith, e, y)))
    | inr (inr e) ↦ absurd (ground (arith, e))
  ]
    where
      set_fine : (u : ℕ) (w : S) → (ignore (repo.set_backoff_time a u) w).0 ≢ panic
      set_fine u w = elim (Result-cases (repo.set_backoff_time a u w)) [
        | inl (_, e) ↦ λ x. absurd (ground (arith, e, x))
        | inr (inl (g, e)) ↦ λ x. absurd (ground (arith, e, x))
        | inr (inr e) ↦ absurd (ground (arith, r u w, e))
      ]

      later :
          (st : CircuitState) (t : ℕ)
          → repo.get_circuit_state a s ≡ (ok st, (repo.get_circuit_state a s).1)
          → st.circuit_broken_at ≡ some t
          → (record_probe_failure repo env a s).0 ≢ panic
      later st t e at =
          elim (Result-cases (repo.get_backoff_time a (repo.get_circuit_state a s).1)) [
            | inl (some u, f) ↦
                elim (Bool-cases (
                  ltb_ℤ
                    (sub_ℕ (env.now (repo.get_backoff_time a (repo.get_circuit_state a s).1).1) t)
                    (pos 900000000000))) [
                      | inl c ↦ λ x. set_fine _ _ (rw c at (rw at at (rw (e, f) at x)))
                      | inr c ↦ λ x. set_fine _ _ (rw c at (rw at at (rw (e, f) at x)))
                    ]
            | inl (none, f) ↦ λ x. set_fine _ _ (rw (e, f) at x)
            | inr (inl (g, f)) ↦ λ x. set_fine _ _ (rw (e, f) at x)
            | inr (inr f) ↦ absurd (ground (arith, f))
          ]
