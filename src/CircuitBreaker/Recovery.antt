-- ===== src/CircuitBreaker/Recovery.antt =====
-- internal/biz/circuit_breaker.go: `RecordProbeSuccess` and the recovery.
use quota_lane.Prelude.{
  ℕ, ◌+◌, String, ◌≡◌, sym, ap, ◌∙◌, inl, inr, true, false, Option, none, some, some-injective,
  arith, Bool-cases, leb, if◌then◌else◌,
}
use quota_lane.Prelude.Int.{ℤ, pos, ◌+ℤ◌, leb_ℤ, sub_ℕ}
use quota_lane.Prelude.Effect.{
  Result, ok, err, panic, pure, wrap, wrap_result, and_then, ◌>>=◌, ◌>>◌, attempt, modify, read,
  Result-cases,
}
use quota_lane.Account.{Account}
use quota_lane.CircuitBreaker.Domain.{CircuitBreakerRepo, notify_recovered, Env}
use quota_lane.CircuitBreaker.Laws.{Health, SameRow, IsLawful}
use quota_lane.CircuitBreaker.Usecase.{
  cap, recover_time, reset_circuit_breaker_after_probe, record_probe_success,
}

unwrap_ok : (note : String) (r : Result (Unit {0})) → wrap_result note r ≡ ok tt → r ≡ ok tt
unwrap_ok note (ok u) e = e
unwrap_ok note (err f) e = cc
unwrap_ok note panic e = cc

module _ {S : Type 0} (repo : CircuitBreakerRepo S) (env : Env S) (h : Health S)
    (law : IsLawful repo env h) where
  recovered :
      (a : ℕ) (n : ℤ) (t : Option ℕ) (name : String) (s : S)
      → SameRow h s
          (and_then (recover_time repo env t s) (λ down.
            modify (env.log_circuit_recovered a down n)
            >> modify (env.spawn (notify_recovered a name n down)))).1
          a
  unfolding modify read
  recovered a n none name s = joined
    where
      t₁ : S
      t₁ = env.log_circuit_recovered a (pos 0) n s

      joined : SameRow h s (env.spawn (notify_recovered a name n (pos 0)) t₁) a
      joined = (
        (law.spawn_same _ a t₁).0 ∙ (law.log_circuit_recovered_same a a _ n s).0,
        (law.spawn_same _ a t₁).1 ∙ (law.log_circuit_recovered_same a a _ n s).1,
      )
  recovered a n (some u) name s = joined
    where
      t₁ : S
      t₁ = env.log_circuit_recovered a (sub_ℕ (env.now s) u) n s

      joined : SameRow h s (env.spawn (notify_recovered a name n (sub_ℕ (env.now s) u)) t₁) a
      joined = (
        (law.spawn_same _ a t₁).0 ∙ (law.log_circuit_recovered_same a a _ n s).0,
        (law.spawn_same _ a t₁).1 ∙ (law.log_circuit_recovered_same a a _ n s).1,
      )

  after_probe_lem :
      (a : ℕ) (n : ℤ) (s : S)
      → (reset_circuit_breaker_after_probe repo env a n s).0 ≡ ok tt
      → (h.broken (reset_circuit_breaker_after_probe repo env a n s).1 a ≡ some false)
        × (h.score (reset_circuit_breaker_after_probe repo env a n s).1 a ≡ h.score s a)
  unfolding reset_circuit_breaker_after_probe
  after_probe_lem a n s fine = elim (Result-cases (repo.get_account a s)) [
    | inl (x, p) ↦ elim (Result-cases (repo.reset_circuit_breaker a (repo.get_account a s).1)) [
      | inl (_, q) ↦
          let rec =
            recovered a n x.circuit_broken_at x.name
              (repo.reset_circuit_breaker a (repo.get_account a s).1).1 in
          rw p (
            rw q (
              rec.1 ∙ law.reset_circuit_breaker_ok a _ _ q,
              rec.0 ∙ law.reset_circuit_breaker_rest a a _ ∙ (law.get_account_same a a s).0,
            ))
      | inr (inl (f, q)) ↦ absurd (ground (arith, p, q))
      | inr (inr q) ↦ absurd (ground (arith, p, q))
    ]
    | inr (inl (f, p)) ↦ absurd (ground (arith, p))
    | inr (inr p) ↦ absurd (ground (arith, p))
  ]

  module _ (a : ℕ) (s s₁ s₂ s₃ : S) (x : Account) (k : ℕ) (p : repo.get_account a s ≡ (ok x, s₁))
      (q : repo.update_health_score a (cap (x.health_score +ℤ pos 20)) s₁ ≡ (ok tt, s₂))
      (r : repo.increment_success_count a s₂ ≡ (ok (pos k), s₃)) where
    abbrev new : ℤ
    new = cap (x.health_score +ℤ pos 20)

    abbrev s₄ : S
    s₄ = env.log_health_score_change a x.health_score new "ProbeSuccess" s₃

    run_eq :
        record_probe_success repo env a s
        ≡ (if leb_ℤ (pos 3) (pos k)
              then wrap "failed to reset circuit breaker"
                  (reset_circuit_breaker_after_probe repo env a (pos k))
              else pure tt)
            s₄
    unfolding record_probe_success wrap modify attempt
    run_eq = rw (p, q) (rw (r, ◌>>=◌))

    stored : (h.score s₄ a ≡ some new) × (h.broken s₄ a ≡ h.broken s a)
    stored = (
      (law.log_health_score_change_same a a _ new _ s₃).0
          ∙ ap (λ w. h.score w.1 a) (sym r)
          ∙ (law.increment_success_count_rest a a s₂).0
          ∙ law.update_health_score_ok a new s₁ s₂ q,
      (law.log_health_score_change_same a a _ new _ s₃).1
          ∙ ap (λ w. h.broken w.1 a) (sym r)
          ∙ (law.increment_success_count_rest a a s₂).1
          ∙ ap (λ w. h.broken w.1 a) (sym q)
          ∙ (law.update_health_score_rest a a new s₁).0
          ∙ ap (λ w. h.broken w.1 a) (sym p)
          ∙ (law.get_account_same a a s).1,
    )

    run_few :
        leb 3 k ≡ false
        → (h.score (record_probe_success repo env a s).1 a ≡ some new)
          × (h.broken (record_probe_success repo env a s).1 a ≡ h.broken s a)
    run_few t = rw run_eq (rw few stored)
      where
        few : leb_ℤ (pos 3) (pos k) ≡ false
        few = ground (arith, t)

    run_enough :
        leb 3 k ≡ true
        → (record_probe_success repo env a s).0 ≡ ok tt
        → (h.score (record_probe_success repo env a s).1 a ≡ some new)
          × (h.broken (record_probe_success repo env a s).1 a ≡ some false)
    unfolding wrap
    run_enough t fine = rw run_eq (rw enough (after.1 ∙ stored.0, after.0))
      where
        enough : leb_ℤ (pos 3) (pos k) ≡ true
        enough = ground (arith, t)

        reset : (reset_circuit_breaker_after_probe repo env a (pos k) s₄).0 ≡ ok tt
        reset = unwrap_ok _ _ (rw enough at (rw run_eq at fine))

        after :
            (h.broken (reset_circuit_breaker_after_probe repo env a (pos k) s₄).1 a ≡ some false)
            × (h.score (reset_circuit_breaker_after_probe repo env a (pos k) s₄).1 a ≡ h.score s₄ a)
        after = after_probe_lem a (pos k) s₄ reset

  -- Redis counts successful probes.
  abbrev pub CanCount : Type 0
  CanCount = (a : ℕ) (s : S) → (n : ℤ) × ((repo.increment_success_count a s).0 ≡ ok n)

  counted :
      CanCount
      → (a k : ℕ) (s s₁ s₂ : S) (n : ℤ) (x : Account) → repo.get_account a s ≡ (ok x, s₁)
      → repo.update_health_score a n s₁ ≡ (ok tt, s₂)
      → h.probes s a ≡ pos k
      → repo.increment_success_count a s₂
        ≡ (ok (pos (k + 1)), (repo.increment_success_count a s₂).1)
  counted can a k s s₁ s₂ n x p q e = (λ i. ((can a s₂).1 i, s₃)) ∙ (λ i. (ok (value i), s₃))
    where
      s₃ : S
      s₃ = (repo.increment_success_count a s₂).1

      before : h.probes s₂ a ≡ pos k
      before =
          ap (λ w. h.probes w.1 a) (sym q)
          ∙ (law.update_health_score_rest a a n s₁).1
          ∙ ap (λ w. h.probes w.1 a) (sym p)
          ∙ (law.get_account_same a a s).2
          ∙ e

      value : (can a s₂).0 ≡ pos (k + 1)
      value =
          (law.increment_success_count_ok a s₂ s₃ _ (λ i. ((can a s₂).1 i, s₃))).0
          ∙ rw before (unfold ◌+ℤ◌ in ground arith)

  -- Where Redis counts successful probes, a successful probe of an account with score `n` and `k` probes
  -- counted stores `n` + 20, capped at 100, and closes the breaker exactly if `k` is at least 2, at
  -- whatever score.
  pub record_probe_success_closes :
      CanCount
      → (a k : ℕ) (s : S) (n : ℤ) → h.score s a ≡ some n
      → h.probes s a ≡ pos k
      → (record_probe_success repo env a s).0 ≡ ok tt
      → (h.score (record_probe_success repo env a s).1 a ≡ some (cap (n +ℤ pos 20)))
        × (h.broken (record_probe_success repo env a s).1 a
            ≡ (if leb 2 k then some false else h.broken s a))
  unfolding record_probe_success wrap attempt modify
  record_probe_success_closes can a k s n hn hk fine = elim (Result-cases (repo.get_account a s)) [
    | inl (x, p) ↦
        elim (Result-cases
          (repo.update_health_score a (cap (x.health_score +ℤ pos 20)) (repo.get_account a s).1)) [
            | inl (_, q) ↦
                let same : x.health_score ≡ n =
                  some-injective _ _ (sym (law.get_account_ok a s _ x p).0 ∙ hn) in
                let r = counted can a k s _ _ _ x p q hk in
                elim (Bool-cases (leb 2 k)) [
                  | inl t ↦
                      rw (t, ← same) (run_enough a s _ _ _ x (k + 1) p q r (ground (arith, t)) fine)
                  | inr t ↦ rw (t, ← same) (run_few a s _ _ _ x (k + 1) p q r (ground (arith, t)))
                ]
            | inr (inl (f, q)) ↦ absurd (ground (arith, p, q))
            | inr (inr q) ↦ absurd (ground (arith, p, q))
          ]
    | inr (inl (f, p)) ↦ absurd (ground (arith, p))
    | inr (inr p) ↦ absurd (ground (arith, p))
  ]
