-- ===== src/RateLimit/Slots/Alone.antt =====
-- How the steps of RateLimit.Slots and the function `acquire_concurrency_slot` correspond.
use quota_lane.Prelude.{ℕ, String, ◌≡◌, ◌≢◌, refl, sym, ◌⊎◌, inl, inr, arith, eq_iff, Bool-cases}
use quota_lane.Prelude.Int.{ℤ, ltb_ℤ}
use quota_lane.Prelude.Effect.{Error, Result, ok, err, panic, Result-cases}
use quota_lane.RateLimit.Repo.{RateLimitRepo}
use quota_lane.RateLimit.Usecase.{max_concurrency, acquire_concurrency_slot}
use quota_lane.RateLimit.Slots.{
  Phase, idle, added, granted, refusing, uncounted, unlimited, System, set_phase, Step, add,
  add_fails, grant, exceed, count_fails, refuse, give_up, Reach, here, next,
}

-- The phase that the result of the call stands for.
abbrev pub IsOutcome : Phase → Result (Unit {0}) → Type 0
IsOutcome p (ok _) = (p ≡ granted) ⊎ (p ≡ unlimited)
IsOutcome p (err _) = p ≡ idle
IsOutcome p panic = ⊥

module _ {S : Type 0} (repo : RateLimitRepo S) (a : ℕ) where
  abbrev pub IsRun : System S → String → Result (Unit {0}) × S → System S → Type 0
  IsRun x m w y =
      Reach repo a x y
      × (y.world ≡ w.1)
      × IsOutcome (y.phase m) w.0
      × ((j : String) → j ≢ m → y.phase j ≡ x.phase j)

  module _ (now : ℤ) (m : String) (x : System S) (free : x.phase m ≡ idle) where
    abbrev calls : Result (Unit {0}) × S
    calls = acquire_concurrency_slot repo now a m x.world

    -- `m` is in the set, and the reply to the count is `r`; it removes itself from phase `p`.
    removed :
        (p : Phase) (e : Phase) (s t : S)
        → Reach repo a x (record { world = t; phase = set_phase (set_phase x.phase m added) m p })
        → ((r : Result (Unit {0})) (u : S)
            → repo.remove_concurrency_request a m t ≡ (r, u)
            → (r ≢ panic)
            → (calls.1 ≡ u) × IsOutcome e calls.0)
        → ((r : Result (Unit {0})) (u : S)
            → repo.remove_concurrency_request a m t ≡ (r, u)
            → Step repo a
                (record { world = t; phase = set_phase (set_phase x.phase m added) m p })
                (record {
                  world = u;
                  phase = set_phase (set_phase (set_phase x.phase m added) m p) m e;
                }))
        → (repo.remove_concurrency_request a m t).0 ≢ panic
        → (y : System S) × IsRun x m calls y
    removed p e s t r ends step fine = (
      record { world = u; phase = set_phase (set_phase (set_phase x.phase m added) m p) m e },
      (
        next r (step _ u refl),
        sym (ends _ u refl fine).0,
        ground (arith, eq_iff m m, (ends _ u refl fine).1),
        λ j h. ground (arith, eq_iff m j),
      ),
    )
      where
        u : S
        u = (repo.remove_concurrency_request a m t).1

    IsRun-counted :
        (s t : S) (n : ℤ)
        → repo.add_concurrency_request a m now x.world ≡ (ok tt, s)
        → repo.get_concurrency_count a s ≡ (ok n, t)
        → calls.0 ≢ panic
        → (y : System S) × IsRun x m calls y
    unfolding acquire_concurrency_slot
    IsRun-counted s t n p q fine = elim (Bool-cases (ltb_ℤ max_concurrency n)) [
      | inl over ↦
          removed refusing idle s t
            (next (next here (add m now free p))
              (exceed m n (ground (arith, eq_iff m m)) q (ground arith)))
            (λ r u e f. ground (arith, p, q, e))
            (λ r u e. refuse m r (ground (arith, eq_iff m m)) e)
            (λ e. fine (ground (arith, p, q, e)))
      | inr within ↦ (
        record { world = t; phase = set_phase (set_phase x.phase m added) m granted },
        (
          next (next here (add m now free p))
              (grant m n (ground (arith, eq_iff m m)) q (ground arith)),
          ground (arith, p, q),
          ground (arith, p, q, eq_iff m m),
          λ j h. ground (arith, eq_iff m j),
        ),
      )
    ]

    IsRun-uncounted :
        (s t : S) (f : Error)
        → repo.add_concurrency_request a m now x.world ≡ (ok tt, s)
        → repo.get_concurrency_count a s ≡ (err f, t)
        → calls.0 ≢ panic
        → (y : System S) × IsRun x m calls y
    unfolding acquire_concurrency_slot
    IsRun-uncounted s t f p q fine =
        removed uncounted unlimited s t
          (next (next here (add m now free p)) (count_fails m f (ground (arith, eq_iff m m)) q))
          (λ r u e g. ground (arith, p, q, e)) (λ r u e. give_up m r (ground (arith, eq_iff m m)) e)
          (λ e. fine (ground (arith, p, q, e)))

    -- A call that does not panic is a run of the steps above, from `idle`: it ends in the state that the
    -- call returns, `granted` or `unlimited` if it returned no error and `idle` if it did, and leaves
    -- the other requests where they were.
    pub acquire_concurrency_slot-Reach : calls.0 ≢ panic → (y : System S) × IsRun x m calls y
    unfolding acquire_concurrency_slot
    acquire_concurrency_slot-Reach fine =
        elim (Result-cases (repo.add_concurrency_request a m now x.world)) [
          | inl (_, p) ↦
              elim (Result-cases
                (repo.get_concurrency_count a (repo.add_concurrency_request a m now x.world).1)) [
                  | inl (n, q) ↦ IsRun-counted _ _ n p q fine
                  | inr (inl (f, q)) ↦ IsRun-uncounted _ _ f p q fine
                  | inr (inr q) ↦ absurd (fine (ground (arith, p, q)))
                ]
          | inr (inl (f, p)) ↦ (
            record { world = _; phase = set_phase x.phase m unlimited },
            (
              next here (add_fails m now f free p),
              ground (arith, p),
              ground (arith, p, eq_iff m m),
              λ j h. ground (arith, eq_iff m j),
            ),
          )
          | inr (inr p) ↦ absurd (fine (ground (arith, p)))
        ]
