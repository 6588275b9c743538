-- ===== src/RateLimit/Slots/Bound.antt =====
-- The requests of RateLimit.Slots that hold a slot.
use quota_lane.Prelude.{
  ℕ, ◌≤◌, String, ◌≡◌, ◌≢◌, refl, sym, ap, ◌∙◌, Bool, none, some, List, [], ◌∷◌, arith, eq_iff, All,
  All-map, Distinct, true, false, length,
}
use quota_lane.Prelude.Int.{ℤ, pos, ◌≤ℤ◌}
use quota_lane.Prelude.Effect.{Result, ok}
use quota_lane.RateLimit.Repo.{RateLimitRepo, Counters, IsLawful}
use native.Mathlib.Nat.{le_trans}
use quota_lane.RateLimit.Usecase.{max_concurrency}
use quota_lane.RateLimit.Rpm.{to_int32_pos}
use quota_lane.RateLimit.Slots.{
  Phase, idle, added, granted, refusing, uncounted, unlimited, System, set_phase, Step, add,
  add_fails, grant, exceed, count_fails, refuse, give_up, release, release_unlimited, Reach, here,
  next,
}

abbrev is_tracked : Phase → Bool
is_tracked added = true
is_tracked granted = true
is_tracked _ = false

module _ {S : Type 0} (repo : RateLimitRepo S) (c : Counters S) (law : IsLawful repo c)
    (a : ℕ) where
  record Inv (x : System S) : Type 0 where
    tracked : (m : String) → is_tracked (x.phase m) ≡ true → c.slot x.world a m ≢ none
    bounded : (ms : List String) → Distinct ms → All (λ m. x.phase m ≡ granted) ms → length ms ≤ 10

  -- A request that stops being tracked, or never was.
  leave :
      (x : System S) (m : String) (p : Phase) (s : S)
      → is_tracked p ≡ false
      → ((j : String) → j ≢ m → c.slot s a j ≡ c.slot x.world a j)
      → Inv x
      → Inv (record { world = s; phase = set_phase x.phase m p })
  leave x m p s out same inv = record {
    tracked = λ j t. ground (arith, eq_iff m j, inv.tracked j, same j);
    bounded = λ ms d g. inv.bounded ms d (All-map (λ j h. ground (arith, eq_iff m j)) ms g);
  }

  -- A count below the limit.
  enter :
      (x : System S) (m : String) (s : S)
      → x.phase m ≡ added
      → c.slot s a ≡ c.slot x.world a
      → c.active s a ≤ 10
      → Inv x
      → Inv (record { world = s; phase = set_phase x.phase m granted })
  enter x m s e same few inv = record {
    tracked = keeps;
    bounded = λ ms d g.
        le_trans (law.distinct-le-active a s ms d (All-map (λ j h. keeps j (rw h)) ms g)) few;
  }
    where
      keeps : (j : String) → is_tracked (set_phase x.phase m granted j) ≡ true → c.slot s a j ≢ none
      keeps j t = rw same (ground (arith, eq_iff m j, inv.tracked j))

  -- A request that has put itself into the set, and has not counted yet.
  put :
      (x : System S) (m : String) (t : ℤ) (s : S)
      → c.slot s a m ≡ some t
      → ((j : String) → j ≢ m → c.slot s a j ≡ c.slot x.world a j)
      → Inv x
      → Inv (record { world = s; phase = set_phase x.phase m added })
  put x m t s e same inv = record {
    tracked = λ j h. ground (arith, eq_iff m j, inv.tracked j, same j);
    bounded = λ ms d g. inv.bounded ms d (All-map (λ j h. ground (arith, eq_iff m j)) ms g);
  }

  -- What the three commands leave alone, by the state that they come back with.
  add_frame :
      (m j : String) (now : ℤ) (s s' : S) (r : Result (Unit {0}))
      → repo.add_concurrency_request a m now s ≡ (r, s')
      → j ≢ m
      → c.slot s' a j ≡ c.slot s a j
  add_frame m j now s s' r q h = ap (λ w. c.slot w.1 a j) (sym q) ∙ law.add_others a m j now s h

  remove_frame :
      (m j : String) (s s' : S) (r : Result (Unit {0}))
      → repo.remove_concurrency_request a m s ≡ (r, s')
      → j ≢ m
      → c.slot s' a j ≡ c.slot s a j
  remove_frame m j s s' r q h = ap (λ w. c.slot w.1 a j) (sym q) ∙ law.remove_others a m j s h

  count_frame :
      (s s' : S) (r : Result ℤ)
      → repo.get_concurrency_count a s ≡ (r, s')
      → c.slot s' a ≡ c.slot s a
  count_frame s s' r q = ap (λ w. c.slot w.1 a) (sym q) ∙ (law.count_same a s).0

  count_le :
      (s s' : S) (n : ℤ)
      → repo.get_concurrency_count a s ≡ (ok n, s')
      → n ≤ℤ max_concurrency
      → c.active s' a ≤ 10
  count_le s s' n q le =
      rw (ap (λ w. c.active w.1 a) (sym q) ∙ (law.count_same a s).1)
        (ground (arith, law.count_ok a s s' n q ∙ to_int32_pos (c.active s a)))

  Step-Inv : {x y : System S} → Step repo a x y → Inv x → Inv y
  Step-Inv {x} (add m now {s} e q) inv =
      put x m now s (law.add_ok a m now _ s q).0 (λ j. add_frame m j now x.world s _ q) inv
  Step-Inv {x} (add_fails m now f {s} e q) inv =
      leave x m unlimited s refl (λ j. add_frame m j now x.world s _ q) inv
  Step-Inv {x} (grant m n {s} e q le) inv =
      enter x m s e (count_frame x.world s _ q) (count_le x.world s n q le) inv
  Step-Inv {x} (exceed m n {s} e q lt) inv =
      leave x m refusing s refl (λ j _. ap (λ f. f j) (count_frame x.world s _ q)) inv
  Step-Inv {x} (count_fails m f {s} e q) inv =
      leave x m uncounted s refl (λ j _. ap (λ f. f j) (count_frame x.world s _ q)) inv
  Step-Inv {x} (refuse m r {s} e q) inv =
      leave x m idle s refl (λ j. remove_frame m j x.world s r q) inv
  Step-Inv {x} (give_up m r {s} e q) inv =
      leave x m unlimited s refl (λ j. remove_frame m j x.world s r q) inv
  Step-Inv {x} (release m r {s} e q) inv =
      leave x m idle s refl (λ j. remove_frame m j x.world s r q) inv
  Step-Inv {x} (release_unlimited m r {s} e q) inv =
      leave x m idle s refl (λ j. remove_frame m j x.world s r q) inv

  Reach-Inv : {x y : System S} → Reach repo a x y → Inv x → Inv y
  Reach-Inv here inv = inv
  Reach-Inv (next r st) inv = Step-Inv st (Reach-Inv r inv)

  -- From any state in which no request is in flight, under every interleaving of acquisitions and
  -- releases and with every command free to fail, at most 10 requests at once hold a slot.
  pub granted-le-max_concurrency :
      {y : System S} (s : S)
      → Reach repo a (record { world = s; phase = λ _. idle }) y
      → (ms : List String) → Distinct ms
      → All (λ m. y.phase m ≡ granted) ms
      → pos (length ms) ≤ℤ max_concurrency
  granted-le-max_concurrency s r ms d g =
      omega (
        arith,
        (Reach-Inv r (record { tracked = λ m t. cc; bounded = none_granted })).bounded ms d g,
      )
    where
      none_granted :
          (ms : List String) → Distinct ms → All (λ m. idle ≡ granted) ms → length ms ≤ 10
      none_granted [] d g = omega arith
      none_granted (m ∷ ms) d g = cc
