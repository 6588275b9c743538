-- ===== src/RateLimit/Tpm.antt =====
-- internal/biz/rate_limiter.go: `CheckTPM` and `UpdateTPM`.
use quota_lane.Prelude.{
  ℕ, ◌+◌, ◌-◌, ◌≤◌, ◌<◌, ◌≡◌, arith, ◌∙◌, leb, if◌then◌else◌, ap, List, [], ◌∷◌, All, Bool-cases,
  inl, inr, subst,
}
use quota_lane.Prelude.Int.{
  sub-IsInt32, ℤ, pos, negsuc, ◌+ℤ◌, ◌-ℤ◌, int32, int32_of_IsInt32, int_laws, pos_part, neg_part,
  eq_of_parts,
}
use quota_lane.Prelude.Effect.{ok, err}
use quota_lane.RateLimit.Repo.{RateLimitRepo, Counters, IsLawful, IsAvailable}
use quota_lane.RateLimit.Usecase.{check_tpm, update_tpm, new_rate_limit_exceeded_error}

module _ {S : Type 0} (repo : RateLimitRepo S) where
  -- What the admitted ones among requests with these estimates add up to, and the state after them.
  unfoldable pub spent : ℕ → ℕ → List ℕ → S → ℕ × S
  spent a l [] s = (0, s)
  spent a l (e ∷ es) s =
      let (r, s') = check_tpm repo a (pos l) (pos e) s in
      let (n, t) = spent a l es s' in (elim r [ ok _ ↦ e + n | _ ↦ n ], t)

module _ {S : Type 0} (repo : RateLimitRepo S) (c : Counters S) (law : IsLawful repo c) where
  module _ {Up : S → Type 0} {a : ℕ} (up : IsAvailable repo c a Up) where
    -- What the two commands do where they are available.
    got :
        (s : S) (x : ℕ)
        → Up s
        → c.tpm s a ≡ pos x
        → x ≤ 2147483647
        → repo.get_tpm_count a s ≡ (ok (pos x), (repo.get_tpm_count a s).1)
    got s x u h fits =
        let (n, e, _) = up.get_tpm_count_up s x u h fits in
        (λ i. (
          (e ∙ ap ok (law.get_tpm_count_ok a s _ n (λ j. (e j, (repo.get_tpm_count a s).1)) ∙ h)) i,
          (repo.get_tpm_count a s).1,
        ))

    got-Up :
        (s : S) (x : ℕ) → Up s → c.tpm s a ≡ pos x → x ≤ 2147483647 → Up (repo.get_tpm_count a s).1
    got-Up s x u h fits = (up.get_tpm_count_up s x u h fits).2

    added : (d : ℤ) (s : S) → Up s → c.tpm (repo.increment_tpm a d s).1 a ≡ c.tpm s a +ℤ d
    added d s u =
        let (n, e, _) = up.increment_tpm_up d s u in
        (law.increment_tpm_ok a d s _ n (λ j. (e j, (repo.increment_tpm a d s).1))).0

    -- Where counter and estimate add up in int32, the request is admitted exactly if the sum is within
    -- the limit, and the counter grows by the estimate exactly then.
    check_tpm_step :
        (l e x : ℕ) (s : S)
        → Up s
        → 0 < l
        → 0 < e
        → c.tpm s a ≡ pos x
        → x + e ≤ 2147483647
        → let run = check_tpm repo a (pos l) (pos e) s in
          (c.tpm run.1 a ≡ pos (if leb (x + e) l then x + e else x))
          × (run.0 ≡ (
              if leb (x + e) l
              then ok tt
              else err (new_rate_limit_exceeded_error "TPM" (pos x) (pos l) (pos 60))))
    unfolding check_tpm
    check_tpm_step l e x s u hl he h fits =
        ground (arith, read, still, int32_of_IsInt32 (pos (x + e)), reply.1, grown, sum)
      where
        after : S
        after = (repo.get_tpm_count a s).1

        read : repo.get_tpm_count a s ≡ (ok (pos x), after)
        read = got s x u h (omega arith)

        ready : Up after
        ready = got-Up s x u h (omega arith)

        reply :
            (n : ℤ) × ((repo.increment_tpm a (pos e) after).0 ≡ ok n)
            × Up (repo.increment_tpm a (pos e) after).1
        reply = up.increment_tpm_up (pos e) after ready

        still : c.tpm after a ≡ pos x
        still = law.get_tpm_count_same a a s ∙ h

        sum : pos x +ℤ pos e ≡ pos (x + e)
        sum = unfold ◌+ℤ◌ in ground arith

        grown : c.tpm (repo.increment_tpm a (pos e) after).1 a ≡ pos (x + e)
        grown = added (pos e) after ready ∙ rw still sum

    check_tpm-Up :
        (l e x : ℕ) (s : S)
        → Up s
        → 0 < l
        → 0 < e
        → c.tpm s a ≡ pos x
        → x + e ≤ 2147483647
        → Up (check_tpm repo a (pos l) (pos e) s).1
    unfolding check_tpm
    check_tpm-Up l e x s u hl he h fits = elim (Bool-cases (leb (x + e) l)) [
      | inl within ↦
          subst Up (ground (arith, read, int32_of_IsInt32 (pos (x + e)), sum, reply.1)) reply.2
      | inr over ↦ subst Up (ground (arith, read, int32_of_IsInt32 (pos (x + e)), sum)) ready
    ]
      where
        after : S
        after = (repo.get_tpm_count a s).1

        read : repo.get_tpm_count a s ≡ (ok (pos x), after)
        read = got s x u h (omega arith)

        ready : Up after
        ready = got-Up s x u h (omega arith)

        reply :
            (n : ℤ) × ((repo.increment_tpm a (pos e) after).0 ≡ ok n)
            × Up (repo.increment_tpm a (pos e) after).1
        reply = up.increment_tpm_up (pos e) after ready

        sum : pos x +ℤ pos e ≡ pos (x + e)
        sum = unfold ◌+ℤ◌ in ground arith

    -- While Redis is available: where counter and estimate do not add up in int32, the request is
    -- admitted whatever the limit is, and the counter ends at their sum, above every int32.
    pub check_tpm_overflow :
        (l e x : ℕ) (s : S)
        → Up s
        → 0 < l
        → e ≤ 2147483647
        → x ≤ 2147483647
        → c.tpm s a ≡ pos x
        → 2147483647 < x + e
        → let run = check_tpm repo a (pos l) (pos e) s in
          (run.0 ≡ ok tt) × (c.tpm run.1 a ≡ pos (x + e))
    unfolding check_tpm
    check_tpm_overflow l e x s u hl he hx h over =
        ground (arith, read, still, wraps, reply.1, grown, sum)
      where
        after : S
        after = (repo.get_tpm_count a s).1

        read : repo.get_tpm_count a s ≡ (ok (pos x), after)
        read = got s x u h (omega arith)

        ready : Up after
        ready = got-Up s x u h (omega arith)

        reply :
            (n : ℤ) × ((repo.increment_tpm a (pos e) after).0 ≡ ok n)
            × Up (repo.increment_tpm a (pos e) after).1
        reply = up.increment_tpm_up (pos e) after ready

        still : c.tpm after a ≡ pos x
        still = law.get_tpm_count_same a a s ∙ h

        sum : pos x +ℤ pos e ≡ pos (x + e)
        sum = unfold ◌+ℤ◌ in ground arith

        wraps : int32 (pos (x + e)) ≡ negsuc (4294967295 - (x + e))
        wraps = unfold int32 in ground arith

        grown : c.tpm (repo.increment_tpm a (pos e) after).1 a ≡ pos (x + e)
        grown = added (pos e) after ready ∙ rw still sum

    update_tpm_step :
        (t e x : ℕ) (s : S)
        → Up s
        → 0 < t
        → t ≤ 2147483647
        → e ≤ 2147483647
        → c.tpm s a ≡ pos (x + e)
        → let run = update_tpm repo a (pos t) (pos e) s in
          (run.0 ≡ ok tt) × (c.tpm run.1 a ≡ pos (x + t))
    unfolding update_tpm
    update_tpm_step t e x s u ht bt be h =
        ground (arith, small, settled, (up.increment_tpm_up (pos t -ℤ pos e) s u).1, same)
      where
        small : int32 (pos t -ℤ pos e) ≡ pos t -ℤ pos e
        small = int32_of_IsInt32 _ (sub-IsInt32 t e bt be)

        settled : c.tpm (repo.increment_tpm a (pos t -ℤ pos e) s).1 a ≡ pos (x + t)
        settled = added _ s u ∙ rw h (eq_of_parts _ _ (omega int_laws))

        same : pos_part (pos t -ℤ pos e) + e ≡ neg_part (pos t -ℤ pos e) + t
        same = omega int_laws

    -- While Redis is available: requests whose estimates are positive and add up in int32 with the
    -- limit never overdraw it: what was counted before, with the estimates of the admitted requests,
    -- stays within the limit, and the counter stands at that sum.
    pub spent-le-limit :
        (l : ℕ)
        → 0 < l
        → (es : List ℕ) → All (λ e. (0 < e) × (l + e ≤ 2147483647)) es
        → (x : ℕ) (s : S) → Up s
        → x ≤ l
        → c.tpm s a ≡ pos x
        → (x + (spent repo a l es s).0 ≤ l)
          × (c.tpm (spent repo a l es s).1 a ≡ pos (x + (spent repo a l es s).0))
    unfolding spent
    spent-le-limit l hl [] _ x s u hx h = ground arith
    spent-le-limit l hl (e ∷ es) (he, more) x s u hx h = elim (Bool-cases (leb (x + e) l)) [
      | inl fits ↦ ground (
        arith,
        check_tpm_step l e x s u hl he.0 h (omega arith),
        spent-le-limit l hl es more (x + e) (check_tpm repo a (pos l) (pos e) s).1
            (check_tpm-Up l e x s u hl he.0 h (omega arith)),
      )
      | inr over ↦ ground (
        arith,
        check_tpm_step l e x s u hl he.0 h (omega arith),
        spent-le-limit l hl es more x (check_tpm repo a (pos l) (pos e) s).1
            (check_tpm-Up l e x s u hl he.0 h (omega arith)),
      )
    ]

    -- While Redis is available: where the estimate is positive, the actual usage is a positive int32,
    -- and the counter with the estimate is within the limit, which is an int32, the request that is
    -- admitted with the estimate and settled with its actual usage leaves the counter grown by the
    -- actual usage.
    pub update_tpm-check_tpm :
        (l e t x : ℕ) (s : S)
        → Up s
        → 0 < e
        → 0 < t
        → t ≤ 2147483647
        → l ≤ 2147483647
        → c.tpm s a ≡ pos x
        → x + e ≤ l
        → c.tpm (update_tpm repo a (pos t) (pos e) (check_tpm repo a (pos l) (pos e) s).1).1 a
          ≡ pos (x + t)
    update_tpm-check_tpm l e t x s u he ht bt bl h fits =
        (update_tpm_step t e x _ (check_tpm-Up l e x s u (omega arith) he h (omega arith)) ht bt
          (omega arith)
          (ground (arith, check_tpm_step l e x s u (omega arith) he h (omega arith)))).1
