-- ===== src/RateLimit/Rpm.antt =====
-- internal/biz/rate_limiter.go: `CheckRPM`.
use quota_lane.Prelude.{
  ℕ, zero, suc, ◌+◌, ◌-◌, ◌<◌, ◌≡◌, min, arith, leb, if◌then◌else◌, ◌∙◌, inl, inr, fst_path, subst,
  sym,
}
use quota_lane.Prelude.Int.{ℤ, pos, ◌+ℤ◌, ◌<ℤ◌, int32}
use quota_lane.Prelude.Effect.{Error, ok, err, Result-cases}
use quota_lane.RateLimit.Repo.{RateLimitRepo, Counters, IsLawful, IsAvailable, to_int32}
use quota_lane.RateLimit.Usecase.{check_rpm, bump, new_rate_limit_exceeded_error}

pub to_int32_pos : (n : ℕ) → to_int32 (pos n) ≡ pos (if leb n 2147483647 then n else 2147483647)
unfolding int32
to_int32_pos n = ground arith

module _ {S : Type 0} (repo : RateLimitRepo S) where
  -- The number of admitted requests among `n` that arrive one after the other.
  unfoldable pub admitted : ℕ → ℤ → ℕ → S → ℕ
  admitted account limit zero s = 0
  admitted account limit (suc n) s =
      let (r, s') = check_rpm repo account limit s in bump r (admitted account limit n s')

module _ {S : Type 0} (repo : RateLimitRepo S) (c : Counters S) (law : IsLawful repo c) where
  check_rpm_step :
      (a l x k : ℕ) (s s' : S) (n : ℤ)
      → repo.increment_rpm a s ≡ (ok n, s')
      → c.rpm s a ≡ pos x
      → 0 < l
      → l < 2147483647
      → (c.rpm (check_rpm repo a (pos l) s).1 a ≡ pos (x + 1))
        × (bump (check_rpm repo a (pos l) s).0 k ≡ (if leb (x + 1) l then k + 1 else k))
  unfolding check_rpm
  check_rpm_step a l x k s s' n e h low high = ground (arith, counted, reply)
    where
      counted : c.rpm s' a ≡ pos (x + 1)
      counted = (law.increment_rpm_ok a s s' n e).0 ∙ rw h (unfold ◌+ℤ◌ in ground arith)

      reply : n ≡ pos (if leb (x + 1) 2147483647 then x + 1 else 2147483647)
      reply = (law.increment_rpm_ok a s s' n e).1 ∙ rw counted (to_int32_pos (x + 1))

  check_rpm_state :
      (a l : ℕ) (s s' : S) (n : ℤ)
      → repo.increment_rpm a s ≡ (ok n, s')
      → 0 < l
      → (check_rpm repo a (pos l) s).1 ≡ s'
  unfolding check_rpm
  check_rpm_state a l s s' n e low = ground (arith, e)

  -- While Redis is available: with a limit of `l` and `x` requests counted so far, of the next `n`
  -- requests exactly those up to the `l`-th of the window are admitted.
  pub admitted-eq :
      {Up : S → Type 0} {a : ℕ}
      → IsAvailable repo c a Up
      → (l : ℕ) → 0 < l
      → l < 2147483647
      → (n x : ℕ) (s : S) → Up s
      → c.rpm s a ≡ pos x
      → admitted repo a (pos l) n s ≡ min n (l - x)
  unfolding admitted
  admitted-eq up l low high zero x s u h = omega arith
  admitted-eq {Up} {a} up l low high (suc n) x s u h =
      step.1
      ∙ ground
          (arith, admitted-eq up l low high n (x + 1) (check_rpm repo a (pos l) s).1 still step.0)
    where
      reply : (n : ℤ) × ((repo.increment_rpm a s).0 ≡ ok n) × Up (repo.increment_rpm a s).1
      reply = up.increment_rpm_up s u

      whole : repo.increment_rpm a s ≡ (ok reply.0, (repo.increment_rpm a s).1)
      whole = λ i. (reply.1 i, (repo.increment_rpm a s).1)

      still : Up (check_rpm repo a (pos l) s).1
      still = subst Up (sym (check_rpm_state a l s _ _ whole low)) reply.2

      step :
          (c.rpm (check_rpm repo a (pos l) s).1 a ≡ pos (x + 1))
          × (bump
                (check_rpm repo a (pos l) s).0
                (admitted repo a (pos l) n (check_rpm repo a (pos l) s).1)
              ≡ (if leb (x + 1) l
                  then admitted repo a (pos l) n (check_rpm repo a (pos l) s).1 + 1
                  else admitted repo a (pos l) n (check_rpm repo a (pos l) s).1))
      step = check_rpm_step a l x _ s (repo.increment_rpm a s).1 reply.0 whole h low high

  -- A request is refused only when a limit is set and the counter stands above it: never because
  -- Redis failed, and never with another error than the 429 for RPM.
  pub check_rpm_refused :
      (a : ℕ) (limit : ℤ) (s : S) (e : Error)
      → (check_rpm repo a limit s).0 ≡ err e
      → (count : ℤ) × ((repo.increment_rpm a s).0 ≡ ok count)
        × (e ≡ new_rate_limit_exceeded_error "RPM" count limit (pos 60))
        × (pos 0 <ℤ limit)
        × (limit <ℤ count)
        × (count ≡ to_int32 (c.rpm (repo.increment_rpm a s).1 a))
  unfolding check_rpm
  check_rpm_refused a limit s e h = elim (Result-cases (repo.increment_rpm a s)) [
    | inl (n, p) ↦ (
      n,
      fst_path p,
      ground (arith, p),
      ground (arith, p),
      ground (arith, p),
      (law.increment_rpm_ok a s _ n p).1,
    )
    | inr (inl (x, p)) ↦ absurd (ground (arith, p))
    | inr (inr p) ↦ absurd (ground (arith, p))
  ]
