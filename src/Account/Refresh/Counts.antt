-- ===== src/Account/Refresh/Counts.antt =====
-- internal/biz/account_refresh.go: when the automatic refresh reports an error.
use quota_lane.Prelude.{
  ℕ, ◌+◌, ◌*◌, ◌≡◌, ◌≢◌, ◌↔◌, refl, List, [], ◌∷◌, All, arith, Bool-cases, inl, inr, ltb, ◌==◌,
  ◌&&◌, if◌then◌else◌,
}
use quota_lane.Prelude.Effect.{
  Result, pure, fail, ok, err, panic, wrap, attempt, read, Result-cases,
}
use quota_lane.Account.{Account}
use quota_lane.Account.Refresh.{
  Services, refresh_claude_token, refresh_all, all_failed, auto_refresh_tokens,
}
use quota_lane.Redis.{minute}

abbrev pub Failed : Result (Unit {0}) → Type 0
Failed (ok _) = ⊥
Failed _ = Unit

abbrev pub Ended : Result (Unit {0}) → Type 0
Ended panic = ⊥
Ended _ = Unit

module _ {C S : Type 0} (uc : Services C S) where
  -- What the refreshes of the accounts come back with, one after the other, and the world after them.
  abbrev pub outcomes : List Account → S → List (Result (Unit {0}))
  outcomes [] s = []
  outcomes (x ∷ xs) s =
      (refresh_claude_token uc x.id s).0 ∷ outcomes xs (refresh_claude_token uc x.id s).1

  abbrev pub world_after : List Account → S → S
  world_after [] s = s
  world_after (x ∷ xs) s = world_after xs (refresh_claude_token uc x.id s).1

  abbrev wins : List (Result (Unit {0})) → ℕ
  wins [] = 0
  wins (ok _ ∷ rs) = 1 + wins rs
  wins (_ ∷ rs) = wins rs

  abbrev losses : List (Result (Unit {0})) → ℕ
  losses [] = 0
  losses (err e ∷ rs) = 1 + losses rs
  losses (_ ∷ rs) = losses rs

  -- The loop counts the successes and the failures.
  refresh_all_lem :
      (accounts : List Account) (good bad : ℕ) (s : S)
      → All Ended (outcomes accounts s)
      → refresh_all uc accounts (good, bad) s ≡ (
        ok (good + wins (outcomes accounts s), bad + losses (outcomes accounts s)),
        world_after accounts s,
      )
  unfolding refresh_all attempt
  refresh_all_lem [] good bad s h = ground arith
  refresh_all_lem (x ∷ xs) good bad s h = elim (Result-cases (refresh_claude_token uc x.id s)) [
    | inl (_, e) ↦ rw e (ground (arith, refresh_all_lem xs (good + 1) bad _ h.1))
    | inr (inl (g, e)) ↦ rw e (ground (arith, refresh_all_lem xs good (bad + 1) _ h.1))
    | inr (inr e) ↦ absurd (rw e at h.0)
  ]

  refresh_all_run :
      (accounts : List Account) (s : S)
      → All Ended (outcomes accounts s)
      → refresh_all uc accounts (0, 0) s
        ≡ (ok (wins (outcomes accounts s), losses (outcomes accounts s)), world_after accounts s)
  refresh_all_run accounts s h = rw (refresh_all_lem accounts 0 0 s h) (ground arith)

  no_win_left : (rs : List (Result (Unit {0}))) → wins rs ≡ 0 → All Failed rs
  no_win_left [] h = tt
  no_win_left (ok _ ∷ rs) h = absurd (omega arith)
  no_win_left (err e ∷ rs) h = (tt, no_win_left rs h)
  no_win_left (panic ∷ rs) h = (tt, no_win_left rs h)

  wins_of_losers : (rs : List (Result (Unit {0}))) → All Failed rs → wins rs ≡ 0
  wins_of_losers [] h = refl
  wins_of_losers (ok _ ∷ rs) h = absurd h.0
  wins_of_losers (err e ∷ rs) h = wins_of_losers rs h.1
  wins_of_losers (panic ∷ rs) h = wins_of_losers rs h.1

  losses_ne : (rs : List (Result (Unit {0}))) → All Ended rs → wins rs ≡ 0 → rs ≢ [] → losses rs ≢ 0
  losses_ne [] h w ne = absurd (ne refl)
  losses_ne (ok _ ∷ rs) h w ne = absurd (omega arith)
  losses_ne (err e ∷ rs) h w ne = λ z. absurd (omega arith)
  losses_ne (panic ∷ rs) h w ne = absurd h.0

  none_left : (xs : List Account) (s : S) → losses (outcomes xs s) ≢ 0 → xs ≢ []
  none_left [] s h e = h refl
  none_left (x ∷ xs) s h e = cc

  some_left : (xs : List Account) (s : S) → xs ≢ [] → outcomes xs s ≢ []
  some_left [] s h = absurd (h refl)
  some_left (x ∷ xs) s h = λ e. cc

  -- The verdict on the numbers.
  judged_iff :
      (good bad : ℕ) (s : S)
      → (((if ltb 0 bad && good == 0 then fail all_failed else pure tt) s).0 ≡ err all_failed)
        ↔ ((bad ≢ 0) × (good ≡ 0))
  judged_iff good bad s = elim (Bool-cases (ltb 0 bad && good == 0)) [
    | inl p ↦ rw p (λ h. (λ z. ground arith, ground arith), λ h. refl)
    | inr p ↦ rw p (λ h. absurd (ground arith), λ h. absurd (ground arith))
  ]

  -- Where the expiring accounts are listed and no refresh panics, the automatic refresh fails with its
  -- error exactly if there was an account to refresh and every refresh, made one after the other, came
  -- back with an error.
  pub auto_refresh_tokens_iff :
      (accounts : List Account) (s u : S)
      → uc.repo.list_expiring_accounts (uc.now s + 10 * minute) s ≡ (ok accounts, u)
      → All Ended (outcomes accounts u)
      → ((auto_refresh_tokens uc s).0 ≡ err all_failed)
        ↔ ((accounts ≢ []) × All Failed (outcomes accounts u))
  unfolding auto_refresh_tokens wrap read
  auto_refresh_tokens_iff accounts s u e h =
      let (f, g) =
        judged_iff (wins (outcomes accounts u)) (losses (outcomes accounts u))
          (world_after accounts u) in
      rw (e, refresh_all_run accounts u h)
        (
          λ q. (none_left accounts u (f q).0, no_win_left (outcomes accounts u) (f q).1),
          λ q.
              let w = wins_of_losers (outcomes accounts u) q.1 in
              g (losses_ne (outcomes accounts u) h w (some_left accounts u q.0), w),
        )
