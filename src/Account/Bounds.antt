-- ===== src/Account/Bounds.antt =====
-- internal/data/account.go: the bounds on what the repository stores and lists.
use quota_lane.Prelude.{
  ℕ, zero, suc, ◌≤◌, ◌≡◌, sym, ap, ◌∙◌, Bytes, Bool, true, false, Option, some, List, All, length,
  arith, inl, inr, ◌==◌,
}
use quota_lane.Prelude.Int.{ℤ, pos, ◌≤ℤ◌, IsInt32, pos_part}
use quota_lane.Prelude.Effect.{Error, ok, Result-cases, wrap, ignore_state, read}
use quota_lane.Account.{Account}
use quota_lane.Account.Repo.{AccountFilter}
use quota_lane.Account.Conditions.{
  sql_clamp, matches_filter, first_page, page_of, page_size_of, offset_of, clip_total, any_row,
}
use quota_lane.Account.Store.{list_accounts, update_health_score, clear_cache}
use quota_lane.Cache
use quota_lane.Cache.{Codec}
use quota_lane.Database
use quota_lane.Database.{Database, Queries, created_at_desc}
use quota_lane.DbErrors.{GoError}
use quota_lane.Redis.{Redis, account_cache}
use quota_lane.Prelude.Hoare.{
  Holds, Always, Ensures, Ensures-elim, Ensures-intro, Ensures-keep, Ensures-bind, Ensures-wrap,
  Ensures-pure,
}
use quota_lane.World.{World, on_table, on_redis}

sql_clamp_lem : (n : ℤ) → (pos 0 ≤ℤ sql_clamp n) × (sql_clamp n ≤ℤ pos 100)
unfolding sql_clamp
sql_clamp_lem n = ground arith

page_size_of_lem : (n : ℤ) → pos_part (page_size_of n) ≤ 100
page_size_of_lem n = ground arith

clip_total_lem : (n : ℕ) → IsInt32 (clip_total n) × (pos 0 ≤ℤ clip_total n)
clip_total_lem n = ground arith

module _ {D R : Type 0} (db : Database D) (qs : Queries D) (client : Option (Redis R))
    (codec : Codec Account) (as_go_error : Error → GoError)
    (json_contains : Option Bytes → Bytes → Bool) (now : World D R → ℕ)
    (row : D → ℕ → Option Account) (db_law : Database.IsLawful db row)
    (qs_law : Database.IsQueryLawful qs row) where
  abbrev IsListing : Option AccountFilter → List Account × ℤ → Type 0
  IsListing filter (xs, total) =
      (length xs ≤ 100)
      × All (λ x. matches_filter (first_page filter) x ≡ true) xs
      × IsInt32 total
      × (pos 0 ≤ℤ total)

  find_Ensures :
      (filter : Option AccountFilter) (offset n : ℤ)
      → Ensures Always
          (λ xs. (length xs ≤ 100) × All (λ x. matches_filter (first_page filter) x ≡ true) xs)
          (on_table {R = R} (
            qs.find_accounts
              (matches_filter (first_page filter))
              offset
              (some (pos_part (page_size_of n)))
              created_at_desc))
  find_Ensures filter offset n = Ensures-intro Always _ _ λ w _. (
    tt,
    elim (Result-cases (
        qs.find_accounts (matches_filter (first_page filter)) offset
          (some (pos_part (page_size_of n))) created_at_desc w.table)) [
            | inl (xs, e) ↦ rw e (
              omega (
                arith,
                page_size_of_lem n,
                qs_law.find_accounts_le (matches_filter (first_page filter)) offset
                    (pos_part (page_size_of n)) created_at_desc w.table _ xs e,
              ),
              qs_law.find_accounts_ok (matches_filter (first_page filter)) offset
                  (some (pos_part (page_size_of n))) created_at_desc w.table _ xs e,
            )
            | inr (inl (g, e)) ↦ rw e tt
            | inr (inr e) ↦ rw e tt
          ],
  )

  -- A listing has at most 100 accounts, all of which pass the filter, whatever page and page size are
  -- asked for, and its total is an `int32` that is not negative.
  pub list_accounts_lem :
      (filter : Option AccountFilter) (w : World D R)
      → Holds
          (λ (r : List Account × ℤ).
            (length r.0 ≤ 100)
            × All (λ x. matches_filter (first_page filter) x ≡ true) r.0
            × IsInt32 r.1
            × (pos 0 ≤ℤ r.1))
          (list_accounts db qs client codec as_go_error json_contains now filter w).0
  unfolding list_accounts
  list_accounts_lem filter w =
      (Ensures-elim Always (IsListing filter)
        (list_accounts db qs client codec as_go_error json_contains now filter)
        (Ensures-bind Always Always (IsListing filter) _ _
          (Ensures-keep Always
            (wrap "failed to count accounts"
              (on_table (qs.count_accounts (matches_filter (first_page filter)))))
            λ _ _. tt)
          λ total _.
            Ensures-bind Always _ (IsListing filter) _ _
              (Ensures-wrap Always _ "failed to list accounts" _ (
                find_Ensures filter
                  (offset_of (page_of (first_page filter).page)
                    (page_size_of (first_page filter).page_size))
                  (first_page filter).page_size))
              λ xs q.
                Ensures-pure Always (IsListing filter) (xs, clip_total total)
                  (q.0, q.1, (clip_total_lem total).0, (clip_total_lem total).1))
        w tt).1

  clear_table :
      (a : ℕ) (w w' : World D R)
      → clear_cache db qs client codec as_go_error json_contains now a w ≡ (ok tt, w')
      → w'.table ≡ w.table
  unfolding clear_cache
  clear_table a w w' h =
      ap (λ r. r.1.table) (sym h)
      ∙ ap (λ u. u.table) (ignore_state (on_redis (Cache.delete client (account_cache a))) w)

  suc_ne : (n : ℕ) → (suc n == 0) ≡ false
  suc_ne n = ground arith

  clamp_same : (n : ℤ) → pos 0 ≤ℤ n → n ≤ℤ pos 100 → sql_clamp n ≡ n
  unfolding sql_clamp
  clamp_same n p q = ground arith

  -- A health score that was updated is in the row, between 0 and 100, whatever score is given, and it is
  -- the given one if that is between 0 and 100.
  pub update_health_score_lem :
      (a : ℕ) (n : ℤ) (w w' : World D R)
      → update_health_score db qs client codec as_go_error json_contains now a n w ≡ (ok tt, w')
      → (x : Account) × (row w.table a ≡ some x)
        × (row w'.table a ≡ some (record x { health_score = sql_clamp n; updated_at = now w }))
        × (pos 0 ≤ℤ sql_clamp n)
        × (sql_clamp n ≤ℤ pos 100)
        × (pos 0 ≤ℤ n → n ≤ℤ pos 100 → sql_clamp n ≡ n)
  unfolding update_health_score wrap read
  update_health_score_lem a n w w' h =
      elim (Result-cases (
        db.update_account a any_row
          (λ x. record x { health_score = sql_clamp n; updated_at = now w }) w.table)) [
            | inl (zero, e) ↦ absurd (ground (arith, e))
            | inl (suc m, e) ↦
                let (x, r, _, r') =
                  db_law.update_account_ok a m any_row
                    (λ x. record x { health_score = sql_clamp n; updated_at = now w }) w.table _
                    e in
                (
                  x,
                  r,
                  ap (λ d. row d a) (clear_table a _ w' (rw (e, suc_ne m) at h)) ∙ r',
                  (sql_clamp_lem n).0,
                  (sql_clamp_lem n).1,
                  clamp_same n,
                )
            | inr (inl (g, e)) ↦ absurd (ground (arith, e))
            | inr (inr e) ↦ absurd (ground (arith, e))
          ]
