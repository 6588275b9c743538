-- ===== src/Database.antt =====
-- The table `api_accounts` behind gorm.io/gorm and MySQL, which the repository calls and does not
-- contain: a parameter `Database D` of the model, and what its documentation promises.
pub mod Memory
pub mod Rows
use quota_lane.Prelude.{
  ℕ, zero, suc, ◌≡◌, ◌≢◌, ◌⊎◌, Bool, true, Option, some, none, List, All, length, ◌≤◌,
}
use quota_lane.Prelude.Int.{ℤ}
use quota_lane.Prelude.Effect.{M, ok}
use quota_lane.Account.{Account}

pub record Database (D : Type 0) : Type 0 where
  -- `Where("id = ?", id).First(&account)`
  pub first_account : ℕ → M D Account
  -- `Where("id = ? AND …", id).Updates(…)`, with the number of rows that were changed
  pub update_account : ℕ → (Account → Bool) → (Account → Account) → M D ℕ

module _ {D : Type 0} (db : Database D) (row : D → ℕ → Option Account) where
  -- One statement is atomic. If it comes back with an error, it may have been carried out.
  pub record IsLawful : Type 0 where
    pub first_account_ok :
        (a : ℕ) (d d' : D) (x : Account) → db.first_account a d ≡ (ok x, d') → row d a ≡ some x
    pub first_account_same : (a b : ℕ) (d : D) → row (db.first_account a d).1 b ≡ row d b
    pub update_account_ok :
        (a n : ℕ) (test : Account → Bool) (f : Account → Account) (d d' : D)
        → db.update_account a test f d ≡ (ok (suc n), d')
        → (x : Account) × (row d a ≡ some x) × (test x ≡ true) × (row d' a ≡ some (f x))
    pub update_account_none :
        (a : ℕ) (test : Account → Bool) (f : Account → Account) (d d' : D)
        → db.update_account a test f d ≡ (ok zero, d')
        → row d' a ≡ row d a
    pub update_account_any :
        (a : ℕ) (test : Account → Bool) (f : Account → Account) (d : D)
        → (row (db.update_account a test f d).1 a ≡ row d a)
          ⊎ ((x : Account) × (row d a ≡ some x)
              × (row (db.update_account a test f d).1 a ≡ some (f x)))
    pub update_account_others :
        (a b : ℕ) (test : Account → Bool) (f : Account → Account) (d : D)
        → b ≢ a
        → row (db.update_account a test f d).1 b ≡ row d b

-- The order of a listing.
pub data Order : Type 0 where
  created_at_desc oauth_expires_at_asc token_expires_at_asc id_asc : Order
  health_score_desc : Order  -- and by id among equals

-- The statements on the table that are not about one row. An offset of 0 or below, and a limit of
-- `none`, put no bound.
pub record Queries (D : Type 0) : Type 0 where
  -- `Create(account)`, with the row as stored: its id, and what the database fills in
  pub create_account : Account → M D Account
  -- `Save(account)`
  pub save_account : Account → M D (Unit {0})
  -- `Where(…).Count(&total)`
  pub count_accounts : (Account → Bool) → M D ℕ
  -- `Where(…).Offset(…).Limit(…).Order(…).Find(&accounts)`
  pub find_accounts :
      (Account → Bool) → (offset : ℤ) → (limit : Option ℕ) → Order → M D (List Account)

module _ {D : Type 0} (qs : Queries D) (row : D → ℕ → Option Account) where
  pub record IsQueryLawful : Type 0 where
    pub create_account_ok :
        (x y : Account) (d d' : D)
        → qs.create_account x d ≡ (ok y, d')
        → (row d y.id ≡ none) × (row d' y.id ≡ some y)
    pub create_account_any :
        (x : Account) (b : ℕ) (d : D)
        → (row (qs.create_account x d).1 b ≡ row d b) ⊎ (row d b ≡ none)
    pub save_account_ok :
        (x : Account) (d d' : D) → qs.save_account x d ≡ (ok tt, d') → row d' x.id ≡ some x
    pub save_account_others :
        (x : Account) (b : ℕ) (d : D) → b ≢ x.id → row (qs.save_account x d).1 b ≡ row d b
    pub count_accounts_same :
        (test : Account → Bool) (b : ℕ) (d : D) → row (qs.count_accounts test d).1 b ≡ row d b
    pub find_accounts_same :
        (test : Account → Bool) (offset : ℤ) (limit : Option ℕ) (order : Order) (b : ℕ) (d : D)
        → row (qs.find_accounts test offset limit order d).1 b ≡ row d b
    pub find_accounts_ok :
        (test : Account → Bool) (offset : ℤ) (limit : Option ℕ) (order : Order) (d d' : D)
        (xs : List Account)
        → qs.find_accounts test offset limit order d ≡ (ok xs, d')
        → All (λ x. test x ≡ true) xs
    pub find_accounts_le :
        (test : Account → Bool) (offset : ℤ) (n : ℕ) (order : Order) (d d' : D) (xs : List Account)
        → qs.find_accounts test offset (some n) order d ≡ (ok xs, d')
        → length xs ≤ n
