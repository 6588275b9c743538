-- ===== src/AccountGroup/Laws.antt =====
-- What the account groups' use case relies on, in terms of the groups' names. That `GetGroup` comes back
-- with the stored name is not among it: its answer may be an old one from the cache.
use quota_lane.Prelude.{ℕ, ◌≤◌, String, ◌≡◌, ◌≢◌, ◌⊎◌, Option, none, some, List, [], ◌∷◌}
use quota_lane.Prelude.Effect.{ok}
use quota_lane.Prelude.Int.{ℤ}
use quota_lane.AccountGroup.{AccountGroup, AccountGroupRepo, AccountRepo}

-- The names of the groups that are not deleted, and how many there are.
pub record Groups (S : Type 0) : Type 0 where
  pub name_of : S → ℕ → Option String
  pub count : S → ℕ

-- A group with this id and this name is on the page.
abbrev pub Listed : ℕ → String → List AccountGroup → Type 0
Listed i n [] = ⊥
Listed i n (g ∷ gs) = ((g.id ≡ i) × (g.name ≡ n)) ⊎ Listed i n gs

module _ {S : Type 0} (v : Groups S) where
  abbrev pub SameNames : S → S → Type 0
  SameNames s t = (i : ℕ) → v.name_of t i ≡ v.name_of s i

  -- The names after group `k` has got another one, or none.
  abbrev pub Renamed : ℕ → Option String → S → S → Type 0
  Renamed k n s t = (v.name_of t k ≡ n) × ((i : ℕ) → i ≢ k → v.name_of t i ≡ v.name_of s i)

  -- No two groups have one name.
  abbrev pub IsUnique : S → Type 0
  IsUnique s = (i j : ℕ) (n : String) → v.name_of s i ≡ some n → v.name_of s j ≡ some n → i ≡ j

module _ {S : Type 0} (repo : AccountGroupRepo S) (accounts : AccountRepo S) (v : Groups S) where
  -- What the use case relies on. A call that comes back with an error may have taken effect.
  pub record IsLawful : Type 0 where
    pub list_groups_ok :
        (size n : ℕ) (s s' : S) (gs : List AccountGroup)
        → repo.list_groups 1 size s ≡ (ok (gs, n), s')
        → v.count s ≤ size
        → (i : ℕ) (name : String) → v.name_of s i ≡ some name
        → Listed i name gs
    pub list_groups_same : (page size : ℕ) (s : S) → SameNames v s (repo.list_groups page size s).1
    pub get_group_same :
        (k : ℕ) (s : S)
        → SameNames v s (repo.get_group k s).1 × (v.count (repo.get_group k s).1 ≡ v.count s)
    pub get_account_same : (a : ℕ) (s : S) → SameNames v s (accounts.get_account a s).1
    pub create_group_any :
        (n d : String) (p : ℤ) (is : List ℕ) (s : S)
        → SameNames v s (repo.create_group n d p is s).1
          ⊎ ((k : ℕ) × (v.name_of s k ≡ none)
              × Renamed v k (some n) s (repo.create_group n d p is s).1)
    pub update_group_any :
        (k : ℕ) (n d : String) (p : ℤ) (is : List ℕ) (s : S)
        → SameNames v s (repo.update_group k n d p is s).1
          ⊎ Renamed v k (some n) s (repo.update_group k n d p is s).1
    pub delete_group_any :
        (k : ℕ) (s : S)
        → SameNames v s (repo.delete_group k s).1 ⊎ Renamed v k none s (repo.delete_group k s).1
