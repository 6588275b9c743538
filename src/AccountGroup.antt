-- ===== src/AccountGroup.antt =====
-- internal/biz/account_group.go: `AccountGroupUseCase`. A group id of 0 is the default group. Logging
-- is left out.
pub mod Laws
pub mod Names
pub mod Default
pub mod Memory
pub mod Store
use quota_lane.Prelude.{
  ℕ, String, Bool, true, false, not, ◌&&◌, Option, none, List, [], ◌∷◌, map, str_eq, ◌==◌,
  if◌then◌else◌,
}
use quota_lane.Prelude.Int.{ℤ, pos, negsuc}
use quota_lane.Prelude.Effect.{
  Error, message, Result, ok, err, panic, M, pure, fail, panics, ◌>>=◌, ◌>>◌, attempt, read,
}
use quota_lane.Account.{Account, AccountProvider, AccountStatus}

-- `data.AccountGroupData`
pub record AccountGroup : Type 0 where
  pub id : ℕ
  pub name : String
  pub description : String
  pub priority : ℤ
  pub account_ids : List ℕ
  pub created_at : ℕ
  pub updated_at : ℕ

-- `AccountGroupRepo`; `list_groups` comes back with a page of groups and the number of all groups.
pub record AccountGroupRepo (S : Type 0) : Type 0 where
  pub create_group : String → String → ℤ → List ℕ → M S ℕ
  pub get_group : ℕ → M S AccountGroup
  pub list_groups : ℕ → ℕ → M S (List AccountGroup × ℕ)
  pub update_group : ℕ → String → String → ℤ → List ℕ → M S (Unit {0})
  pub delete_group : ℕ → M S (Unit {0})
  pub get_account_groups : ℕ → M S (List AccountGroup)
  pub get_all_grouped_account_ids : M S (List ℕ)

-- The methods of `AccountRepo` that the use case calls; `list_accounts` is `ListAccounts` with no
-- filter.
pub record AccountRepo (S : Type 0) : Type 0 where
  pub get_account : ℕ → M S Account
  pub list_accounts : M S (List Account × ℕ)

-- The simplified `Account` of this file.
pub record GroupAccount : Type 0 where
  pub id : ℕ
  pub name : String
  pub provider : AccountProvider
  pub status : AccountStatus
  pub health_score : ℤ
  pub is_circuit_broken : Bool

-- `NewValidationError`
abbrev pub new_validation_error : String → Error
new_validation_error text = message text

-- The loops over the existing groups: whether one has the name, and whether another one has.
unfoldable pub is_taken : String → List AccountGroup → Bool
is_taken name [] = false
is_taken name (g ∷ gs) = if str_eq g.name name then true else is_taken name gs

unfoldable pub is_taken_by_other : ℕ → String → List AccountGroup → Bool
is_taken_by_other id name [] = false
is_taken_by_other id name (g ∷ gs) =
    if not (g.id == id) && str_eq g.name name then true else is_taken_by_other id name gs

abbrev pub is_member : ℕ → List ℕ → Bool
is_member i [] = false
is_member i (j ∷ js) = if j == i then true else is_member i js

-- The ids that are not in `groupedSet`.
unfoldable pub ungrouped : List ℕ → List ℕ → List ℕ
ungrouped grouped [] = []
ungrouped grouped (i ∷ is) =
    let rest = ungrouped grouped is in if is_member i grouped then rest else i ∷ rest

abbrev pub to_group_account : Account → GroupAccount
to_group_account x = record {
  id = x.id;
  name = x.name;
  provider = x.provider;
  status = x.status;
  health_score = x.health_score;
  is_circuit_broken = x.is_circuit_broken;
}

module _ {S : Type 0} (repo : AccountGroupRepo S) (accounts : AccountRepo S) (now : S → ℕ) where
  -- The validation of account ids.
  abbrev pub refuse_missing : Result Account → M S (Unit {0})
  refuse_missing (ok x) = pure tt
  refuse_missing (err e) = fail (new_validation_error "账户 ID 无效或不存在")
  refuse_missing panic = panics

  unfoldable pub check_accounts : List ℕ → M S (Unit {0})
  check_accounts [] = pure tt
  check_accounts (a ∷ as') =
      (attempt (accounts.get_account a) >>= refuse_missing) >> check_accounts as'

  unfoldable pub create_account_group : String → String → ℤ → List ℕ → M S AccountGroup
  create_account_group name description priority account_ids = do
    existing ← repo.list_groups 1 1000
    if is_taken name existing.0 then fail (new_validation_error "账户组名称已存在") else (do
      check_accounts account_ids
      group_id ← repo.create_group name description priority account_ids
      created_at ← read now
      updated_at ← read now
      pure (record {
        id = group_id;
        name = name;
        description = description;
        priority = priority;
        account_ids = account_ids;
        created_at = created_at;
        updated_at = updated_at;
      }))

  unfoldable pub get_account_group : ℕ → M S AccountGroup
  get_account_group id = repo.get_group id

  unfoldable pub list_account_groups : ℕ → ℕ → M S (List AccountGroup × ℕ)
  list_account_groups page page_size = repo.list_groups page page_size

  -- The check of a changed name.
  unfoldable pub check_name : ℕ → String → M S (Unit {0})
  check_name id name = do
    all_groups ← repo.list_groups 1 1000
    if is_taken_by_other id name all_groups.0
        then fail (new_validation_error "账户组名称已存在")
        else pure tt

  unfoldable pub update_account_group : ℕ → String → String → ℤ → List ℕ → M S (Unit {0})
  update_account_group id name description priority account_ids = do
    existing ← repo.get_group id
    if str_eq name existing.name then pure tt else check_name id name
    check_accounts account_ids
    repo.update_group id name description priority account_ids

  unfoldable pub delete_account_group : ℕ → M S (Unit {0})
  delete_account_group id = repo.get_group id >>= λ group. repo.delete_group id

  -- The loop of `GetAccountsByGroup`, by what `GetAccount` returned: an error skips the account.
  abbrev pub keep_found : List GroupAccount → Result Account → M S (List GroupAccount)
  keep_found rest (ok x) = pure (to_group_account x ∷ rest)
  keep_found rest (err e) = pure rest
  keep_found rest panic = panics

  unfoldable pub collect : List ℕ → M S (List GroupAccount)
  collect [] = pure []
  collect (a ∷ as') = do
    account ← attempt (accounts.get_account a)
    rest ← collect as'
    keep_found rest account

  unfoldable pub get_accounts_by_group : ℕ → M S (List GroupAccount)
  get_accounts_by_group group_id = repo.get_group group_id >>= λ group. collect group.account_ids

  unfoldable pub get_default_group : M S AccountGroup
  get_default_group = do
    all_accounts ← accounts.list_accounts
    grouped_ids ← repo.get_all_grouped_account_ids
    created_at ← read now
    updated_at ← read now
    pure (record {
      id = 0;
      name = "default";
      description = "未分组账户（默认组）";
      priority = negsuc 0;
      account_ids = ungrouped grouped_ids (map (λ (x : Account). x.id) all_accounts.0);
      created_at = created_at;
      updated_at = updated_at;
    })

-- A call that changes groups.
pub data Change : Type 0 where
  create : (name description : String) → (priority : ℤ) → (account_ids : List ℕ) → Change
  update : (id : ℕ) → (name description : String) → (priority : ℤ) → (account_ids : List ℕ) → Change
  delete : (id : ℕ) → Change

module _ {S : Type 0} (repo : AccountGroupRepo S) (accounts : AccountRepo S) (now : S → ℕ) where
  abbrev pub perform : Change → S → S
  perform (create n d p is) s = (create_account_group repo accounts now n d p is s).1
  perform (update i n d p is) s = (update_account_group repo accounts now i n d p is s).1
  perform (delete i) s = (delete_account_group repo accounts now i s).1
