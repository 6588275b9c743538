-- ===== src/Service/Groups.antt =====
-- internal/service/account.go: the methods about account groups, over `AccountGroupUseCase`. The
-- protobuf form of a group has the fields of `AccountGroup`.
use quota_lane.Prelude.{ℕ, String, Bool, true, Option, none, some, List, map, if◌then◌else◌}
use quota_lane.Prelude.Int.{ℤ, pos, ltb_ℤ}
use quota_lane.Prelude.Effect.{M, pure, ◌>>=◌, ◌>>◌, wrap}
use quota_lane.AccountGroup.{
  AccountGroup, AccountGroupRepo, AccountRepo, GroupAccount, create_account_group,
  get_account_group, list_account_groups, get_accounts_by_group, update_account_group,
  delete_account_group,
}
use quota_lane.Service.{Answer, answer}

pub record CreateAccountGroupRequest : Type 0 where
  pub name : String
  pub description : String
  pub priority : ℤ
  pub account_ids : List ℕ

pub record UpdateAccountGroupRequest : Type 0 where
  pub id : ℕ
  pub name : Option String
  pub description : Option String
  pub priority : Option ℤ
  pub account_ids : List ℕ

pub record ListAccountGroupsResponse : Type 0 where
  pub groups : List AccountGroup
  pub total : ℕ
  pub page : ℕ
  pub page_size : ℕ

-- The fields of `v1.Account` that `GetAccountGroup` sets.
pub record Member : Type 0 where
  pub id : ℕ
  pub name : String
  pub health_score : ℤ

pub record GetAccountGroupResponse : Type 0 where
  pub group : AccountGroup
  pub accounts : List Member

pub record DeleteAccountGroupResponse : Type 0 where
  pub success : Bool
  pub message : String

-- `req.GetName()` and its like: the zero value where the field was omitted.
abbrev pub get_or : {A : Type 0} → A → Option A → A
get_or zero_value none = zero_value
get_or zero_value (some a) = a

unfoldable pub clamp_score : ℤ → ℤ
clamp_score n = if ltb_ℤ n (pos 0) then pos 0 else if ltb_ℤ (pos 100) n then pos 100 else n

abbrev pub to_member : GroupAccount → Member
to_member acc = record { id = acc.id; name = acc.name; health_score = clamp_score acc.health_score }

abbrev pub convert_account_group_to_proto : AccountGroup → AccountGroup
convert_account_group_to_proto group = record {
  id = group.id;
  name = group.name;
  description = group.description;
  priority = group.priority;
  account_ids = group.account_ids;
  created_at = group.created_at;
  updated_at = group.updated_at;
}

module _ {S : Type 0} (repo : AccountGroupRepo S) (accounts : AccountRepo S) (now : S → ℕ) where
  unfoldable pub create_group : CreateAccountGroupRequest → M S (Answer AccountGroup)
  create_group req = answer (do
    group ← wrap "failed to create account group" (
        create_account_group repo accounts now req.name req.description req.priority
          req.account_ids)
    pure (convert_account_group_to_proto group))

  unfoldable pub list_groups : ℕ → ℕ → M S (Answer ListAccountGroupsResponse)
  list_groups page page_size = answer (do
    found ←
        wrap "failed to list account groups" (list_account_groups repo accounts now page page_size)
    pure (record {
      groups = map convert_account_group_to_proto found.0;
      total = found.1;
      page = page;
      page_size = page_size;
    }))

  unfoldable pub get_group : ℕ → M S (Answer GetAccountGroupResponse)
  get_group id = answer (do
    group ← wrap "failed to get account group" (get_account_group repo accounts now id)
    members ← wrap "failed to get group accounts" (get_accounts_by_group repo accounts now id)
    pure
        (record { group = convert_account_group_to_proto group; accounts = map to_member members }))

  unfoldable pub update_group : UpdateAccountGroupRequest → M S (Answer AccountGroup)
  update_group req = answer (do
    wrap "failed to update account group" (
        update_account_group repo accounts now req.id (get_or "" req.name)
          (get_or "" req.description) (get_or (pos 0) req.priority) req.account_ids)
    group ← wrap "failed to get updated group" (get_account_group repo accounts now req.id)
    pure (convert_account_group_to_proto group))

  unfoldable pub delete_group : ℕ → M S (Answer DeleteAccountGroupResponse)
  delete_group id = answer (
      wrap "failed to delete account group" (delete_account_group repo accounts now id)
      >> pure (record { success = true; message = "账户组删除成功" }))
