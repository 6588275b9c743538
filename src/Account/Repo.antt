-- ===== src/Account/Repo.antt =====
-- internal/biz/account_repo.go: the repository of accounts that the use cases call, and the filter of
-- internal/data/account.go.
use quota_lane.Prelude.{ℕ, Bytes, Option, List}
use quota_lane.Prelude.Int.{ℤ}
use quota_lane.Prelude.Effect.{M}
use quota_lane.Account.{Account, AccountProvider, AccountStatus}

-- `AccountFilter`; the empty text stands for no provider or status.
pub record AccountFilter : Type 0 where
  pub page : ℤ
  pub page_size : ℤ
  pub provider : AccountProvider
  pub status : AccountStatus

-- `AccountRepo`; `create_account` returns the row that the code fills the account with.
pub record AccountRepo (S : Type 0) : Type 0 where
  pub create_account : Account → M S Account
  pub get_account : ℕ → M S Account
  pub list_accounts : Option AccountFilter → M S (List Account × ℤ)
  pub update_account : Account → M S Account
  pub delete_account : ℕ → M S (Unit {0})
  pub list_expiring_accounts : ℕ → M S (List Account)
  pub list_accounts_by_provider : AccountProvider → AccountStatus → M S (List Account)
  pub list_codex_cli_accounts_needing_refresh : M S (List Account)
  pub update_oauth_data : ℕ → Bytes → ℕ → M S (Unit {0})
  pub update_health_score : ℕ → ℤ → M S (Unit {0})
  pub update_account_status : ℕ → AccountStatus → M S (Unit {0})
  pub list_accounts_by_tags : List Bytes → ℤ → ℤ → M S (List Account)
