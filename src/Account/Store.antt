-- ===== src/Account/Store.antt =====
-- internal/data/account.go: `AccountRepo` over the table of accounts and the cache.
use quota_lane.Prelude.{
  ℕ, ◌+◌, ◌*◌, Bytes, Bool, ◌&&◌, Option, none, some, List, [], ◌∷◌, ◌==◌, if◌then◌else◌,
}
use quota_lane.Prelude.Int.{ℤ, pos, negsuc, pos_part}
use quota_lane.Prelude.Effect.{
  Error, message, wrapped, database, Result, ok, err, panic, M, pure, fail, panics, ◌>>=◌, ◌>>◌,
  wrap, attempt, ignore, read,
}
use quota_lane.Account.{Account, AccountProvider, AccountStatus, active, inactive}
use quota_lane.Account.Conditions.{
  any_row, clip_total, first_page, has_tags, is_expiring, is_not_found, matches_filter,
  needs_refresh, offset_of, page_of, page_size_of, same_provider, same_status, sql_clamp,
}
use quota_lane.Account.Repo.{AccountFilter, AccountRepo}
use quota_lane.Redis.{Redis, account_cache, minute}
use quota_lane.Cache
use quota_lane.Cache.{Codec}
use quota_lane.Database.{
  Database, Queries, created_at_desc, oauth_expires_at_asc, token_expires_at_asc, id_asc,
  health_score_desc,
}
use quota_lane.DbErrors.{GoError, classify}
use quota_lane.World.{World, on_table, on_redis}

-- `as_go_error` is how `errors.Is` and `errors.As` see an error, `json_contains` the MySQL function
-- on the tags of the metadata column, and `now` is `time.Now`.
module _ {D R : Type 0} (db : Database D) (qs : Queries D) (client : Option (Redis R))
    (codec : Codec Account) (as_go_error : Error → GoError)
    (json_contains : Option Bytes → Bytes → Bool) (now : World D R → ℕ) where
  -- The end of `CreateAccount`.
  abbrev pub or_classified : Result Account → M (World D R) Account
  or_classified (ok account) = pure account
  or_classified (err e) = fail (database (classify (as_go_error e)))
  or_classified panic = panics

  unfoldable pub create_account : Account → M (World D R) Account
  create_account account = attempt (on_table (qs.create_account account)) >>= or_classified

  -- The deletion of `account:{id}` from the cache.
  unfoldable pub clear_cache : ℕ → M (World D R) (Unit {0})
  clear_cache a = ignore (on_redis (Cache.delete client (account_cache a)))

  abbrev pub or_not_found : Result Account → M (World D R) Account
  or_not_found (ok account) = pure account
  or_not_found (err e) =
      if is_not_found e
      then fail (message "account not found: id=%d")
      else fail (wrapped "failed to get account" e)
  or_not_found panic = panics

  -- `GetAccount` after a cache miss, and by what the cache returned.
  unfoldable pub load_account : ℕ → M (World D R) Account
  load_account a = do
    account ← attempt (on_table (db.first_account a)) >>= or_not_found
    ignore (on_redis (Cache.set client codec (account_cache a) account (5 * minute)))
    pure account

  abbrev pub cached_or_loaded : ℕ → Result Account → M (World D R) Account
  cached_or_loaded a (ok account) = pure account
  cached_or_loaded a (err e) = load_account a
  cached_or_loaded a panic = panics

  unfoldable pub get_account : ℕ → M (World D R) Account
  get_account a =
      attempt (on_redis (Cache.get client codec (account_cache a))) >>= cached_or_loaded a

  unfoldable pub list_accounts : Option AccountFilter → M (World D R) (List Account × ℤ)
  list_accounts given = do
    let filter = first_page given
    let page = page_of filter.page
    let size = page_size_of filter.page_size
    total ← wrap "failed to count accounts" (on_table (qs.count_accounts (matches_filter filter)))
    accounts ← wrap "failed to list accounts" (
        on_table (
          qs.find_accounts (matches_filter filter) (offset_of page size) (some (pos_part size))
            created_at_desc))
    pure (accounts, clip_total total)

  unfoldable pub update_account : Account → M (World D R) Account
  update_account given = do
    updated_at ← read now
    let account = record given { updated_at = updated_at }
    wrap "failed to update account" (on_table (qs.save_account account))
    clear_cache account.id
    pure account

  -- The end of the methods that update one row, by the number of rows.
  abbrev pub confirm : ℕ → ℕ → M (World D R) (Unit {0})
  confirm a rows = if rows == 0 then fail (message "account not found: id=%d") else clear_cache a

  unfoldable pub delete_account : ℕ → M (World D R) (Unit {0})
  delete_account a = do
    updated_at ← read now
    rows ← wrap "failed to delete account" (
        on_table (
          db.update_account a any_row
            (λ x. record x { status = inactive; updated_at = updated_at })))
    confirm a rows

  unfoldable pub list_expiring_accounts : ℕ → M (World D R) (List Account)
  list_expiring_accounts threshold =
      wrap "failed to list expiring accounts"
        (on_table (qs.find_accounts (is_expiring threshold) (pos 0) none oauth_expires_at_asc))

  unfoldable pub update_oauth_data : ℕ → Bytes → ℕ → M (World D R) (Unit {0})
  update_oauth_data a oauth_data expires_at = do
    updated_at ← read now
    rows ← wrap "failed to update OAuth data" (
        on_table (
          db.update_account a any_row (λ x. record x {
            oauth_data_encrypted = oauth_data;
            oauth_expires_at = some expires_at;
            updated_at = updated_at;
          })))
    confirm a rows

  unfoldable pub update_health_score : ℕ → ℤ → M (World D R) (Unit {0})
  update_health_score a score = do
    updated_at ← read now
    rows ← wrap "failed to update health score" (
        on_table (
          db.update_account a any_row
            (λ x. record x { health_score = sql_clamp score; updated_at = updated_at })))
    confirm a rows

  unfoldable pub update_account_status : ℕ → AccountStatus → M (World D R) (Unit {0})
  update_account_status a status = do
    updated_at ← read now
    rows ← wrap "failed to update account status" (
        on_table (
          db.update_account a any_row (λ x. record x { status = status; updated_at = updated_at })))
    confirm a rows

  unfoldable pub list_accounts_by_provider :
      AccountProvider → AccountStatus → M (World D R) (List Account)
  list_accounts_by_provider provider status = wrap "failed to list accounts by provider" (
      on_table (
        qs.find_accounts (λ x. same_provider x.provider provider && same_status x.status status)
          (pos 0) none id_asc))

  unfoldable pub list_codex_cli_accounts_needing_refresh : M (World D R) (List Account)
  list_codex_cli_accounts_needing_refresh = do
    time ← read now
    wrap "failed to list Codex CLI accounts needing refresh" (
        on_table
          (qs.find_accounts (needs_refresh (time + 5 * minute)) (pos 0) none token_expires_at_asc))

  abbrev limit_of : ℤ → Option ℕ
  limit_of (pos n) = some n
  limit_of (negsuc n) = none

  unfoldable pub list_accounts_by_tags : List Bytes → ℤ → ℤ → M (World D R) (List Account)
  list_accounts_by_tags [] limit offset = pure []
  list_accounts_by_tags (tag ∷ tags) limit offset = wrap "failed to list accounts by tags" (
      on_table (
        qs.find_accounts (λ x. same_status x.status active && has_tags json_contains (tag ∷ tags) x)
          offset (limit_of limit) health_score_desc))

  -- `NewAccountRepo`
  abbrev pub new_account_repo : AccountRepo (World D R)
  new_account_repo = record {
    create_account = create_account;
    get_account = get_account;
    list_accounts = list_accounts;
    update_account = update_account;
    delete_account = delete_account;
    list_expiring_accounts = list_expiring_accounts;
    list_accounts_by_provider = list_accounts_by_provider;
    list_codex_cli_accounts_needing_refresh = list_codex_cli_accounts_needing_refresh;
    update_oauth_data = update_oauth_data;
    update_health_score = update_health_score;
    update_account_status = update_account_status;
    list_accounts_by_tags = list_accounts_by_tags;
  }
