-- ===== src/Account/Refresh.antt =====
-- internal/biz/account_refresh.go: the refresh of Claude tokens. Encryption, the OAuth manager and Redis act
-- on the same world as the repository; `codec` is `json.Marshal` and `json.Unmarshal` of `OAuthData`.
pub mod Counts
use quota_lane.Prelude.{
  ℕ, ◌+◌, ◌*◌, String, Bytes, Bool, true, false, not, ◌&&◌, ◌||◌, Option, none, some, List, [], ◌∷◌,
  is_empty, ltb, leb, ◌==◌, if◌then◌else◌,
}
use quota_lane.Prelude.Int.{ℤ, pos, ◌-ℤ◌, leb_ℤ}
use quota_lane.Prelude.Effect.{
  Error, message, wrapped, Result, ok, err, panic, M, pure, fail, panics, ◌>>=◌, ◌>>◌, wrap,
  attempt, ignore, read,
}
use quota_lane.Account.{Account, claude_official, claude_console, AccountStatus, error}
use quota_lane.Account.Proto.{parse_metadata}
use quota_lane.Account.Repo.{AccountRepo}
use quota_lane.Account.Conditions.{same_provider}
use quota_lane.Cache.{Codec}
use quota_lane.Crypto.{Library, AesCrypto, encrypt, decrypt}
use quota_lane.Metadata.{AccountMetadata, has_no_values}
use quota_lane.OAuth.{OAuthMetadata, ExtendedTokenResponse, Registry, refresh_token}
use quota_lane.Redis.{Redis, refresh_failure, alert, text, second, minute, hour}

-- `OAuthData`
pub record OAuthData : Type 0 where
  pub access_token : Bytes
  pub refresh_token : Bytes
  pub expires_at : ℕ

-- `RefreshFailureTTL`, `MaxConsecutiveFailures` and `AlertTTL`
abbrev pub refresh_failure_ttl : ℕ
refresh_failure_ttl = 30 * minute

abbrev pub max_consecutive_failures : ℤ
max_consecutive_failures = pos 3

abbrev pub alert_ttl : ℕ
alert_ttl = 24 * hour

abbrev pub is_claude : Account → Bool
is_claude account =
    same_provider account.provider claude_official || same_provider account.provider claude_console

-- The metadata that goes to the provider: none where it is absent, unreadable or empty.
abbrev pub oauth_metadata_of : Result AccountMetadata → Option OAuthMetadata
oauth_metadata_of (ok meta) =
    if has_no_values meta
    then none
    else some
        (record { proxy_url = if meta.proxy_enabled then meta.proxy_url else []; base_api = [] })
oauth_metadata_of (err e) = none
oauth_metadata_of panic = none

-- What the code works with. `alert_message` is the text of the alert.
pub record Services (C S : Type 0) : Type 0 where
  pub repo : AccountRepo S
  pub lib : Library C S
  pub aes : AesCrypto
  pub metadata_codec : Codec AccountMetadata
  pub oauth_codec : Codec OAuthData
  pub providers : Registry S
  pub client : Option (Redis S)
  pub now : S → ℕ
  pub alert_message : ℕ → String → ℤ → Error → Bytes

abbrev pub all_failed : Error
all_failed = message "all account token refresh attempts failed"

module _ {C S : Type 0} (uc : Services C S) where
  -- The third failure in a row.
  abbrev pub mark_error : Redis S → Account → ℕ → ℤ → Error → M S (Unit {0})
  mark_error rdb account id failure_count refresh_err = do
    wrap "failed to update account status" (uc.repo.update_account_status id error)
    ignore (
        rdb.set (alert id) (text (uc.alert_message id account.name failure_count refresh_err))
          alert_ttl)

  abbrev pub count_failure : Option (Redis S) → Account → ℕ → Error → M S (Unit {0})
  count_failure none account id refresh_err = pure tt
  count_failure (some rdb) account id refresh_err = do
    failure_count ← wrap "failed to increment failure counter" (rdb.incr (refresh_failure id))
    ignore (rdb.expire (refresh_failure id) refresh_failure_ttl)
    if leb_ℤ max_consecutive_failures failure_count
        then mark_error rdb account id failure_count refresh_err
        else pure tt

  unfoldable pub handle_refresh_failure : ℕ → Error → M S (Unit {0})
  handle_refresh_failure id refresh_err = do
    account ← wrap "failed to get account" (uc.repo.get_account id)
    wrap "failed to update health score"
        (uc.repo.update_health_score id (account.health_score -ℤ pos 20))
    count_failure uc.client account id refresh_err

  abbrev pub or_hidden : {A : Type 0} → String → Result A → M S A
  or_hidden note (ok a) = pure a
  or_hidden note (err e) = fail (message note)
  or_hidden note panic = panics

  abbrev pub parsed_oauth_data : Option OAuthData → M S OAuthData
  parsed_oauth_data none = fail (message "failed to parse OAuth data")
  parsed_oauth_data (some oauth) = pure oauth

  abbrev pub tokens_or_failure : ℕ → Result ExtendedTokenResponse → M S ExtendedTokenResponse
  tokens_or_failure id (ok tokens) = pure tokens
  tokens_or_failure id (err e) =
      ignore (handle_refresh_failure id e) >> fail (wrapped "OAuth refresh failed" e)
  tokens_or_failure id panic = panics

  abbrev pub marshalled : Option Bytes → M S Bytes
  marshalled none = fail (message "failed to marshal OAuth data")
  marshalled (some b) = pure b

  abbrev pub clear_failures : Option (Redis S) → ℕ → M S (Unit {0})
  clear_failures none id = pure tt
  clear_failures (some rdb) id = ignore (rdb.del (refresh_failure id ∷ []))

  -- From the new tokens on.
  unfoldable pub store_tokens : ℕ → ExtendedTokenResponse → M S (Unit {0})
  store_tokens id tokens = do
    time ← read uc.now
    let new_expires_at = time + tokens.expires_in * second
    new_json ← marshalled (
        uc.oauth_codec.encode (record {
          access_token = tokens.access_token;
          refresh_token = tokens.refresh_token;
          expires_at = new_expires_at;
        }))
    encrypted ←
        attempt (encrypt uc.lib uc.aes new_json) >>= or_hidden "failed to encrypt OAuth data"
    wrap "failed to update OAuth data" (uc.repo.update_oauth_data id encrypted new_expires_at)
    ignore (uc.repo.update_health_score id (pos 100))
    clear_failures uc.client id

  unfoldable pub refresh_claude_token : ℕ → M S (Unit {0})
  refresh_claude_token id = do
    account ← wrap "failed to get account" (uc.repo.get_account id)
    if not (is_claude account)
        then fail (message "account %d is not a Claude account (provider: %s)")
        else if is_empty account.oauth_data_encrypted
        then fail (message "account %d has no OAuth data")
        else (do
          decrypted ←
              attempt (decrypt uc.lib uc.aes account.oauth_data_encrypted)
              >>= or_hidden "failed to decrypt OAuth data"
          oauth ← parsed_oauth_data (uc.oauth_codec.decode decrypted)
          if is_empty oauth.refresh_token
              then fail (message "account %d has no refresh_token")
              else (do
                tokens ←
                    attempt (
                      refresh_token uc.providers account.provider oauth.refresh_token
                        (oauth_metadata_of (parse_metadata uc.metadata_codec account.metadata)))
                    >>= tokens_or_failure id
                store_tokens id tokens))

  -- The numbers of successes and of failures.
  abbrev pub counted : ℕ × ℕ → Result (Unit {0}) → M S (ℕ × ℕ)
  counted (good, bad) (ok _) = pure (good + 1, bad)
  counted (good, bad) (err e) = pure (good, bad + 1)
  counted (good, bad) panic = panics

  -- The refreshes of the goroutines, one after the other.
  unfoldable pub refresh_all : List Account → ℕ × ℕ → M S (ℕ × ℕ)
  refresh_all [] counts = pure counts
  refresh_all (account ∷ accounts) counts =
      attempt (refresh_claude_token account.id) >>= counted counts >>= refresh_all accounts

  unfoldable pub auto_refresh_tokens : M S (Unit {0})
  auto_refresh_tokens = do
    time ← read uc.now
    accounts ←
        wrap "failed to list expiring accounts"
          (uc.repo.list_expiring_accounts (time + 10 * minute))
    counts ← refresh_all accounts (0, 0)
    if ltb 0 counts.1 && counts.0 == 0 then fail all_failed else pure tt
