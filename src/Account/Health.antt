-- ===== src/Account/Health.antt =====
-- internal/biz/account_openai.go: the validation of OpenAI Responses accounts. `account` is the row as it was
-- read at the start.
pub mod Stale
use quota_lane.Prelude.{
  ℕ, ◌+◌, ◌*◌, String, Bytes, Bool, true, false, not, ◌&&◌, ◌||◌, Option, none, some, List, [], ◌∷◌,
  is_empty, str_eq, if◌then◌else◌,
}
use quota_lane.Prelude.Int.{ℤ, pos, ◌+ℤ◌, ◌-ℤ◌, leb_ℤ, ltb_ℤ, int32}
use quota_lane.Prelude.Effect.{
  Error, message, wrapped, Result, ok, err, panic, M, pure, fail, panics, ◌>>=◌, ◌>>◌, wrap,
  attempt, ignore, read,
}
use quota_lane.Account.{Account, openai_responses, active, error}
use quota_lane.Account.Proto.{text_of}
use quota_lane.Account.Repo.{AccountRepo}
use quota_lane.Account.Conditions.{same_provider}
use quota_lane.Crypto.{Library, AesCrypto, decrypt}
use quota_lane.OAuth.{OAuthMetadata, OAuthProvider, Registry, get_provider}
use quota_lane.Redis.{Redis, health_check_failure, health_check_alert, text, hour}

-- `ErrorRecord`
pub record ErrorRecord : Type 0 where
  pub code : ℤ
  pub text : String
  pub retry_count : ℤ
  pub base_api : String
  pub occurred_at : ℕ

-- `HealthCheckAlertTTL`
abbrev pub health_check_alert_ttl : ℕ
health_check_alert_ttl = 24 * hour

-- What the code works with. `proxy_of` is the text under `proxy_url` of a JSON object, `error_text` is
-- `err.Error()`, `scan_code` is `fmt.Sscanf` of a text by a format with one number, and the others are texts.
pub record HealthServices (C S : Type 0) : Type 0 where
  pub repo : AccountRepo S
  pub lib : Library C S
  pub aes : AesCrypto
  pub providers : Registry S
  pub rdb : Redis S
  pub now : S → ℕ
  pub proxy_of : Bytes → Option Bytes
  pub base_text : String → Bytes
  pub error_text : Error → String
  pub scan_code : String → String → Option ℤ
  pub error_record_json : ErrorRecord → String
  pub alert_text : Account → ℤ → Bytes

module _ {C S : Type 0} (uc : HealthServices C S) where
  abbrev first_code : Option ℤ → ℤ → ℤ
  first_code none rest = rest
  first_code (some n) rest = n

  -- `extractErrorCode`
  unfoldable pub extract_error_code : Error → ℤ
  extract_error_code e =
      let t = uc.error_text e in
      if str_eq t ""
      then pos 0
      else first_code (uc.scan_code t "invalid API key (HTTP %d)") (
          first_code (uc.scan_code t "client error (HTTP %d)")
            (first_code (uc.scan_code t "server error (HTTP %d)") (pos 0)))

  unfoldable pub handle_validation_success : Account → M S (Unit {0})
  handle_validation_success account = do
    uc.repo.update_health_score account.id (pos 100)
    uc.repo.update_account_status account.id active
    let cleared = record account {
      consecutive_errors = pos 0;
      last_error = none;
      last_error_at = none;
    }
    ignore (uc.repo.update_account cleared)
    ignore (uc.rdb.del (health_check_failure account.id ∷ []))
    if leb_ℤ (pos 50) account.health_score && account.is_circuit_broken
        then ignore (uc.repo.update_account (record cleared { is_circuit_broken = false }))
        else pure tt

  -- The row of the error records, and its end where the breaker opens.
  abbrev pub with_error : Account → Error → ℕ → Account
  with_error account e time = record account {
    last_error = some (
        uc.error_record_json (record {
          code = extract_error_code e;
          text = uc.error_text e;
          retry_count = pos 3;
          base_api = account.base_api;
          occurred_at = time;
        }));
    last_error_at = some time;
    consecutive_errors = int32 (account.consecutive_errors +ℤ pos 1);
  }

  abbrev pub open_breaker : Account → ℤ → M S (Unit {0})
  open_breaker account new_score = do
    ignore (uc.repo.update_account (record account { is_circuit_broken = true }))
    ignore (
        uc.rdb.set (health_check_alert account.id) (text (uc.alert_text account new_score))
          health_check_alert_ttl)

  unfoldable pub handle_validation_failure : Account → Error → M S (Unit {0})
  handle_validation_failure account e = do
    let new_score = account.health_score -ℤ pos 20
    uc.repo.update_health_score account.id new_score
    uc.repo.update_account_status account.id error
    time ← read uc.now
    let failed = with_error account e time
    ignore (uc.repo.update_account failed)
    ignore (uc.rdb.incr (health_check_failure account.id))
    if ltb_ℤ new_score (pos 30) && not account.is_circuit_broken
        then open_breaker failed new_score
        else pure tt
    fail e

  abbrev pub by_validation : Account → Result (Unit {0}) → M S (Unit {0})
  by_validation account (ok _) = handle_validation_success account
  by_validation account (err e) = handle_validation_failure account e
  by_validation account panic = panics

  -- No metadata, no proxy.
  abbrev proxy_in : Bytes → Bytes
  proxy_in [] = []
  proxy_in (c ∷ cs) = text_of (uc.proxy_of (c ∷ cs))

  abbrev pub validate_with : Account → Bytes → Option (OAuthProvider S) → M S (Unit {0})
  validate_with account api_key none = fail (message "OpenAI Responses provider not registered")
  validate_with account api_key (some provider) =
      attempt (
        provider.validate_token api_key (record {
          proxy_url = proxy_in (text_of account.metadata);
          base_api = uc.base_text account.base_api;
        }))
      >>= by_validation account

  unfoldable pub validate_openai_responses_account : ℕ → M S (Unit {0})
  validate_openai_responses_account id = do
    account ← wrap "failed to get account" (uc.repo.get_account id)
    if not (same_provider account.provider openai_responses)
        then fail (message "account is not OpenAI Responses type: provider=%s")
        else if is_empty account.api_key_encrypted
        then fail (message "account API key is empty")
        else if str_eq account.base_api ""
        then fail (message "account base API is empty")
        else (do
          api_key ←
              wrap "failed to decrypt API key" (decrypt uc.lib uc.aes account.api_key_encrypted)
          validate_with account api_key (get_provider uc.providers openai_responses))

  -- The checks of the goroutines, one after the other; their results are only counted.
  unfoldable pub check_all : List Account → M S (Unit {0})
  check_all [] = pure tt
  check_all (account ∷ accounts) =
      ignore (validate_openai_responses_account account.id) >> check_all accounts

  unfoldable pub health_check_openai_responses_accounts : M S (Unit {0})
  health_check_openai_responses_accounts = do
    accounts ←
        wrap "failed to list accounts" (uc.repo.list_accounts_by_provider openai_responses active)
    check_all accounts
