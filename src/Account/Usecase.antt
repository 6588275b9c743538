-- ===== src/Account/Usecase.antt =====
-- internal/biz/account.go: the account use case, over the repository, encryption and the circuit breaker.
pub mod Create
use quota_lane.Prelude.{
  ℕ, String, Bytes, codes, is_empty, bytes_eq, Bool, true, false, not, ◌&&◌, ◌||◌, Option, none,
  some, List, [], ◌∷◌, map, ltb, leb, ◌==◌, length, if◌then◌else◌,
}
use quota_lane.Prelude.Int.{ℤ, pos, ltb_ℤ, leb_ℤ}
use quota_lane.Prelude.Effect.{
  Error, message, wrapped, Result, ok, err, panic, M, pure, fail, panics, ◌>>=◌, ◌>>◌, wrap,
  attempt,
}
use quota_lane.Account.{Account, AccountStatus, active, other_provider, other_status}
use quota_lane.Account.Convert.{
  ProtoProvider, unspecified, proto_claude_console, proto_openai_responses, ProtoStatus,
  status_unspecified, provider_from_proto, status_from_proto,
}
use quota_lane.Account.Proto.{ProtoAccount, validate_metadata_json, masked_proto}
use quota_lane.Account.Repo.{AccountFilter, AccountRepo}
use quota_lane.Cache.{Codec}
use quota_lane.CircuitBreaker.Domain.{CircuitBreakerRepo, Env}
use quota_lane.CircuitBreaker.Usecase.{reset_health_score}
use quota_lane.Crypto.{Library, AesCrypto, encrypt}
use quota_lane.Metadata.{AccountMetadata, Url, parse, validate}

pub record CreateAccountRequest : Type 0 where
  pub name : String
  pub provider : ProtoProvider
  pub api_key : Bytes
  pub oauth_data : Bytes
  pub rpm_limit : ℤ
  pub tpm_limit : ℤ
  pub metadata : Bytes

-- A field that is not given is `none`.
pub record UpdateAccountRequest : Type 0 where
  pub id : ℕ
  pub name : Option String
  pub api_key : Option Bytes
  pub oauth_data : Option Bytes
  pub rpm_limit : Option ℤ
  pub tpm_limit : Option ℤ
  pub status : Option ProtoStatus
  pub metadata : Option Bytes

pub record ListAccountsRequest : Type 0 where
  pub page : ℤ
  pub page_size : ℤ
  pub provider : ProtoProvider
  pub status : ProtoStatus

pub record ListAccountsResponse : Type 0 where
  pub accounts : List ProtoAccount
  pub total : ℤ
  pub page : ℤ
  pub page_size : ℤ

-- `isSupportedProvider`
unfoldable pub is_supported_provider : ProtoProvider → Bool
is_supported_provider proto_claude_console = true
is_supported_provider proto_openai_responses = true
is_supported_provider _ = false

-- The row of `CreateAccount`, before the credentials.
unfoldable pub new_account : CreateAccountRequest → Option Bytes → Account
new_account req metadata = record {
  id = 0;
  name = req.name;
  description = "";
  provider = provider_from_proto req.provider;
  api_key_encrypted = [];
  base_api = "";
  oauth_data_encrypted = [];
  oauth_expires_at = none;
  access_token_encrypted = [];
  refresh_token_encrypted = [];
  token_expires_at = none;
  id_token_encrypted = [];
  organizations = "";
  rpm_limit = req.rpm_limit;
  tpm_limit = req.tpm_limit;
  health_score = pos 100;
  is_circuit_broken = false;
  status = active;
  metadata = metadata;
  version = pos 0;
  circuit_broken_at = none;
  last_error = none;
  last_error_at = none;
  consecutive_errors = pos 0;
  created_at = 0;
  updated_at = 0;
}

abbrev pub or_else : {A : Type 0} → Option A → A → A
or_else none a = a
or_else (some b) a = b

abbrev pub status_or : Option ProtoStatus → AccountStatus → AccountStatus
status_or none s = s
status_or (some p) s = status_from_proto p

-- The fields of `UpdateAccount` that cannot fail.
unfoldable pub with_fields : UpdateAccountRequest → Account → Account
with_fields req account = record account {
  name = or_else req.name account.name;
  rpm_limit = or_else req.rpm_limit account.rpm_limit;
  tpm_limit = or_else req.tpm_limit account.tpm_limit;
  status = status_or req.status account.status;
}

abbrev pub list_filter : ListAccountsRequest → AccountFilter
list_filter req = record {
  page = req.page;
  page_size = req.page_size;
  provider = elim req.provider as (λ _. _) [
    | unspecified ↦ other_provider ""
    | p ↦ provider_from_proto p
  ];
  status = elim req.status as (λ _. _) [
    | status_unspecified ↦ other_status ""
    | s ↦ status_from_proto s
  ];
}

-- A result that does not depend on the world.
abbrev pub lift : {S A : Type 0} → Result A → M S A
lift r s = (r, s)

module _ {C S : Type 0} (repo : AccountRepo S) (lib : Library C S) (aes : AesCrypto)
    (codec : Codec AccountMetadata) (url_parse : Bytes → Option Url) (is_json : Bytes → Bool) where
  -- The metadata that is stored for a text that is given.
  unfoldable pub checked_metadata : Bytes → M S (Unit {0})
  unfolding wrap
  checked_metadata text = do
    meta ← wrap "invalid metadata JSON" (lift (parse codec text))
    wrap "metadata validation failed" (lift (validate url_parse meta))

  abbrev pub encrypted_or_hidden : Result Bytes → M S Bytes
  encrypted_or_hidden (ok encrypted) = pure encrypted
  encrypted_or_hidden (err e) = fail (message "failed to encrypt credentials")
  encrypted_or_hidden panic = panics

  unfoldable pub encrypt_credentials : Bytes → M S Bytes
  encrypt_credentials text = attempt (encrypt lib aes text) >>= encrypted_or_hidden

  -- The parts of `CreateAccount` and `UpdateAccount`: a text that is empty is left out.
  abbrev pub with_api_key : Bytes → Account → M S Account
  with_api_key [] account = pure account
  with_api_key (c ∷ cs) account = do
    encrypted ← encrypt_credentials (c ∷ cs)
    pure (record account { api_key_encrypted = encrypted })

  abbrev pub with_oauth_data : Bytes → Account → M S Account
  with_oauth_data [] account = pure account
  with_oauth_data (c ∷ cs) account = do
    wrap "invalid OAuth data format" (lift (validate_metadata_json is_json (c ∷ cs)))
    encrypted ← encrypt_credentials (c ∷ cs)
    pure (record account { oauth_data_encrypted = encrypted })

  abbrev pub optional_metadata : Bytes → M S (Option Bytes)
  optional_metadata [] = pure none
  optional_metadata (c ∷ cs) = checked_metadata (c ∷ cs) >> pure (some (c ∷ cs))

  unfoldable pub create_account : CreateAccountRequest → M S ProtoAccount
  create_account req =
      if not (is_supported_provider req.provider)
      then fail (
          message "unsupported provider: %v. MVP only supports CLAUDE_CONSOLE and OPENAI_RESPONSES")
      else (do
        metadata ← optional_metadata req.metadata
        with_key ← with_api_key req.api_key (new_account req metadata)
        account ← with_oauth_data req.oauth_data with_key
        created ← wrap "failed to create account" (repo.create_account account)
        pure (masked_proto codec url_parse created))

  unfoldable pub get_account : ℕ → M S ProtoAccount
  get_account id = do account ← repo.get_account id; pure (masked_proto codec url_parse account)

  unfoldable pub list_accounts : ListAccountsRequest → M S ListAccountsResponse
  list_accounts req = do
    found ← repo.list_accounts (some (list_filter req))
    pure (record {
      accounts = map (masked_proto codec url_parse) found.0;
      total = found.1;
      page = req.page;
      page_size = req.page_size;
    })

  abbrev pub with_metadata : Option Bytes → Account → M S Account
  with_metadata none account = pure account
  with_metadata (some text) account =
      checked_metadata text >> pure (record account { metadata = some text })

  unfoldable pub update_account : UpdateAccountRequest → M S ProtoAccount
  update_account req = do
    found ← repo.get_account req.id
    with_meta ← with_metadata req.metadata (with_fields req found)
    with_key ← with_api_key (or_else req.api_key []) with_meta
    account ← with_oauth_data (or_else req.oauth_data []) with_key
    updated ← wrap "failed to update account" (repo.update_account account)
    pure (masked_proto codec url_parse updated)

  unfoldable pub delete_account : ℕ → M S (Unit {0})
  delete_account id = repo.delete_account id

  -- `breaker` and `env` are what the circuit breaker's use case works with.
  unfoldable pub reset_health_score_by_admin : CircuitBreakerRepo S → Env S → ℕ → M S ProtoAccount
  reset_health_score_by_admin breaker env id = do
    wrap "failed to reset health score" (reset_health_score breaker env id)
    wrap "failed to get account after reset" (get_account id)

  unfoldable pub get_accounts_by_tags : List Bytes → ℤ → ℤ → M S (List ProtoAccount)
  get_accounts_by_tags tags limit offset =
      if length tags == 0
      then fail (message "at least one tag must be provided")
      else if ltb 10 (length tags)
      then fail (message "too many tags: max 10 allowed, got %d")
      else if leb_ℤ limit (pos 0) || ltb_ℤ (pos 100) limit
      then fail (message "invalid limit: must be between 1 and 100, got %d")
      else if ltb_ℤ offset (pos 0)
      then fail (message "invalid offset: must be non-negative, got %d")
      else (do
        accounts ←
            wrap "failed to list accounts by tags" (repo.list_accounts_by_tags tags limit offset)
        pure (map (masked_proto codec url_parse) accounts))
