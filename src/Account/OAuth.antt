-- ===== src/Account/OAuth.antt =====
-- internal/biz/account_oauth.go and internal/biz/oauth_refresh_task.go: accounts that are created from an
-- OAuth code, and the task that refreshes their tokens.
use quota_lane.Prelude.{
  ℕ, ◌+◌, ◌*◌, String, Bytes, is_empty, false, Option, none, some, List, [], ◌∷◌, if◌then◌else◌,
}
use quota_lane.Prelude.Int.{ℤ, pos}
use quota_lane.Prelude.Effect.{
  message, Result, ok, err, panic, M, pure, fail, panics, ◌>>=◌, ◌>>◌, wrap, attempt, read,
}
use quota_lane.Account.{
  Account, AccountProvider, claude_official, codex_cli, gemini, droid, AccountStatus, active,
}
use quota_lane.Account.Convert.{
  ProtoProvider, proto_claude_official, proto_codex_cli, proto_gemini, proto_droid,
}
use quota_lane.Account.Proto.{text_of}
use quota_lane.Account.Repo.{AccountRepo}
use quota_lane.Crypto.{Library, AesCrypto, encrypt, decrypt}
use quota_lane.OAuth.{
  OAuthParams, OAuthUrlResponse, OAuthMetadata, OAuthSession, ExtendedTokenResponse, Registry,
}
use quota_lane.OAuth
use quota_lane.Cache.{Codec}
use quota_lane.Redis.{Redis, second, hour}

-- `protoProviderToDataProvider`
unfoldable pub proto_provider_to_data_provider : ProtoProvider → Result AccountProvider
proto_provider_to_data_provider proto_claude_official = ok claude_official
proto_provider_to_data_provider proto_codex_cli = ok codex_cli
proto_provider_to_data_provider proto_gemini = ok gemini
proto_provider_to_data_provider proto_droid = ok droid
proto_provider_to_data_provider _ = err (message "unsupported provider: %v")

-- The map that `ExchangeOAuthCode` stores; the organizations stand in it as the provider gave them.
pub record OAuthFields : Type 0 where
  pub access_token_encrypted : Bytes
  pub refresh_token_encrypted : Bytes
  pub id_token : Bytes
  pub scopes : List Bytes
  pub organizations : Bytes
  pub account_id : Bytes
  pub expires_at : Bytes

-- `encoding/json` on maps: the text under a key, and the map with another text, or list of texts, under it.
pub record Maps (J : Type 0) : Type 0 where
  pub codec : Codec J
  pub text_at : J → String → Option Bytes
  pub with_text : String → Bytes → J → J
  pub with_list : String → List Bytes → J → J

-- What the code works with. `of_fields` is the map of the fields, and `rfc3339` prints a time.
pub record OAuthServices (C J S : Type 0) : Type 0 where
  pub repo : AccountRepo S
  pub lib : Library C S
  pub aes : AesCrypto
  pub providers : Registry S
  pub rdb : Redis S
  pub sessions : Codec OAuthSession
  pub now : S → ℕ
  pub maps : Maps J
  pub of_fields : OAuthFields → J
  pub of_metadata : List (Bytes × Bytes) → J
  pub rfc3339 : ℕ → Bytes
  pub generate_session_id : M S String
  pub generate_state : M S Bytes
  pub getenv : S → String → Bytes

abbrev pub new_oauth_account :
    String → String → ℤ → ℤ → AccountProvider → Bytes → ℕ → Option Bytes → Account
new_oauth_account name description rpm_limit tpm_limit provider encrypted expires_at metadata =
    record {
      id = 0;
      name = name;
      description = description;
      provider = provider;
      api_key_encrypted = [];
      base_api = "";
      oauth_data_encrypted = encrypted;
      oauth_expires_at = none;
      access_token_encrypted = [];
      refresh_token_encrypted = [];
      token_expires_at = some expires_at;
      id_token_encrypted = [];
      organizations = "";
      rpm_limit = rpm_limit;
      tpm_limit = tpm_limit;
      health_score = pos 100;
      is_circuit_broken = false;
      status = active;
      metadata = metadata;
      version = pos 0;
      circuit_broken_at = none;
      last_error = none;
      last_error_at = none;
      consecutive_errors = pos 0;
      created_at = 0;
      updated_at = 0;
    }

module _ {C J S : Type 0} (uc : OAuthServices C J S) where
  abbrev lift : {A : Type 0} → Result A → M S A
  lift r s = (r, s)

  -- `GenerateOAuthURL`: the URL, the session id and the state.
  unfoldable pub generate_oauth_url :
      ProtoProvider
      → Bytes
      → Bytes
      → List Bytes
      → List (Bytes × Bytes)
      → M S (Bytes × String × Bytes)
  unfolding wrap
  generate_oauth_url provider proxy_url redirect_uri scopes metadata = do
    data_provider ← wrap "unsupported provider" (lift (proto_provider_to_data_provider provider))
    resp ← wrap "failed to generate auth URL" (
        OAuth.generate_auth_url uc.providers uc.rdb uc.sessions uc.generate_session_id
          uc.generate_state uc.now data_provider
          (record {
            proxy_url = proxy_url;
            redirect_uri = redirect_uri;
            state = [];
            scopes = scopes;
            metadata = metadata;
          }))
    pure (resp.auth_url, resp.session_id, resp.state)

  abbrev marshalled : String → Option Bytes → M S Bytes
  marshalled note none = fail (message note)
  marshalled note (some b) = pure b

  abbrev metadata_json : List (Bytes × Bytes) → M S (Option Bytes)
  metadata_json [] = pure none
  metadata_json (entry ∷ entries) = do
    text ←
        marshalled "failed to marshal metadata"
          (uc.maps.codec.encode (uc.of_metadata (entry ∷ entries)))
    pure (if is_empty text then none else some text)

  -- `ExchangeOAuthCode`: the id, the name, the status and the expiry of the account.
  unfoldable pub exchange_oauth_code :
      String
      → Bytes
      → String
      → String
      → ℤ
      → ℤ
      → List (Bytes × Bytes)
      → M S (ℕ × String × AccountStatus × ℕ)
  exchange_oauth_code session_id code name description rpm_limit tpm_limit metadata = do
    tokens ←
        wrap "failed to exchange code"
          (OAuth.exchange_code uc.providers uc.rdb uc.sessions session_id code)
    access ← wrap "failed to encrypt access token" (encrypt uc.lib uc.aes tokens.access_token)
    refresh ← wrap "failed to encrypt refresh token" (encrypt uc.lib uc.aes tokens.refresh_token)
    time ← read uc.now
    let expires_at = time + tokens.expires_in * second
    json ← marshalled "failed to marshal OAuth data" (
        uc.maps.codec.encode (
          uc.of_fields (record {
            access_token_encrypted = access;
            refresh_token_encrypted = refresh;
            id_token = tokens.id_token;
            scopes = tokens.scopes;
            organizations = tokens.organizations;
            account_id = tokens.account_id;
            expires_at = uc.rfc3339 expires_at;
          })))
    encrypted ← wrap "failed to encrypt OAuth data" (encrypt uc.lib uc.aes json)
    stored_metadata ← metadata_json metadata
    account ← wrap "failed to create account" (
        uc.repo.create_account (
          new_oauth_account name description rpm_limit tpm_limit tokens.provider encrypted
            expires_at stored_metadata))
    pure (account.id, account.name, account.status, expires_at)

  abbrev proxy_in : Option J → Bytes
  proxy_in none = []
  proxy_in (some j) = text_of (uc.maps.text_at j "proxy_url")

  abbrev first_text : Bytes → Bytes → Bytes
  first_text [] rest = rest
  first_text (c ∷ cs) rest = c ∷ cs

  -- `getProxyConfig`: the request's proxy, then the account's, then those of the environment.
  unfoldable pub get_proxy_config : Bytes → Bytes → S → Bytes
  get_proxy_config account_metadata request_proxy s = first_text request_proxy (
      first_text
        (if is_empty account_metadata then [] else proxy_in (uc.maps.codec.decode account_metadata))
        (first_text (uc.getenv s "HTTP_PROXY") (uc.getenv s "HTTPS_PROXY")))

  abbrev unmarshalled : Option J → M S J
  unmarshalled none = fail (message "failed to unmarshal OAuth data")
  unmarshalled (some j) = pure j

  abbrev refresh_text : Option Bytes → M S Bytes
  refresh_text none = fail (message "refresh_token_encrypted not found in OAuth data")
  refresh_text (some []) = fail (message "refresh_token_encrypted not found in OAuth data")
  refresh_text (some (c ∷ cs)) = pure (c ∷ cs)

  abbrev metadata_of : Option Bytes → OAuthMetadata
  metadata_of none = record { proxy_url = []; base_api = [] }
  metadata_of (some text) = record {
    proxy_url = proxy_in (uc.maps.codec.decode text);
    base_api = [];
  }

  abbrev with_id_token : Bytes → J → J
  with_id_token [] j = j
  with_id_token (c ∷ cs) j = uc.maps.with_text "id_token" (c ∷ cs) j

  abbrev with_scopes : List Bytes → J → J
  with_scopes [] j = j
  with_scopes (c ∷ cs) j = uc.maps.with_list "scopes" (c ∷ cs) j

  -- `refreshAccountToken`
  unfoldable pub refresh_account_token : Account → M S (Unit {0})
  refresh_account_token account = do
    json ← wrap "failed to decrypt OAuth data" (decrypt uc.lib uc.aes account.oauth_data_encrypted)
    oauth ← unmarshalled (uc.maps.codec.decode json)
    stored ← refresh_text (uc.maps.text_at oauth "refresh_token_encrypted")
    token ← wrap "failed to decrypt refresh token" (decrypt uc.lib uc.aes stored)
    tokens ← wrap "failed to refresh token" (
        OAuth.refresh_token uc.providers account.provider token
          (some (metadata_of account.metadata)))
    access ← wrap "failed to encrypt new access token" (encrypt uc.lib uc.aes tokens.access_token)
    refresh ←
        wrap "failed to encrypt new refresh token" (encrypt uc.lib uc.aes tokens.refresh_token)
    time ← read uc.now
    let expires_at = time + tokens.expires_in * second
    let updated = with_scopes tokens.scopes (
        with_id_token tokens.id_token (
          uc.maps.with_text "expires_at" (uc.rfc3339 expires_at) (
            uc.maps.with_text "refresh_token_encrypted" refresh
              (uc.maps.with_text "access_token_encrypted" access oauth))))
    updated_json ← marshalled "failed to marshal updated OAuth data" (uc.maps.codec.encode updated)
    encrypted ← wrap "failed to encrypt updated OAuth data" (encrypt uc.lib uc.aes updated_json)
    wrap "failed to update OAuth data in database"
        (uc.repo.update_oauth_data account.id encrypted expires_at)

  abbrev after_refresh : Result (Unit {0}) → M S (Unit {0})
  after_refresh (ok _) = pure tt
  after_refresh (err e) = pure tt
  after_refresh panic = panics

  -- The loop of `RefreshExpiringTokens`: an account whose refresh fails is passed over.
  unfoldable pub refresh_each : List Account → M S (Unit {0})
  refresh_each [] = pure tt
  refresh_each (account ∷ accounts) =
      attempt (refresh_account_token account) >>= after_refresh >> refresh_each accounts

  unfoldable pub refresh_expiring_tokens : M S (Unit {0})
  refresh_expiring_tokens = do
    time ← read uc.now
    accounts ←
        wrap "failed to list expiring accounts" (uc.repo.list_expiring_accounts (time + 2 * hour))
    refresh_each accounts
