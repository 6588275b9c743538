-- ===== src/OAuth.antt =====
-- pkg/oauth/manager.go and pkg/oauth/provider.go: the OAuth manager, its registry of providers and its
-- sessions in Redis. The clock and the random source are parameters.
pub mod Session
use quota_lane.Prelude.{
  ℕ, ◌*◌, String, Bytes, Bool, Option, none, some, List, [], ◌∷◌, is_empty, if◌then◌else◌, str_eq,
}
use quota_lane.Prelude.Int.{ℤ}
use quota_lane.Prelude.Effect.{
  Error, message, Result, ok, err, panic, M, pure, fail, ◌>>=◌, ◌>>◌, wrap, wrapped, attempt,
  ignore, read,
}
use quota_lane.Account.{AccountProvider}
use quota_lane.Account.Conditions.{same_provider}
use quota_lane.Cache.{Codec}
use quota_lane.Redis.{Redis, Key, oauth_session, Value, int, text, minute}

-- `OAuthParams`
pub record OAuthParams : Type 0 where
  pub proxy_url : Bytes
  pub redirect_uri : Bytes
  pub state : Bytes
  pub scopes : List Bytes
  pub metadata : List (Bytes × Bytes)

-- `OAuthURLResponse`
pub record OAuthUrlResponse : Type 0 where
  pub auth_url : Bytes
  pub session_id : String
  pub state : Bytes
  pub code_verifier : Bytes
  pub device_code : Bytes
  pub user_code : Bytes
  pub verification_uri : Bytes
  pub expires_in : ℤ
  pub interval : ℤ

-- `OAuthSession`
pub record OAuthSession : Type 0 where
  pub provider : AccountProvider
  pub code_verifier : Bytes
  pub state : Bytes
  pub device_code : Bytes
  pub proxy_url : Bytes
  pub redirect_uri : Bytes
  pub created_at : ℕ
  pub metadata : List (Bytes × Bytes)

-- `ExtendedTokenResponse`, the fields that are read; the organizations are kept as the text of their JSON.
pub record ExtendedTokenResponse : Type 0 where
  pub access_token : Bytes
  pub refresh_token : Bytes
  pub id_token : Bytes
  pub expires_in : ℕ
  pub scopes : List Bytes
  pub organizations : Bytes
  pub account_id : Bytes
  pub provider : AccountProvider

-- `AccountMetadata` of pkg/oauth, the fields that are written
pub record OAuthMetadata : Type 0 where
  pub proxy_url : Bytes
  pub base_api : Bytes

-- `OAuthProvider`
pub record OAuthProvider (S : Type 0) : Type 0 where
  pub provider_type : AccountProvider
  pub generate_auth_url : OAuthParams → M S OAuthUrlResponse
  pub exchange_code : Bytes → OAuthSession → M S ExtendedTokenResponse
  pub refresh_token : Bytes → Option OAuthMetadata → M S ExtendedTokenResponse
  pub validate_token : Bytes → OAuthMetadata → M S (Unit {0})

-- `SessionTTL`
abbrev pub session_ttl : ℕ
session_ttl = 10 * minute

-- The map of `OAuthManager`.
abbrev pub Registry : Type 0 → Type 0
Registry S = List (AccountProvider × OAuthProvider S)

module _ {S : Type 0} where
  -- `RegisterProvider`
  unfoldable pub register_provider : OAuthProvider S → Registry S → Registry S
  register_provider p ps = (p.provider_type, p) ∷ ps

  -- `GetProvider`: the entry that was written last.
  unfoldable pub get_provider : Registry S → AccountProvider → Option (OAuthProvider S)
  get_provider [] provider = none
  get_provider ((t, p) ∷ ps) provider =
      let rest = get_provider ps provider in if same_provider t provider then some p else rest

  abbrev pub or_unsupported :
      {A : Type 0} → Option (OAuthProvider S) → (OAuthProvider S → M S A) → M S A
  or_unsupported none f = fail (message "unsupported OAuth provider: %v")
  or_unsupported (some p) f = f p

  unfoldable pub refresh_token :
      Registry S → AccountProvider → Bytes → Option OAuthMetadata → M S ExtendedTokenResponse
  unfolding wrap
  refresh_token providers provider token metadata =
      or_unsupported (get_provider providers provider) λ p. do
        token_resp ← wrap "provider failed to refresh token" (p.refresh_token token metadata)
        pure (record token_resp { provider = provider })

  module _ (providers : Registry S) (rdb : Redis S) (codec : Codec OAuthSession) where
    abbrev store_session : Key → Option Bytes → M S (Unit {0})
    unfolding wrap
    store_session key none = fail (message "failed to marshal session")
    store_session key (some b) =
        wrap "failed to save session to Redis" (rdb.set key (text b) session_ttl)

    unfoldable pub save_session : String → OAuthSession → M S (Unit {0})
    unfolding wrap
    save_session session_id session =
        store_session (oauth_session session_id) (codec.encode session)

    abbrev decoded_session : Option OAuthSession → M S OAuthSession
    decoded_session none = fail (message "failed to unmarshal session")
    decoded_session (some session) = pure session

    -- The text of a number is no JSON of a session.
    abbrev session_of : Option Value → M S OAuthSession
    session_of none = fail (message "session not found or expired: %s")
    session_of (some (int n)) = fail (message "failed to unmarshal session")
    session_of (some (text b)) = decoded_session (codec.decode b)

    unfoldable pub load_session : String → M S OAuthSession
    unfolding wrap
    load_session session_id =
        wrap "failed to load session from Redis" (rdb.get (oauth_session session_id)) >>= session_of

    unfoldable pub delete_session : String → M S (Unit {0})
    unfolding wrap
    delete_session session_id =
        wrap "failed to delete session from Redis" (rdb.del (oauth_session session_id ∷ []))

    unfoldable pub exchange_code : String → Bytes → M S ExtendedTokenResponse
    unfolding wrap ignore
    exchange_code session_id code = do
      session ← wrap "failed to load session" (load_session session_id)
      or_unsupported (get_provider providers session.provider) λ p. do
        token_resp ← wrap "provider failed to exchange code" (p.exchange_code code session)
        ignore (delete_session session_id)
        pure (record token_resp { provider = session.provider })

    -- `util.GenerateState` is called where the caller gives no state.
    abbrev state_or : M S Bytes → Bytes → M S Bytes
    state_or generate_state [] = wrap "failed to generate state" generate_state
    state_or generate_state (c ∷ cs) = pure (c ∷ cs)

    unfoldable pub generate_auth_url :
        M S String → M S Bytes → (S → ℕ) → AccountProvider → OAuthParams → M S OAuthUrlResponse
    unfolding wrap read
    generate_auth_url generate_session_id generate_state now provider given =
        or_unsupported (get_provider providers provider) λ p. do
          session_id ← wrap "failed to generate session ID" generate_session_id
          state ← state_or generate_state given.state
          let params = record given { state = state }
          resp ← wrap "provider failed to generate auth URL" (p.generate_auth_url params)
          created_at ← read now
          wrap "failed to save session" (
              save_session session_id (record {
                provider = provider;
                code_verifier = resp.code_verifier;
                state = params.state;
                device_code = resp.device_code;
                proxy_url = params.proxy_url;
                redirect_uri = params.redirect_uri;
                created_at = created_at;
                metadata = params.metadata;
              }))
          pure (record resp { session_id = session_id; state = params.state })
