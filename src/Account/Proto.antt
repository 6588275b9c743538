-- ===== src/Account/Proto.antt =====
-- internal/data/account.go and internal/biz/account.go: the protobuf form of an account, and the masking of
-- its sensitive fields.
use quota_lane.Prelude.{
  ℕ, ◌-◌, ◌<◌, ◌≡◌, ◌≢◌, refl, true, false, arith, String, Bytes, codes, is_empty, Bool, not, ◌&&◌,
  Option, none, some, [], ◌∷◌, ◌++◌, leb, ltb, length, take, drop, replicate, if◌then◌else◌,
}
use quota_lane.Prelude.Int.{ℤ, int32}
use quota_lane.Prelude.Effect.{message, wrapped, backend, Result, ok, err, panic}
use quota_lane.Account.{Account}
use quota_lane.Account.Convert.{ProtoProvider, ProtoStatus, provider_to_proto, status_to_proto}
use quota_lane.Cache.{Codec}
use quota_lane.Metadata.{
  AccountMetadata, Url, empty_metadata, has_no_values, parse, to_text, mask_sensitive,
}

-- The message `Account`.
pub record ProtoAccount : Type 0 where
  pub id : ℕ
  pub name : String
  pub provider : ProtoProvider
  pub api_key_encrypted : Bytes
  pub oauth_data_encrypted : Bytes
  pub rpm_limit : ℤ
  pub tpm_limit : ℤ
  pub health_score : ℤ
  pub is_circuit_broken : Bool
  pub status : ProtoStatus
  pub metadata : Bytes
  pub created_at : ℕ
  pub updated_at : ℕ
  pub oauth_expires_at : Option ℕ

abbrev pub text_of : Option Bytes → Bytes
text_of none = []
text_of (some b) = b

-- `ToProto`
unfoldable pub to_proto : Account → ProtoAccount
to_proto a = record {
  id = a.id;
  name = a.name;
  provider = provider_to_proto a.provider;
  api_key_encrypted = a.api_key_encrypted;
  oauth_data_encrypted = a.oauth_data_encrypted;
  rpm_limit = a.rpm_limit;
  tpm_limit = a.tpm_limit;
  health_score = int32 a.health_score;
  is_circuit_broken = a.is_circuit_broken;
  status = status_to_proto a.status;
  metadata = text_of a.metadata;
  created_at = a.created_at;
  updated_at = a.updated_at;
  oauth_expires_at = a.oauth_expires_at;
}

abbrev pub stars_between : Bytes → Bytes
stars_between key = take 4 key ++ (codes "****" ++ drop (length key - 4) key)

-- `MaskSensitiveData`
unfoldable pub mask_sensitive_data : Account → Account
mask_sensitive_data a = record a {
  api_key_encrypted =
      if not (is_empty a.api_key_encrypted) && ltb 8 (length a.api_key_encrypted)
      then stars_between a.api_key_encrypted
      else a.api_key_encrypted;
  oauth_data_encrypted =
      if is_empty a.oauth_data_encrypted then a.oauth_data_encrypted else codes "[ENCRYPTED]";
}

-- `MaskAPIKey`
unfoldable pub mask_api_key : Bytes → Bytes
mask_api_key [] = []
mask_api_key (c ∷ cs) =
    if leb (length (c ∷ cs)) 8 then replicate (length (c ∷ cs)) b'*' else stars_between (c ∷ cs)

-- `ValidateMetadataJSON`, where `is_json` is whether `json.Unmarshal` takes the text.
unfoldable pub validate_metadata_json : (Bytes → Bool) → Bytes → Result (Unit {0})
validate_metadata_json is_json [] =
    err (message "metadata cannot be empty string, use null (nil pointer) or valid JSON")
validate_metadata_json is_json (c ∷ cs) =
    if is_json (c ∷ cs) then ok tt else err (wrapped "invalid JSON metadata" (backend "json"))

-- `ParseMetadata`
unfoldable pub parse_metadata : Codec AccountMetadata → Option Bytes → Result AccountMetadata
parse_metadata codec none = ok empty_metadata
parse_metadata codec (some []) = ok empty_metadata
parse_metadata codec (some (c ∷ cs)) = parse codec (c ∷ cs)

module _ (codec : Codec AccountMetadata) (url_parse : Bytes → Option Url) where
  abbrev masked_text : Bytes → Result AccountMetadata → Bytes
  masked_text text (ok m) =
      if has_no_values m then text else to_text codec (mask_sensitive url_parse m)
  masked_text text (err e) = text
  masked_text text panic = text

  -- The masking of the metadata in `maskSensitiveFields`.
  unfoldable pub mask_metadata : Bytes → Bytes
  mask_metadata text = if is_empty text then text else masked_text text (parse codec text)

  -- `maskSensitiveFields`
  unfoldable pub mask_sensitive_fields : ProtoAccount → ProtoAccount
  mask_sensitive_fields a = record a {
    api_key_encrypted =
        if not (is_empty a.api_key_encrypted) && ltb 8 (length a.api_key_encrypted)
        then mask_api_key a.api_key_encrypted
        else a.api_key_encrypted;
    oauth_data_encrypted =
        if is_empty a.oauth_data_encrypted then a.oauth_data_encrypted else codes "[ENCRYPTED]";
    metadata = mask_metadata a.metadata;
  }

  -- `ToProto` and `maskSensitiveFields`, as every method returns an account.
  unfoldable pub masked_proto : Account → ProtoAccount
  masked_proto a = mask_sensitive_fields (to_proto a)

key_shown :
    (key : Bytes)
    → 8 < length key
    → (if not (is_empty key) && ltb 8 (length key) then mask_api_key key else key)
      ≡ stars_between key
unfolding mask_api_key
key_shown [] h = absurd (omega arith)
key_shown (c ∷ cs) h = rw (above, below) refl
  where
    above : ltb 8 (length (c ∷ cs)) ≡ true
    above = ground arith

    below : leb (length (c ∷ cs)) 8 ≡ false
    below = ground arith

oauth_shown :
    (b : Bytes) → b ≢ [] → (if is_empty b then b else codes "[ENCRYPTED]") ≡ codes "[ENCRYPTED]"
oauth_shown [] ne = absurd (ne refl)
oauth_shown (c ∷ cs) ne = refl

module _ (codec : Codec AccountMetadata) (url_parse : Bytes → Option Url) where
  -- Of an API key of more than 8 bytes, only the first and the last four are shown, and nothing of OAuth
  -- data that is not empty, or of the access, refresh and ID tokens: two accounts that differ in nothing
  -- else are shown alike.
  pub masked_proto_same :
      (a : Account) (key key' oauth oauth' access access' refresh refresh' token token' : Bytes)
      → 8 < length key
      → 8 < length key'
      → take 4 key ≡ take 4 key'
      → drop (length key - 4) key ≡ drop (length key' - 4) key'
      → oauth ≢ []
      → oauth' ≢ []
      → masked_proto codec url_parse (record a {
        api_key_encrypted = key;
        oauth_data_encrypted = oauth;
        access_token_encrypted = access;
        refresh_token_encrypted = refresh;
        id_token_encrypted = token;
      })
        ≡ masked_proto codec url_parse (record a {
          api_key_encrypted = key';
          oauth_data_encrypted = oauth';
          access_token_encrypted = access';
          refresh_token_encrypted = refresh';
          id_token_encrypted = token';
        })
  unfolding masked_proto mask_sensitive_fields to_proto
  masked_proto_same a key key' oauth oauth' access access' refresh refresh' token token' h h' first
        last ne ne' =
      rw
        (
          key_shown key h,
          key_shown key' h',
          first,
          last,
          oauth_shown oauth ne,
          oauth_shown oauth' ne',
        )
        refl
