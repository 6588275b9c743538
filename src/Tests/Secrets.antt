-- ===== src/Tests/Secrets.antt =====
-- Encryption, metadata and masking with small stand-ins for the libraries.
use quota_lane.Prelude.{
  ℕ, suc, ◌≤◌, ◌≡◌, ◌≢◌, ◌↔◌, refl, Bytes, codes, Bool, true, false, Option, none, some, [], ◌∷◌,
  ◌++◌, arith, All, length, length-replicate, replicate,
}
use quota_lane.Prelude.Int.{pos}
use quota_lane.Prelude.Effect.{ok, pure, wrap, attempt}
use quota_lane.Account.{Account, claude_official, active}
use quota_lane.Account.Convert.{proto_openai_responses}
use quota_lane.Account.Repo.{AccountRepo}
use quota_lane.Account.Usecase.{
  CreateAccountRequest, is_supported_provider, new_account, encrypt_credentials, create_account,
}
use quota_lane.Account.Usecase.Create.{Stored, create_account_lem}
use quota_lane.Account.Proto.{ProtoAccount, masked_proto, masked_proto_same}
use quota_lane.Cache.{Codec}
use quota_lane.Crypto.{Library, new_aes_crypto, encrypt, decrypt}
use quota_lane.Crypto.Laws.{IsCipher, decrypt-encrypt}
use quota_lane.Metadata.{AccountMetadata, Url, validate, mask_proxy_password}
use quota_lane.Metadata.Laws.{IsProxy, IsHttps, IsTag, validate_iff, mask_proxy_password_same}

-- Sealing puts the tag in front.
abbrev unsealed : Bytes → Option Bytes
unsealed [] = none
unsealed (c ∷ cs) = some cs

abbrev library : Library (Unit {0}) ℕ
library = record {
  new_cipher = λ key. some tt;
  new_gcm = λ block. some tt;
  nonce_size = λ gcm. 12;
  seal = λ gcm nonce plaintext. 7 ∷ plaintext;
  open_sealed = λ gcm nonce sealed. unsealed sealed;
  random = λ n s. (ok (replicate n s), suc s);
  encode_base64 = λ b. b;
  decode_base64 = λ b. some b;
}

library-IsCipher : IsCipher library
library-IsCipher = record {
  new_ok = λ key h. (tt, tt, refl, refl);
  open-seal = λ gcm nonce plaintext. refl;
  random_ok = λ n s s' nonce h. ground (arith, length-replicate n s, h);
  decode-encode = λ b. refl;
  encode_empty = λ b h. h;
  nonce_size_pos = λ gcm h. absurd (omega arith);
}

abbrev key : Bytes
key = replicate 32 5

accepted : new_aes_crypto key ≡ ok (record { key = key })
unfolding new_aes_crypto
accepted = refl

decrypt-encrypt_example :
    (t : Bytes) × ((encrypt library (record { key = key }) (codes "sk-1") 3).0 ≡ ok t)
    × ((u : ℕ) → decrypt library (record { key = key }) t u ≡ (ok (codes "sk-1"), u))
decrypt-encrypt_example =
    decrypt-encrypt library library-IsCipher key (record { key = key }) (codes "sk-1") 3 accepted
      λ n u. (replicate n u, refl)

abbrev proxy : Bytes → Url
proxy password = record {
  scheme = codes "socks5";
  user = some (record { username = codes "user"; password = some password });
  host = codes "proxy:1080";
  path = [];
  raw_query = [];
  fragment = [];
}

-- A text is read as the proxy with that password.
abbrev url_parse : Bytes → Option Url
url_parse b = some (proxy b)

abbrev metadata : AccountMetadata
metadata = record {
  proxy_url = codes "secret";
  proxy_enabled = true;
  region = [];
  tags = codes "production" ∷ [];
  notes = [];
  custom_base_url = [];
}

validate_iff_example : (validate url_parse metadata ≡ ok tt) ↔ (
    (metadata.proxy_url ≢ [] → IsProxy url_parse metadata.proxy_url)
    × (metadata.custom_base_url ≢ [] → IsHttps url_parse metadata.custom_base_url)
    × (length metadata.tags ≤ 10)
    × All IsTag metadata.tags
    × (length metadata.notes ≤ 500))
validate_iff_example = validate_iff url_parse metadata

mask_proxy_password_same_example :
    mask_proxy_password url_parse (codes "secret") ≡ mask_proxy_password url_parse (codes "other")
mask_proxy_password_same_example =
    mask_proxy_password_same url_parse (codes "secret") (codes "other") (proxy []) (codes "user")
      b's' b'o' (codes "ecret") (codes "ther") refl refl

abbrev no_metadata : Codec AccountMetadata
no_metadata = record { encode = λ m. none; decode = λ b. none }

abbrev account : Account
account = record {
  id = 1;
  name = "main";
  description = "";
  provider = claude_official;
  api_key_encrypted = [];
  base_api = "";
  oauth_data_encrypted = [];
  oauth_expires_at = none;
  access_token_encrypted = [];
  refresh_token_encrypted = [];
  token_expires_at = none;
  id_token_encrypted = [];
  organizations = "";
  rpm_limit = pos 60;
  tpm_limit = pos 10000;
  health_score = pos 80;
  is_circuit_broken = false;
  status = active;
  metadata = none;
  version = pos 4;
  circuit_broken_at = none;
  last_error = none;
  last_error_at = none;
  consecutive_errors = pos 0;
  created_at = 0;
  updated_at = 0;
}

masked_proto_same_example :
    masked_proto no_metadata url_parse (record account {
      api_key_encrypted = codes "abcdXXXX1234";
      oauth_data_encrypted = codes "o";
      access_token_encrypted = [];
      refresh_token_encrypted = codes "r";
      id_token_encrypted = codes "i";
    })
    ≡ masked_proto no_metadata url_parse (record account {
      api_key_encrypted = codes "abcdY1234";
      oauth_data_encrypted = codes "other";
      access_token_encrypted = codes "a";
      refresh_token_encrypted = [];
      id_token_encrypted = codes "j";
    })
masked_proto_same_example =
    masked_proto_same no_metadata url_parse account (codes "abcdXXXX1234") (codes "abcdY1234")
      (codes "o") (codes "other") [] (codes "a") (codes "r") [] (codes "i") (codes "j")
      (omega arith) (omega arith) refl refl (λ e. cc) (λ e. cc)

-- A repository that stores nothing.
abbrev repo : AccountRepo ℕ
repo = record {
  create_account = λ x. pure x;
  get_account = λ a. pure account;
  list_accounts = λ filter. pure ([], pos 0);
  update_account = λ x. pure x;
  delete_account = λ a. pure tt;
  list_expiring_accounts = λ t. pure [];
  list_accounts_by_provider = λ p s. pure [];
  list_codex_cli_accounts_needing_refresh = pure [];
  update_oauth_data = λ a b t. pure tt;
  update_health_score = λ a n. pure tt;
  update_account_status = λ a s. pure tt;
  list_accounts_by_tags = λ tags limit offset. pure [];
}

abbrev request : CreateAccountRequest
request = record {
  name = "main";
  provider = proto_openai_responses;
  api_key = codes "sk-1";
  oauth_data = [];
  rpm_limit = pos 60;
  tpm_limit = pos 0;
  metadata = [];
}

abbrev is_json : Bytes → Bool
is_json b = true

abbrev shown : ProtoAccount
shown =
    masked_proto no_metadata url_parse (record (new_account request none) {
      api_key_encrypted = replicate 12 3 ++ (7 ∷ codes "sk-1");
    })

created :
    create_account repo library (record { key = key }) no_metadata url_parse is_json request 3
    ≡ (ok shown, 4)
unfolding create_account is_supported_provider encrypt_credentials encrypt wrap attempt
created = refl

create_account_lem_example :
    (is_supported_provider proto_openai_responses ≡ true)
    × Stored repo library
        (record { key = key })
        no_metadata
        url_parse
        is_json
        library-IsCipher
        key
        accepted
        (λ n u. (replicate n u, refl))
        request
        shown
        4
create_account_lem_example =
    create_account_lem repo library (record { key = key }) no_metadata url_parse is_json
      library-IsCipher key accepted (λ n u. (replicate n u, refl)) request shown 3 4 created
