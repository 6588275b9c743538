-- ===== src/Tests/Texts.antt =====
-- Classification of errors, masking of tokens, conversion of accounts.
use quota_lane.Prelude.{
  codes, ℕ, ◌≡◌, ◌≢◌, ◌↔◌, refl, true, false, some, List, String, length, arith,
}
use quota_lane.DbErrors.{contains, GoError, is_duplicate_key_error}
use quota_lane.DbErrors.Laws.{Occurs, contains_iff, is_duplicate_key_error_iff}
use quota_lane.Sanitize.{
  sanitize_token, sanitize_email, sanitize_field, starts_with, includes, any_keyword, split,
}
use quota_lane.Sanitize.Laws.{length-sanitize_token, sanitize_token_hides}
use quota_lane.Account.{codex_cli, other_provider}
use quota_lane.Account.Convert.{
  provider_to_proto, provider_from_proto, provider_from_proto-provider_to_proto,
}

contains_iff_example :
    (contains (codes "dial tcp: Connection refused") (codes "connection refused") ≡ true)
    ↔ Occurs (codes "dial tcp: Connection refused") (codes "connection refused")
contains_iff_example =
    contains_iff (codes "dial tcp: Connection refused") (codes "connection refused")

abbrev duplicate : GoError
duplicate = record {
  is_record_not_found = false;
  mysql_number = some 1062;
  message = codes "Duplicate entry";
}

is_duplicate_key_error_iff_example :
    (is_duplicate_key_error (some duplicate) ≡ true)
    ↔ ((duplicate.is_record_not_found ≡ false) × (duplicate.mysql_number ≡ some 1062))
is_duplicate_key_error_iff_example = is_duplicate_key_error_iff duplicate

abbrev key : List ℕ
key = codes "sk-ant-123456"

length-sanitize_token_example : length (sanitize_token key) ≡ length key
length-sanitize_token_example = length-sanitize_token key (ground arith)

sanitize_token_hides_example : sanitize_token key ≡ sanitize_token (codes "sk-axxxxx3456")
sanitize_token_hides_example = sanitize_token_hides key (codes "sk-axxxxx3456") refl refl refl

sanitize_field_of_email :
    sanitize_field (codes "User_Email") (codes "alice@x.io") ≡ codes "ali***@x.io"
unfolding sanitize_field sanitize_email split starts_with includes any_keyword
sanitize_field_of_email = refl

sanitize_field_of_key : sanitize_field (codes "API_Key") (codes "sk-ant-3456") ≡ codes "sk-a***3456"
unfolding sanitize_field sanitize_token starts_with includes any_keyword
sanitize_field_of_key = refl

sanitize_field_of_name : sanitize_field (codes "name") (codes "alice") ≡ codes "alice"
unfolding sanitize_field starts_with includes any_keyword
sanitize_field_of_name = refl

provider_from_proto-provider_to_proto_example :
    (provider_from_proto (provider_to_proto codex_cli) ≡ codex_cli)
    ↔ ((codex_cli ≢ codex_cli) × ((t : String) → codex_cli ≡ other_provider t → t ≡ ""))
provider_from_proto-provider_to_proto_example = provider_from_proto-provider_to_proto codex_cli
