-- ===== src/Tests/Flows.antt =====
-- OAuth sessions, groups and token refresh at concrete inputs.
use quota_lane.Prelude.{
  All, ℕ, suc, ◌≡◌, ◌≢◌, ◌↔◌, refl, codes, Bool, none, some, List, [], ◌∷◌, inl, inr,
}
use quota_lane.Prelude.Int.{pos}
use quota_lane.Prelude.Effect.{
  message, wrapped, backend, record_not_found, Result, ok, err, panic, M, pure, fail, wrap, attempt,
  ignore, read, Result-cases,
}
use quota_lane.Account.{Account, claude_official, active}
use quota_lane.Account.Refresh.{Services, all_failed, auto_refresh_tokens, refresh_claude_token}
use quota_lane.Account.Refresh.Counts.{outcomes, Failed, Ended, auto_refresh_tokens_iff}
use quota_lane.Account.Repo.{AccountRepo}
use quota_lane.AccountGroup.{AccountGroup}
use quota_lane.AccountGroup.Store
use quota_lane.AccountGroup.Store.{
  GroupTables, GroupRow, or_unknown, insert_group, create_group, replace_group, update_group,
  get_group, load_group, cache_group,
}
use quota_lane.AccountGroup.Store.Laws.{IsTransactional, create_group_failed, update_group_failed}
use quota_lane.Cache.{Codec}
use quota_lane.OAuth.{
  OAuthSession, OAuthProvider, ExtendedTokenResponse, Registry, get_provider, load_session,
  delete_session, exchange_code,
}
use quota_lane.OAuth.Session.{exchange_code_once}
use quota_lane.Redis.{oauth_session, text}
use quota_lane.Redis.Memory.{Memory, empty, put, memory_redis, memory_view, memory_redis-IsLawful}
use quota_lane.World.{World}

abbrev session : OAuthSession
session = record {
  provider = claude_official;
  code_verifier = codes "v";
  state = codes "s";
  device_code = [];
  proxy_url = [];
  redirect_uri = [];
  created_at = 3;
  metadata = [];
}

abbrev tokens : ExtendedTokenResponse
tokens = record {
  access_token = codes "a";
  refresh_token = codes "r";
  id_token = [];
  expires_in = 3600;
  scopes = [];
  organizations = [];
  account_id = [];
  provider = claude_official;
}

-- A provider that takes every code.
abbrev provider : OAuthProvider Memory
provider = record {
  provider_type = claude_official;
  generate_auth_url = λ params. fail (backend "unused");
  exchange_code = λ code s. pure tokens;
  refresh_token = λ token metadata. pure tokens;
  validate_token = λ token metadata. pure tt;
}

abbrev registry : Registry Memory
registry = (claude_official, provider) ∷ []

abbrev session_codec : Codec OAuthSession
session_codec = record { encode = λ s. none; decode = λ b. some session }

abbrev signed_in : Memory
signed_in = record empty { strings = put empty.strings (oauth_session "id") (some (text [])) }

exchanged :
    exchange_code registry memory_redis session_codec "id" (codes "c") signed_in
    ≡ (ok tokens, (exchange_code registry memory_redis session_codec "id" (codes "c") signed_in).1)
unfolding exchange_code get_provider load_session delete_session wrap ignore attempt
exchanged = refl

exchange_code_once_example :
    (exchange_code registry memory_redis session_codec "id"
      (codes "d")
      (exchange_code registry memory_redis session_codec "id" (codes "c") signed_in).1).0
    ≡ err (wrapped "failed to load session" (message "session not found or expired: %s"))
exchange_code_once_example =
    exchange_code_once registry memory_redis session_codec memory_view memory_redis-IsLawful "id"
      (codes "c") (codes "d") tokens signed_in
      (exchange_code registry memory_redis session_codec "id" (codes "c") signed_in).1
      (memory_view.stored
        (exchange_code registry memory_redis session_codec "id" (codes "c") signed_in).1
        (oauth_session "id"))
      (λ u. refl) exchanged refl

-- Tables that count the rows that were written; members are refused.
abbrev rolled_back : {A : Type 0} → ℕ → Result A × ℕ → Result A × ℕ
rolled_back d (ok a, d') = (ok a, d')
rolled_back d (err e, d') = (err e, d)
rolled_back d (panic, d') = (panic, d)

abbrev members_of : List ℕ → M ℕ (Unit {0})
members_of [] d = (ok tt, d)
members_of (a ∷ rest) d = (err (backend "foreign key"), suc d)

abbrev group_row : GroupRow
group_row = record {
  id = 4;
  name = "backup";
  description = "";
  priority = pos 1;
  created_at = 0;
  updated_at = 0;
}

abbrev tables : GroupTables ℕ
tables = record {
  transaction = λ m d. rolled_back d (m d);
  create_group = λ name description priority d. (ok group_row, suc d);
  create_members = λ id account_ids d. members_of account_ids d;
  first_group = λ id d. (ok group_row, d);
  find_members = λ id d. (ok (1 ∷ []), d);
  count_groups = λ d. (ok 1, d);
  find_groups = λ limit offset d. (ok (group_row ∷ []), d);
  update_group = λ id name description priority t d. (ok tt, suc d);
  delete_members = λ id d. (ok tt, suc d);
  delete_group = λ id t d. (ok tt, suc d);
  find_groups_of = λ a d. (ok (group_row ∷ []), d);
  find_grouped_ids = λ d. (ok (1 ∷ []), d);
}

tables-IsTransactional : IsTransactional tables
tables-IsTransactional = record {
  rollback = λ m d h. elim (Result-cases (m d)) [
    | inl (a, e) ↦ absurd (h a (rw e refl))
    | inr (inl (g, e)) ↦ rw e refl
    | inr (inr e) ↦ rw e refl
  ];
  first_group_same = λ id d. refl;
  find_members_same = λ id d. refl;
}

abbrev group_codec : Codec AccountGroup
group_codec = record { encode = λ g. none; decode = λ b. none }

abbrev id_codec : Codec (List ℕ)
id_codec = record { encode = λ g. some g; decode = λ b. some b }

abbrev nowhere : World ℕ Memory
nowhere = record { table = 0; redis = empty }

abbrev clock : World ℕ Memory → ℕ
clock w = 5

abbrev created : Result ℕ × World ℕ Memory
created =
    create_group tables (some memory_redis) group_codec id_codec clock "new" "" (pos 1) (0 ∷ [])
      nowhere

created_fails : created ≡ (err (Store.unknown_error "创建账户组成员失败"), created.1)
unfolding create_group insert_group or_unknown
created_fails = refl

create_group_failed_example : created.1.table ≡ 0
create_group_failed_example =
    create_group_failed tables (some memory_redis) group_codec id_codec clock tables-IsTransactional
      "new" "" (pos 1) (0 ∷ []) (Store.unknown_error "创建账户组成员失败") nowhere created.1 created_fails

abbrev updated : Result (Unit {0}) × World ℕ Memory
updated =
    update_group tables (some memory_redis) group_codec id_codec clock 4 "new" "" (pos 1) (0 ∷ [])
      nowhere

updated_fails : updated ≡ (err (Store.unknown_error "创建新成员失败"), updated.1)
unfolding update_group replace_group or_unknown get_group load_group cache_group attempt read
updated_fails = refl

update_group_failed_example : updated.1.table ≡ 0
update_group_failed_example =
    update_group_failed tables (some memory_redis) group_codec id_codec clock tables-IsTransactional
      4 "new" "" (pos 1) (0 ∷ []) (Store.unknown_error "创建新成员失败") nowhere updated.1 updated_fails

-- Accounts that are never found.
abbrev no_accounts : List Account → AccountRepo ℕ
no_accounts listed = record {
  create_account = λ x. fail (backend "unused");
  get_account = λ a. fail record_not_found;
  list_accounts = λ filter. pure ([], pos 0);
  update_account = λ x. fail (backend "unused");
  delete_account = λ a. pure tt;
  list_expiring_accounts = λ t. pure listed;
  list_accounts_by_provider = λ p s. pure [];
  list_codex_cli_accounts_needing_refresh = pure [];
  update_oauth_data = λ a b t. pure tt;
  update_health_score = λ a n. pure tt;
  update_account_status = λ a s. pure tt;
  list_accounts_by_tags = λ tags limit offset. pure [];
}

abbrev expiring : Account
expiring = record {
  id = 1;
  name = "main";
  description = "";
  provider = claude_official;
  api_key_encrypted = [];
  base_api = "";
  oauth_data_encrypted = [];
  oauth_expires_at = none;
  access_token_encrypted = [];
  refresh_token_encrypted = [];
  token_expires_at = none;
  id_token_encrypted = [];
  organizations = "";
  rpm_limit = pos 60;
  tpm_limit = pos 10000;
  health_score = pos 80;
  is_circuit_broken = Bool.false;
  status = active;
  metadata = none;
  version = pos 4;
  circuit_broken_at = none;
  last_error = none;
  last_error_at = none;
  consecutive_errors = pos 0;
  created_at = 0;
  updated_at = 0;
}

abbrev services : Services (Unit {0}) ℕ
services = record {
  repo = no_accounts (expiring ∷ []);
  lib = record {
    new_cipher = λ b. none;
    new_gcm = λ c. none;
    nonce_size = λ c. 12;
    seal = λ c n p. p;
    open_sealed = λ c n b. none;
    random = λ n. pure [];
    encode_base64 = λ b. b;
    decode_base64 = λ b. none;
  };
  aes = record { key = [] };
  metadata_codec = record { encode = λ m. none; decode = λ b. none };
  oauth_codec = record { encode = λ m. none; decode = λ b. none };
  providers = [];
  client = none;
  now = λ s. s;
  alert_message = λ id name n e. [];
}

one_failure : All Ended (outcomes services (expiring ∷ []) 7)
unfolding refresh_claude_token wrap attempt
one_failure = (tt, tt)

auto_refresh_tokens_iff_example :
    ((auto_refresh_tokens services 7).0 ≡ err all_failed)
    ↔ ((expiring ∷ [] ≢ []) × All Failed (outcomes services (expiring ∷ []) 7))
auto_refresh_tokens_iff_example =
    auto_refresh_tokens_iff services (expiring ∷ []) 7 7 refl one_failure
