-- ===== src/Tests/Accounts.antt =====
-- The repository of accounts over rows and a Redis in memory.
use quota_lane.Prelude.{
  ℕ, ◌≤◌, ◌≡◌, ◌≢◌, refl, Bytes, Bool, true, false, Option, none, some, List, [], ◌∷◌, ◌==◌, arith,
  All, length, Bool-cases, Option-cases, inl, inr,
}
use quota_lane.Prelude.Int.{ℤ, pos, IsInt32, ◌≤ℤ◌}
use quota_lane.Prelude.Effect.{Error, message, ok, err, panic, pure, wrap, attempt, ignore, read}
use quota_lane.Prelude.Hoare.{Holds}
use quota_lane.Account.{Account, openai_responses, active, inactive, AccountStatus}
use quota_lane.Account.Bounds.{list_accounts_lem, update_health_score_lem}
use quota_lane.Account.Coherence.{IsCoherent, IsReliable}
use quota_lane.Account.Coherence.Calls.{
  Call, get_one, set_status, set_health_score, perform_all, perform_all-IsCoherent,
  get_account-perform_all,
}
use quota_lane.Account.Health.{HealthServices, handle_validation_failure}
use quota_lane.Account.Health.Stale.{IsUp, validation_failure_lem}
use quota_lane.Account.Repo.{AccountRepo}
use quota_lane.Account.Conditions.{sql_clamp, matches_filter, first_page}
use quota_lane.Account.Store.{list_accounts, update_health_score, new_account_repo, clear_cache}
use quota_lane.Cache
use quota_lane.Cache.{Codec}
use quota_lane.Cache.Laws.{IsCodec}
use quota_lane.Database.Rows.{
  Rows, row_in, put_row, rows_database, rows_queries, rows_database-IsLawful,
  rows_queries-IsQueryLawful,
}
use quota_lane.DbErrors.{GoError}
use quota_lane.Redis.{Key, account_cache, int, text}
use quota_lane.Redis.Memory.{Memory, empty, put, memory_redis, memory_view, memory_redis-IsLawful}
use quota_lane.World.{World, redis_on_world}

abbrev account : ℤ → AccountStatus → Account
account score status = record {
  id = 1;
  name = "main";
  description = "";
  provider = openai_responses;
  api_key_encrypted = [];
  base_api = "";
  oauth_data_encrypted = [];
  oauth_expires_at = none;
  access_token_encrypted = [];
  refresh_token_encrypted = [];
  token_expires_at = none;
  id_token_encrypted = [];
  organizations = "";
  rpm_limit = pos 60;
  tpm_limit = pos 10000;
  health_score = score;
  is_circuit_broken = false;
  status = status;
  metadata = none;
  version = pos 4;
  circuit_broken_at = none;
  last_error = none;
  last_error_at = none;
  consecutive_errors = pos 0;
  created_at = 0;
  updated_at = 0;
}

-- The cached text is the account with 80 points; nothing else is written to the cache.
abbrev codec : Codec Account
codec = record { encode = λ x. none; decode = λ b. some (account (pos 80) active) }

codec-IsCodec : IsCodec codec
codec-IsCodec = record { decode-encode = λ x b e. absurd (ground arith) }

abbrev cached_redis : Memory
cached_redis = record empty { strings = put empty.strings (account_cache 1) (some (text [])) }

abbrev world : World Rows Memory
world = record { table = (1, account (pos 80) active) ∷ []; redis = cached_redis }

abbrev as_error : Error → GoError
as_error e = record { is_record_not_found = false; mysql_number = none; message = [] }

abbrev contains : Option Bytes → Bytes → Bool
contains m b = false

abbrev clock : World Rows Memory → ℕ
clock w = 5

world_row : row_in world.table 1 ≡ some (account (pos 80) active)
unfolding row_in
world_row = refl

world-IsCoherent : IsCoherent codec row_in memory_view world
unfolding row_in
world-IsCoherent a x h = elim (Bool-cases (1 == a)) [
  | inl e ↦ ground (arith, h)
  | inr e ↦ absurd (ground (arith, h))
]

rows-IsReliable : IsReliable rows_database rows_queries memory_redis row_in
rows-IsReliable = record {
  del_up = λ k s. refl;
  update_failed = λ a test f d h. elim (Option-cases (row_in d a)) [
    | inl e ↦ absurd (h 0 (rw e refl))
    | inr (x, e) ↦ elim (Bool-cases (test x)) [
      | inl t ↦ absurd (h 1 (rw (e, t) refl))
      | inr t ↦ absurd (h 0 (rw (e, t) refl))
    ]
  ];
  save_failed = λ x d h. absurd (h refl);
}

-- The account is made inactive, and read again.
abbrev calls : List Call
calls = get_one 1 ∷ set_health_score 1 (pos 130) ∷ set_status 1 inactive ∷ []

abbrev repo : AccountRepo (World Rows Memory)
repo = new_account_repo rows_database rows_queries (some memory_redis) codec as_error contains clock

perform_all-IsCoherent_example : IsCoherent codec row_in memory_view (perform_all repo calls world)
perform_all-IsCoherent_example =
    perform_all-IsCoherent rows_database rows_queries memory_redis codec as_error contains clock
      row_in memory_view rows_database-IsLawful rows_queries-IsQueryLawful memory_redis-IsLawful
      codec-IsCodec rows-IsReliable calls world world-IsCoherent

get_account-perform_all_example :
    Holds
      (λ x. row_in (perform_all repo calls world).table 1 ≡ some x)
      (repo.get_account 1 (perform_all repo calls world)).0
get_account-perform_all_example =
    get_account-perform_all rows_database rows_queries memory_redis codec as_error contains clock
      row_in memory_view rows_database-IsLawful rows_queries-IsQueryLawful memory_redis-IsLawful
      codec-IsCodec rows-IsReliable calls 1 world world-IsCoherent

incr_answers : (k : Key) (s : Memory) → (memory_redis.incr k s).0 ≢ panic
incr_answers k s h = elim (Option-cases (s.strings k)) [
  | inl e ↦ absurd (ground (arith, rw e at h))
  | inr (int n, e) ↦ absurd (ground (arith, rw e at h))
  | inr (text b, e) ↦ absurd (ground (arith, rw e at h))
]

rows-IsUp : IsUp rows_database rows_queries memory_redis row_in
rows-IsUp = record {
  del_up = λ k s. refl;
  incr_up = incr_answers;
  set_up = λ k x t s. refl;
  update_up = λ a f d h. elim (Option-cases (row_in d a)) [
    | inl e ↦ absurd (h e)
    | inr (x, e) ↦ (0, rw e refl)
  ];
  save_up = λ x d. refl;
}

list_accounts_lem_example :
    Holds
      (λ (r : List Account × ℤ).
        (length r.0 ≤ 100)
        × All (λ x. matches_filter (first_page none) x ≡ true) r.0
        × IsInt32 r.1
        × (pos 0 ≤ℤ r.1))
      (list_accounts rows_database rows_queries
        (some memory_redis)
        codec
        as_error
        contains
        clock
        none
        world).0
list_accounts_lem_example =
    list_accounts_lem rows_database rows_queries (some memory_redis) codec as_error contains clock
      row_in rows_database-IsLawful rows_queries-IsQueryLawful none world

-- A score of 130 is stored as 100.
score_stored :
    update_health_score rows_database rows_queries
      (some memory_redis)
      codec
      as_error
      contains
      clock
      1
      (pos 130)
      world
    ≡ (
      ok tt,
      (update_health_score rows_database rows_queries
          (some memory_redis)
          codec
          as_error
          contains
          clock
          1
          (pos 130)
          world).1,
    )
unfolding update_health_score wrap read clear_cache ignore attempt Cache.delete row_in put_row
score_stored = refl

update_health_score_lem_example :
    (x : Account) × (row_in world.table 1 ≡ some x)
    × (row_in
          (update_health_score rows_database rows_queries
            (some memory_redis)
            codec
            as_error
            contains
            clock
            1
            (pos 130)
            world).1.table
          1
        ≡ some (record x { health_score = sql_clamp (pos 130); updated_at = 5 }))
    × (pos 0 ≤ℤ sql_clamp (pos 130))
    × (sql_clamp (pos 130) ≤ℤ pos 100)
    × (pos 0 ≤ℤ pos 130 → pos 130 ≤ℤ pos 100 → sql_clamp (pos 130) ≡ pos 130)
update_health_score_lem_example =
    update_health_score_lem rows_database rows_queries (some memory_redis) codec as_error contains
      clock row_in rows_database-IsLawful rows_queries-IsQueryLawful 1 (pos 130) world
      (update_health_score rows_database rows_queries (some memory_redis) codec as_error contains
        clock 1 (pos 130) world).1
      score_stored

-- No provider is called and nothing is encrypted in these runs.
abbrev services : HealthServices Unit (World Rows Memory)
services = record {
  repo = repo;
  lib = record {
    new_cipher = λ b. none;
    new_gcm = λ c. none;
    nonce_size = λ c. 12;
    seal = λ c n p. p;
    open_sealed = λ c n b. none;
    random = λ n. pure [];
    encode_base64 = λ b. b;
    decode_base64 = λ b. none;
  };
  aes = record { key = [] };
  providers = [];
  rdb = redis_on_world memory_redis;
  now = clock;
  proxy_of = λ b. none;
  base_text = λ t. [];
  error_text = λ e. "";
  scan_code = λ t format. none;
  error_record_json = λ r. "";
  alert_text = λ x n. [];
}

abbrev refused : Error
refused = message "invalid API key (HTTP 401)"

-- An account with 80 points fails its check: it still has 80 points and is still active.
validation_failure_lem_example :
    (w' : World Rows Memory) × (handle_validation_failure services
        (account (pos 80) active)
        refused
        world
      ≡ (err refused, w'))
    × ((y : Account) × (row_in w'.table 1 ≡ some y)
        × (y.health_score ≡ pos 80)
        × (y.status ≡ active))
validation_failure_lem_example =
    validation_failure_lem rows_database rows_queries memory_redis codec as_error contains clock
      row_in rows_database-IsLawful rows_queries-IsQueryLawful rows-IsUp services
      (account (pos 80) active) refused world world_row
