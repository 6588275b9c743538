-- ===== src/Account/Conditions.antt =====
-- internal/data/account.go: the conditions of the queries of `AccountRepo`, and its pages.
use quota_lane.Prelude.{
  ℕ, ◌-◌, ◌*◌, Bytes, codes, str_eq, Bool, true, false, not, ◌&&◌, ◌||◌, Option, none, some, List,
  [], ◌∷◌, ◌++◌, leb, ltb, if◌then◌else◌,
}
use quota_lane.Prelude.Int.{ℤ, pos, pos_part, int32, ltb_ℤ}
use quota_lane.Prelude.Effect.{
  Error, message, wrapped, backend, database, record_not_found, rate_limit_exceeded,
}
use quota_lane.Account.{
  Account, AccountProvider, claude_official, claude_console, bedrock, ccr, droid, gemini,
  openai_responses, codex_cli, azure_openai, other_provider, AccountStatus, created, active,
  inactive, error, other_status,
}
use quota_lane.Account.Repo.{AccountFilter}

-- Equality of the texts that providers and statuses are.
abbrev pub same_provider : AccountProvider → AccountProvider → Bool
same_provider claude_official claude_official = true
same_provider claude_console claude_console = true
same_provider bedrock bedrock = true
same_provider ccr ccr = true
same_provider droid droid = true
same_provider gemini gemini = true
same_provider openai_responses openai_responses = true
same_provider codex_cli codex_cli = true
same_provider azure_openai azure_openai = true
same_provider (other_provider t) (other_provider u) = str_eq t u
same_provider _ _ = false

abbrev pub same_status : AccountStatus → AccountStatus → Bool
same_status created created = true
same_status active active = true
same_status inactive inactive = true
same_status error error = true
same_status (other_status t) (other_status u) = str_eq t u
same_status _ _ = false

-- The conditions of the queries.
abbrev pub is_before : Option ℕ → ℕ → Bool
is_before none t = false
is_before (some u) t = ltb u t

abbrev pub is_at_most : Option ℕ → ℕ → Bool
is_at_most none t = false
is_at_most (some u) t = leb u t

abbrev pub matches_filter : AccountFilter → Account → Bool
matches_filter filter x =
    (same_provider filter.provider (other_provider "") || same_provider x.provider filter.provider)
    && (if same_status filter.status (other_status "")
        then not (same_status x.status inactive)
        else same_status x.status filter.status)

abbrev pub is_expiring : ℕ → Account → Bool
is_expiring threshold x =
    (same_provider x.provider claude_official || same_provider x.provider claude_console)
    && same_status x.status active
    && is_at_most x.oauth_expires_at threshold

abbrev pub needs_refresh : ℕ → Account → Bool
needs_refresh threshold x =
    same_provider x.provider codex_cli
    && same_status x.status active
    && is_before x.token_expires_at threshold

-- `GREATEST(0, LEAST(100, ?))`
unfoldable pub sql_clamp : ℤ → ℤ
sql_clamp n =
    let least = if ltb_ℤ n (pos 100) then n else pos 100 in
    if ltb_ℤ least (pos 0) then pos 0 else least

-- The page, its size, and the offset, which is an int32 product.
abbrev pub page_of : ℤ → ℤ
page_of page = if ltb_ℤ page (pos 1) then pos 1 else page

abbrev pub page_size_of : ℤ → ℤ
page_size_of n =
    let at_least = if ltb_ℤ n (pos 1) then pos 20 else n in
    if ltb_ℤ (pos 100) at_least then pos 100 else at_least

abbrev pub offset_of : ℤ → ℤ → ℤ
offset_of page size = int32 (pos ((pos_part page - 1) * pos_part size))

abbrev pub first_page : Option AccountFilter → AccountFilter
first_page none = record {
  page = pos 1;
  page_size = pos 20;
  provider = other_provider "";
  status = other_status "";
}
first_page (some filter) = filter

-- `errors.Is(err, gorm.ErrRecordNotFound)`
abbrev pub is_not_found : Error → Bool
is_not_found record_not_found = true
is_not_found (wrapped note e) = is_not_found e
is_not_found (message t) = false
is_not_found (backend t) = false
is_not_found (database e) = false
is_not_found (rate_limit_exceeded k m n t) = false

abbrev pub any_row : Account → Bool
any_row _ = true

-- The condition on each tag: `JSON_CONTAINS(metadata->'$.tags', '["tag"]')`.
abbrev pub tag_json : Bytes → Bytes
tag_json tag = codes "[\"" ++ (tag ++ codes "\"]")

unfoldable pub has_tags : (Option Bytes → Bytes → Bool) → List Bytes → Account → Bool
has_tags json_contains [] x = true
has_tags json_contains (tag ∷ tags) x =
    let rest = has_tags json_contains tags x in json_contains x.metadata (tag_json tag) && rest

abbrev pub clip_total : ℕ → ℤ
clip_total total = if ltb 2147483647 total then pos 2147483647 else pos total
