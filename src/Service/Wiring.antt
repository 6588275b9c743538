-- ===== src/Service/Wiring.antt =====
-- internal/biz/account.go: `AccountUsecase` as the service sees it, made of its methods.
use quota_lane.Prelude.{Bytes, Bool, Option}
use quota_lane.Account.Health.{HealthServices, validate_openai_responses_account}
use quota_lane.Account.Refresh.{Services, refresh_claude_token}
use quota_lane.Account.Usecase.{
  create_account, list_accounts, get_account, update_account, delete_account,
  reset_health_score_by_admin, get_accounts_by_tags,
}
use quota_lane.CircuitBreaker.Domain.{CircuitBreakerRepo, Env}
use quota_lane.Metadata.{Url}
use quota_lane.Service.Accounts.{AccountUsecase}

-- The repository, the encryption and the metadata are those of `refreshing`.
unfoldable pub account_usecase :
    {C S : Type 0}
    → (Bytes → Option Url)
    → (Bytes → Bool)
    → CircuitBreakerRepo S
    → Env S
    → Services C S
    → HealthServices C S
    → AccountUsecase S
account_usecase url_parse is_json breaker env refreshing health =
    let repo = refreshing.repo in
    let lib = refreshing.lib in
    let aes = refreshing.aes in
    let codec = refreshing.metadata_codec in
    record {
      create_account = create_account repo lib aes codec url_parse is_json;
      list_accounts = list_accounts repo lib aes codec url_parse is_json;
      get_account = get_account repo lib aes codec url_parse is_json;
      update_account = update_account repo lib aes codec url_parse is_json;
      delete_account = delete_account repo lib aes codec url_parse is_json;
      refresh_claude_token = refresh_claude_token refreshing;
      validate_openai_responses_account = validate_openai_responses_account health;
      reset_health_score_by_admin =
          reset_health_score_by_admin repo lib aes codec url_parse is_json breaker env;
      get_accounts_by_tags = get_accounts_by_tags repo lib aes codec url_parse is_json;
    }
