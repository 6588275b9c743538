-- ===== src/Tests/Services.antt =====
-- Runs of the methods of `AccountService`.
use quota_lane.Prelude.{◌↔◌, ◌+◌, ℕ, ◌≡◌, refl, none, some, [], ◌∷◌, true, false, String, Option}
use quota_lane.Prelude.Int.{IsInt32, pos, negsuc}
use quota_lane.Prelude.Effect.{read, attempt, wrap, ok, message, pure, fail}
use quota_lane.Account.Convert.{
  ProtoProvider, proto_claude_console, proto_openai_responses, proto_gemini, account_active,
}
use quota_lane.Account.Proto.{ProtoAccount}
use quota_lane.AccountGroup.{
  check_accounts, update_account_group, get_account_group, check_name, is_taken_by_other,
  AccountGroup,
}
use quota_lane.AccountGroup.Memory.{set_group, Directory, memory_groups, memory_accounts}
use quota_lane.Service.{answer, response}
use quota_lane.Service.Accounts.{
  AccountUsecase, TestAccountResponse, said, said_of, said_of_provider, untested, test_account,
  tested, response_time,
}
use quota_lane.Service.Checks.{IsCalm, check_of, test_account_iff}
use quota_lane.Service.Groups.{update_group, clamp_score}

clamp_score_below : clamp_score (negsuc 4) ≡ pos 0
unfolding clamp_score
clamp_score_below = refl

response_time_capped : response_time 3000000000 ≡ pos 2147483647
unfolding response_time
response_time_capped = refl

abbrev shown : ProtoProvider → ProtoAccount
shown provider = record {
  id = 4;
  name = "x";
  provider = provider;
  api_key_encrypted = [];
  oauth_data_encrypted = [];
  rpm_limit = pos 0;
  tpm_limit = pos 0;
  health_score = pos 70;
  is_circuit_broken = false;
  status = account_active;
  metadata = [];
  created_at = 0;
  updated_at = 0;
  oauth_expires_at = none;
}

-- A use case whose only account has the provider, and whose refresh fails. The state is the time in
-- nanoseconds.
abbrev usecase : ProtoProvider → AccountUsecase ℕ
usecase provider = record {
  create_account = λ req. pure (shown provider);
  list_accounts = λ req. fail (message "not listed");
  get_account = λ id t. (ok (shown provider), t + 5000000);
  update_account = λ req. pure (shown provider);
  delete_account = λ id. pure tt;
  refresh_claude_token = λ id. fail (message "refused");
  validate_openai_responses_account = λ id. pure tt;
  reset_health_score_by_admin = λ id. pure (shown provider);
  get_accounts_by_tags = λ tags limit offset. pure (shown provider ∷ []);
}

test_account_of_claude : test_account (usecase proto_claude_console) (λ t. t) 4 100 ≡ (
  ok (
      response (record {
        success = false;
        message = said_of "Claude account test failed" (message "refused");
        health_score = pos 70;
        response_time_ms = pos 10;
      })),
  10000100,
)
unfolding test_account tested response_time read attempt
test_account_of_claude = refl

test_account_of_gemini :
    test_account (usecase proto_gemini) (λ t. t) 4 100
    ≡ (ok (response (untested (said_of_provider "该账户类型暂不支持健康检查" proto_gemini))), 5000100)
unfolding test_account read attempt
test_account_of_gemini = refl

abbrev backup : AccountGroup
backup = record {
  id = 4;
  name = "backup";
  description = "spare";
  priority = pos 3;
  account_ids = [];
  created_at = 0;
  updated_at = 0;
}

abbrev directory : Directory
directory = record { groups = backup ∷ []; accounts = λ _. none; listed = [] }

abbrev renamed : Option AccountGroup → String
renamed none = "no group"
renamed (some g) = g.name

-- A request that only sets the priority takes the group's name away.
update_group_priority :
    update_group memory_groups memory_accounts
      (λ _. 0)
      (record {
        id = 4;
        name = none;
        description = none;
        priority = some (pos 5);
        account_ids = [];
      })
      directory
    ≡ (
      ok (response (record backup { name = ""; description = ""; priority = pos 5 })),
      record directory {
        groups = record backup { name = ""; description = ""; priority = pos 5 } ∷ [];
      },
    )
unfolding update_group answer wrap attempt update_account_group check_name is_taken_by_other
    check_accounts get_account_group set_group
update_group_priority = refl

test_account_of_openai : test_account (usecase proto_openai_responses) (λ t. t) 4 100 ≡ (
  ok (
      response (record {
        success = true;
        message = said "OpenAI Responses account test passed";
        health_score = pos 70;
        response_time_ms = pos 10;
      })),
  10000100,
)
unfolding test_account tested response_time read attempt
test_account_of_openai = refl

calm : IsCalm (usecase proto_claude_console) (λ t. t)
calm = (λ id s e. cc, λ id s e. cc, λ id s e. cc)

test_account_iff_example :
    (r : TestAccountResponse) × ((test_account (usecase proto_claude_console) (λ t. t) 4 100).0
      ≡ ok (response r))
    × ((r.success ≡ true) ↔ (
        (x : ProtoAccount) × (((usecase proto_claude_console).get_account 4 100).0 ≡ ok x)
        × (check_of
              (usecase proto_claude_console)
              (λ t. t)
              x.provider
              4
              ((usecase proto_claude_console).get_account 4 100).1
            ≡ some (ok tt))))
    × IsInt32 r.response_time_ms
test_account_iff_example = test_account_iff (usecase proto_claude_console) (λ t. t) calm 4 100
