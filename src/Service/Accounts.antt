-- ===== src/Service/Accounts.antt =====
-- internal/service/account.go: the methods about accounts, over `AccountUsecase`. The key that
-- `TestAccount` shortens at its end is in no answer, and left out.
use quota_lane.Prelude.{
  ℕ, ◌+◌, ◌-◌, ◌/◌, Bytes, String, Bool, true, false, Option, none, List, length, ◌==◌, ltb,
  if◌then◌else◌,
}
use quota_lane.Prelude.Int.{ℤ, pos, pos_part, neg_part, int32, ltb_ℤ}
use quota_lane.Prelude.Effect.{
  Error, Result, ok, err, panic, M, pure, panics, ◌>>=◌, ◌>>◌, wrap, attempt, read,
}
use quota_lane.Account.Convert.{
  ProtoProvider, proto_openai_responses, proto_claude_console, proto_claude_official,
}
use quota_lane.Account.Proto.{ProtoAccount}
use quota_lane.Account.Usecase.{
  CreateAccountRequest, UpdateAccountRequest, ListAccountsRequest, ListAccountsResponse,
}
use quota_lane.Service.{Answer, response, answer, answer_as_is}

-- The methods of `AccountUsecase` that the service calls. `get_accounts_by_tags` takes the tags, the
-- limit and the offset.
pub record AccountUsecase (S : Type 0) : Type 0 where
  pub create_account : CreateAccountRequest → M S ProtoAccount
  pub list_accounts : ListAccountsRequest → M S ListAccountsResponse
  pub get_account : ℕ → M S ProtoAccount
  pub update_account : UpdateAccountRequest → M S ProtoAccount
  pub delete_account : ℕ → M S (Unit {0})
  pub refresh_claude_token : ℕ → M S (Unit {0})
  pub validate_openai_responses_account : ℕ → M S (Unit {0})
  pub reset_health_score_by_admin : ℕ → M S ProtoAccount
  pub get_accounts_by_tags : List Bytes → ℤ → ℤ → M S (List ProtoAccount)

-- The message of a response: a text, a text with an error, or a text with a provider.
pub data Message : Type 0 where
  said : String → Message
  said_of : String → Error → Message
  said_of_provider : String → ProtoProvider → Message

pub record DeleteAccountResponse : Type 0 where
  pub success : Bool
  pub message : String

pub record RefreshTokenResponse : Type 0 where
  pub success : Bool
  pub message : String
  pub expires_at : Option ℕ

pub record TestAccountResponse : Type 0 where
  pub success : Bool
  pub message : Message
  pub health_score : ℤ
  pub response_time_ms : ℤ

pub record ListAccountsByTagsResponse : Type 0 where
  pub accounts : List ProtoAccount
  pub total : ℤ

-- The answer of `TestAccount` where nothing was tested.
abbrev pub untested : Message → TestAccountResponse
untested text = record {
  success = false;
  message = text;
  health_score = pos 0;
  response_time_ms = pos 0;
}

unfoldable pub response_time : ℕ → ℤ
response_time ms = if ltb 2147483647 ms then pos 2147483647 else pos ms

-- `testErr == nil`, and the message of each case.
abbrev pub is_ok : {A : Type 0} → Result A → Bool
is_ok (ok a) = true
is_ok (err e) = false
is_ok panic = false

abbrev pub report : String → String → Result (Unit {0}) → Message
report passed failed (ok u) = said passed
report passed failed (err e) = said_of failed e
report passed failed panic = said failed

abbrev pub or_old : ProtoAccount → Result ProtoAccount → ProtoAccount
or_old account (ok updated) = updated
or_old account _ = account

abbrev pub expiry : Result ProtoAccount → Option ℕ
expiry (ok account) = account.oauth_expires_at
expiry _ = none

-- `nanoseconds` is `time.Now`, by the monotonic clock.
module _ {S : Type 0} (uc : AccountUsecase S) (nanoseconds : S → ℕ) where
  unfoldable pub create_account : CreateAccountRequest → M S (Answer ProtoAccount)
  create_account req = answer_as_is (uc.create_account req)

  unfoldable pub list_accounts : ListAccountsRequest → M S (Answer ListAccountsResponse)
  list_accounts req = answer_as_is (uc.list_accounts req)

  unfoldable pub get_account : ℕ → M S (Answer ProtoAccount)
  get_account id = answer_as_is (uc.get_account id)

  unfoldable pub update_account : UpdateAccountRequest → M S (Answer ProtoAccount)
  update_account req = answer_as_is (uc.update_account req)

  unfoldable pub delete_account : ℕ → M S (Answer DeleteAccountResponse)
  delete_account id = answer_as_is (
      uc.delete_account id
      >> pure (record { success = true; message = "Account deleted successfully" }))

  unfoldable pub refresh_token : ℕ → M S (Answer RefreshTokenResponse)
  refresh_token id = answer_as_is (do
    uc.refresh_claude_token id
    account ← attempt (uc.get_account id)
    pure (record {
      success = true;
      message = "Token refreshed successfully";
      expires_at = expiry account;
    }))

  -- The end of `TestAccount`: `start` is the time at its beginning.
  unfoldable pub tested : ℕ → ℕ → ProtoAccount → Message → Bool → M S (Answer TestAccountResponse)
  tested id start account text success = do
    updated ← attempt (uc.get_account id)
    stop ← read nanoseconds
    pure (
        response (record {
          success = success;
          message = text;
          health_score = (or_old account updated).health_score;
          response_time_ms = response_time ((stop - start) / 1000000);
        }))

  abbrev pub test_claude : ℕ → ℕ → ProtoAccount → M S (Answer TestAccountResponse)
  test_claude id start account = do
    refreshed ← attempt (uc.refresh_claude_token id)
    tested id start account
        (report "Claude account test passed (token refreshed)" "Claude account test failed"
          refreshed)
        (is_ok refreshed)

  abbrev pub test_openai : ℕ → ℕ → ProtoAccount → M S (Answer TestAccountResponse)
  test_openai id start account = do
    validated ← attempt (uc.validate_openai_responses_account id)
    tested id start account
        (report "OpenAI Responses account test passed" "OpenAI Responses account test failed"
          validated)
        (is_ok validated)

  -- The switch on the provider.
  abbrev pub test_by_provider :
      ProtoProvider → ℕ → ℕ → ProtoAccount → M S (Answer TestAccountResponse)
  test_by_provider proto_openai_responses id start account = test_openai id start account
  test_by_provider proto_claude_console id start account = test_claude id start account
  test_by_provider proto_claude_official id start account = test_claude id start account
  test_by_provider provider id start account =
      pure (response (untested (said_of_provider "该账户类型暂不支持健康检查" provider)))

  abbrev pub test_found : ℕ → ℕ → Result ProtoAccount → M S (Answer TestAccountResponse)
  test_found id start (ok account) = test_by_provider account.provider id start account
  test_found id start (err e) = pure (response (untested (said_of "Failed to get account" e)))
  test_found id start panic = panics

  unfoldable pub test_account : ℕ → M S (Answer TestAccountResponse)
  test_account id = do
    start ← read nanoseconds
    found ← attempt (uc.get_account id)
    test_found id start found

  unfoldable pub reset_health_score : ℕ → M S (Answer ProtoAccount)
  reset_health_score id =
      answer (wrap "failed to reset health score" (uc.reset_health_score_by_admin id))

  unfoldable pub list_accounts_by_tags :
      List Bytes → ℤ → ℤ → M S (Answer ListAccountsByTagsResponse)
  list_accounts_by_tags tags limit offset = answer (do
    accounts ← wrap "failed to list accounts by tags" (
        uc.get_accounts_by_tags tags
          (if pos_part limit + neg_part limit == 0 then pos 20 else limit)
          (if ltb_ℤ offset (pos 0) then pos 0 else offset))
    pure (record { accounts = accounts; total = int32 (pos (length accounts)) }))
