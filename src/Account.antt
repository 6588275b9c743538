-- ===== src/Account.antt =====
-- internal/data/account.go: the `Account` row, its enumerations and their protobuf counterparts.
pub mod Convert
pub mod Repo
pub mod Proto
pub mod Usecase
pub mod Refresh
pub mod OAuth
pub mod Health
pub mod Conditions
pub mod Store
pub mod Bounds
pub mod Coherence
use quota_lane.Prelude.{ℕ, String, Bool, Option, Bytes}
use quota_lane.Prelude.Int.{ℤ}

-- `AccountProvider`: a text, one of the constants or any other.
pub data AccountProvider : Type 0 where
  claude_official claude_console bedrock ccr droid gemini : AccountProvider
  openai_responses codex_cli azure_openai : AccountProvider
  other_provider : String → AccountProvider

-- `AccountStatus`
pub data AccountStatus : Type 0 where
  created active inactive error : AccountStatus
  other_status : String → AccountStatus

-- A time is a number of nanoseconds since the epoch; a nil pointer is `none`.
pub record Account : Type 0 where
  pub id : ℕ
  pub name : String
  pub description : String
  pub provider : AccountProvider
  pub api_key_encrypted : Bytes
  pub base_api : String
  pub oauth_data_encrypted : Bytes
  pub oauth_expires_at : Option ℕ
  pub access_token_encrypted : Bytes
  pub refresh_token_encrypted : Bytes
  pub token_expires_at : Option ℕ
  pub id_token_encrypted : Bytes
  pub organizations : String
  pub rpm_limit : ℤ
  pub tpm_limit : ℤ
  pub health_score : ℤ
  pub is_circuit_broken : Bool
  pub status : AccountStatus
  pub metadata : Option Bytes
  pub version : ℤ
  pub circuit_broken_at : Option ℕ
  pub last_error : Option String
  pub last_error_at : Option ℕ
  pub consecutive_errors : ℤ
  pub created_at : ℕ
  pub updated_at : ℕ
