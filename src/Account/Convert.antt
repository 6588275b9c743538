-- ===== src/Account/Convert.antt =====
-- internal/data/account.go: the conversions between the row's enumerations and the protobuf ones
-- (api/v1/account.proto).
use quota_lane.Prelude.{◌≡◌, ◌≢◌, ◌↔◌, refl, sym, ap, String}
use quota_lane.Account.{
  AccountProvider, claude_official, claude_console, bedrock, ccr, droid, gemini, openai_responses,
  codex_cli, azure_openai, other_provider, AccountStatus, active, inactive, error,
}

-- `v1.AccountProvider`; a number that is none of the named ones is treated as `unspecified`.
pub data ProtoProvider : Type 0 where
  unspecified proto_claude_official proto_claude_console proto_bedrock proto_ccr : ProtoProvider
  proto_droid proto_gemini proto_openai_responses proto_azure_openai proto_codex_cli : ProtoProvider

-- `v1.AccountStatus`; a number that is none of the named ones is treated as `account_created`, which
-- the code has no case for either.
pub data ProtoStatus : Type 0 where
  status_unspecified account_active account_inactive account_error account_created : ProtoStatus

unfoldable pub provider_to_proto : AccountProvider → ProtoProvider
provider_to_proto claude_official = proto_claude_official
provider_to_proto claude_console = proto_claude_console
provider_to_proto bedrock = proto_bedrock
provider_to_proto ccr = proto_ccr
provider_to_proto droid = proto_droid
provider_to_proto gemini = proto_gemini
provider_to_proto openai_responses = proto_openai_responses
provider_to_proto azure_openai = proto_azure_openai
provider_to_proto _ = unspecified

unfoldable pub provider_from_proto : ProtoProvider → AccountProvider
provider_from_proto proto_claude_official = claude_official
provider_from_proto proto_claude_console = claude_console
provider_from_proto proto_bedrock = bedrock
provider_from_proto proto_ccr = ccr
provider_from_proto proto_droid = droid
provider_from_proto proto_gemini = gemini
provider_from_proto proto_openai_responses = openai_responses
provider_from_proto proto_azure_openai = azure_openai
provider_from_proto unspecified = other_provider ""
provider_from_proto proto_codex_cli = other_provider ""

unfoldable pub status_to_proto : AccountStatus → ProtoStatus
status_to_proto active = account_active
status_to_proto inactive = account_inactive
status_to_proto error = account_error
status_to_proto _ = status_unspecified

unfoldable pub status_from_proto : ProtoStatus → AccountStatus
status_from_proto account_active = active
status_from_proto account_inactive = inactive
status_from_proto account_error = error
status_from_proto status_unspecified = active
status_from_proto account_created = active

-- A provider comes back from its protobuf form exactly if it is the empty text or one of the
-- constants other than `codex-cli`.
pub provider_from_proto-provider_to_proto :
    (p : AccountProvider)
    → (provider_from_proto (provider_to_proto p) ≡ p)
      ↔ ((p ≢ codex_cli) × ((t : String) → p ≡ other_provider t → t ≡ ""))
unfolding provider_to_proto provider_from_proto
provider_from_proto-provider_to_proto claude_official = (λ h. (λ e. cc, λ t e. cc), λ h. refl)
provider_from_proto-provider_to_proto claude_console = (λ h. (λ e. cc, λ t e. cc), λ h. refl)
provider_from_proto-provider_to_proto bedrock = (λ h. (λ e. cc, λ t e. cc), λ h. refl)
provider_from_proto-provider_to_proto ccr = (λ h. (λ e. cc, λ t e. cc), λ h. refl)
provider_from_proto-provider_to_proto droid = (λ h. (λ e. cc, λ t e. cc), λ h. refl)
provider_from_proto-provider_to_proto gemini = (λ h. (λ e. cc, λ t e. cc), λ h. refl)
provider_from_proto-provider_to_proto openai_responses = (λ h. (λ e. cc, λ t e. cc), λ h. refl)
provider_from_proto-provider_to_proto azure_openai = (λ h. (λ e. cc, λ t e. cc), λ h. refl)
provider_from_proto-provider_to_proto codex_cli = (λ h. cc, λ h. absurd (h.0 refl))
provider_from_proto-provider_to_proto (other_provider u) =
    (λ h. (λ e. cc, λ t e. cc), λ h. ap other_provider (sym (h.1 u refl)))

-- A protobuf provider comes back from the row exactly if it is not `CODEX_CLI`, and a protobuf status
-- exactly if it is neither unspecified nor `ACCOUNT_CREATED`.
pub to_proto-from_proto :
    ((p : ProtoProvider) → (provider_to_proto (provider_from_proto p) ≡ p) ↔ (p ≢ proto_codex_cli))
    × ((s : ProtoStatus)
        → (status_to_proto (status_from_proto s) ≡ s)
          ↔ ((s ≢ status_unspecified) × (s ≢ account_created)))
unfolding provider_to_proto provider_from_proto status_to_proto status_from_proto
to_proto-from_proto = (providers, statuses)
  where
    providers :
        (p : ProtoProvider)
        → (provider_to_proto (provider_from_proto p) ≡ p) ↔ (p ≢ proto_codex_cli)
    providers proto_codex_cli = (λ h. cc, λ h. absurd (h refl))
    providers _ = (λ h e. cc, λ h. refl)

    statuses :
        (s : ProtoStatus)
        → (status_to_proto (status_from_proto s) ≡ s)
          ↔ ((s ≢ status_unspecified) × (s ≢ account_created))
    statuses status_unspecified = (λ h. cc, λ h. absurd (h.0 refl))
    statuses account_created = (λ h. cc, λ h. absurd (h.1 refl))
    statuses account_active = (λ h. (λ e. cc, λ e. cc), λ h. refl)
    statuses account_inactive = (λ h. (λ e. cc, λ e. cc), λ h. refl)
    statuses account_error = (λ h. (λ e. cc, λ e. cc), λ h. refl)
