-- ===== src/Service/Checks.antt =====
-- internal/service/account.go: what `TestAccount` answers.
use quota_lane.Prelude.{
  ℕ, ◌≡◌, ◌≢◌, ◌↔◌, refl, sym, ap, ◌∙◌, Bool, true, false, Option, none, some, arith, inl, inr,
}
use quota_lane.Prelude.Int.{IsInt32}
use quota_lane.Prelude.Effect.{Result, ok, err, panic, attempt, read, Result-cases}
use quota_lane.Account.Convert.{
  ProtoProvider, proto_openai_responses, proto_claude_console, proto_claude_official,
}
use quota_lane.Account.Proto.{ProtoAccount}
use quota_lane.Service.{Answer, response}
use quota_lane.Service.Accounts.{
  AccountUsecase, Message, TestAccountResponse, response_time, untested, said_of, tested,
  test_by_provider, test_account,
}

response_time-IsInt32 : (ms : ℕ) → IsInt32 (response_time ms)
unfolding response_time
response_time-IsInt32 ms = ground arith

module _ {S : Type 0} (uc : AccountUsecase S) (nanoseconds : S → ℕ) where
  -- None of the calls panics.
  abbrev pub IsCalm : Type 0
  IsCalm =
      ((id : ℕ) (s : S) → (uc.get_account id s).0 ≢ panic)
      × ((id : ℕ) (s : S) → (uc.refresh_claude_token id s).0 ≢ panic)
      × ((id : ℕ) (s : S) → (uc.validate_openai_responses_account id s).0 ≢ panic)

  -- What the check of an account of this provider comes back with, if there is one for it.
  abbrev pub check_of : ProtoProvider → ℕ → S → Option (Result (Unit {0}))
  check_of proto_openai_responses id s = some (uc.validate_openai_responses_account id s).0
  check_of proto_claude_console id s = some (uc.refresh_claude_token id s).0
  check_of proto_claude_official id s = some (uc.refresh_claude_token id s).0
  check_of _ id s = none

  -- The call answers with a response whose success is `b`, and whose time is an `int32`.
  abbrev Answers : Result (Answer TestAccountResponse) × S → Bool → Type 0
  Answers x b =
      (r : TestAccountResponse) × (x.0 ≡ ok (response r))
      × (r.success ≡ b)
      × IsInt32 r.response_time_ms

  tested_lem :
      (calm : IsCalm) (id start : ℕ) (account : ProtoAccount) (text : Message) (b : Bool) (s : S)
      → Answers (tested uc nanoseconds id start account text b s) b
  unfolding tested attempt read
  tested_lem calm id start account text b s = elim (Result-cases (uc.get_account id s)) [
    | inl (x, e) ↦ rw e (_, refl, refl, response_time-IsInt32 _)
    | inr (inl (f, e)) ↦ rw e (_, refl, refl, response_time-IsInt32 _)
    | inr (inr e) ↦ absurd (calm.0 id s (ap (λ (w : Result ProtoAccount × S). w.0) e))
  ]

  abbrev passed : Option (Result (Unit {0})) → Bool
  passed (some (ok _)) = true
  passed _ = false

  provider_lem :
      (calm : IsCalm) (p : ProtoProvider) (id start : ℕ) (account : ProtoAccount) (s : S)
      → Answers (test_by_provider uc nanoseconds p id start account s) (passed (check_of p id s))
  unfolding attempt
  provider_lem calm proto_openai_responses id start account s =
      elim (Result-cases (uc.validate_openai_responses_account id s)) [
        | inl (_, e) ↦ rw e (tested_lem calm id start account _ true _)
        | inr (inl (f, e)) ↦ rw e (tested_lem calm id start account _ false _)
        | inr (inr e) ↦ absurd (calm.2 id s (ap (λ (w : Result (Unit {0}) × S). w.0) e))
      ]
  provider_lem calm proto_claude_console id start account s =
      elim (Result-cases (uc.refresh_claude_token id s)) [
        | inl (_, e) ↦ rw e (tested_lem calm id start account _ true _)
        | inr (inl (f, e)) ↦ rw e (tested_lem calm id start account _ false _)
        | inr (inr e) ↦ absurd (calm.1 id s (ap (λ (w : Result (Unit {0}) × S). w.0) e))
      ]
  provider_lem calm proto_claude_official id start account s =
      elim (Result-cases (uc.refresh_claude_token id s)) [
        | inl (_, e) ↦ rw e (tested_lem calm id start account _ true _)
        | inr (inl (f, e)) ↦ rw e (tested_lem calm id start account _ false _)
        | inr (inr e) ↦ absurd (calm.1 id s (ap (λ (w : Result (Unit {0}) × S). w.0) e))
      ]
  provider_lem calm _ id start account s = (_, refl, refl, ground arith)

  passed_iff : (c : Option (Result (Unit {0}))) → (passed c ≡ true) ↔ (c ≡ some (ok tt))
  passed_iff none = (λ h. absurd (ground arith), λ h. absurd (ground arith))
  passed_iff (some (ok _)) = (λ h. refl, λ h. refl)
  passed_iff (some (err e)) = (λ h. absurd (ground arith), λ h. cc)
  passed_iff (some panic) = (λ h. absurd (ground arith), λ h. cc)

  -- Where none of its calls panics, `TestAccount` answers with a response and never with an error: it
  -- reports success exactly if the account was got, and the check for the provider of that account came
  -- back with no error, and the time that it reports is an `int32`.
  pub test_account_iff :
      IsCalm
      → (id : ℕ) (s : S)
      → (r : TestAccountResponse) × ((test_account uc nanoseconds id s).0 ≡ ok (response r))
        × ((r.success ≡ true) ↔ (
            (x : ProtoAccount) × ((uc.get_account id s).0 ≡ ok x)
            × (check_of x.provider id (uc.get_account id s).1 ≡ some (ok tt))))
        × IsInt32 r.response_time_ms
  unfolding test_account attempt read
  test_account_iff calm id s = elim (Result-cases (uc.get_account id s)) [
    | inl (x, e) ↦
        let (r, q, b, n) =
          provider_lem calm x.provider id (nanoseconds s) x (uc.get_account id s).1 in
        (
          r,
          rw e q,
          (
            λ h. (
              x,
              ap (λ (w : Result ProtoAccount × S). w.0) e,
              (passed_iff (check_of x.provider id (uc.get_account id s).1)).0 (sym b ∙ h),
            ),
            λ h.
                b
                ∙ (passed_iff (check_of x.provider id (uc.get_account id s).1)).1 (
                    ap (λ (y : ProtoAccount). check_of y.provider id (uc.get_account id s).1)
                      (same x h.0 (sym (ap (λ (w : Result ProtoAccount × S). w.0) e) ∙ h.1))
                    ∙ h.2),
          ),
          n,
        )
    | inr (inl (f, e)) ↦ (
      untested (said_of "Failed to get account" f),
      rw e refl,
      (λ h. absurd (ground arith), λ h. absurd (ground (arith, e, h.1))),
      (omega arith, omega arith),
    )
    | inr (inr e) ↦ absurd (calm.0 id s (ap (λ (w : Result ProtoAccount × S). w.0) e))
  ]
    where
      same : (x y : ProtoAccount) → ◌≡◌ {A = Result ProtoAccount} (ok x) (ok y) → x ≡ y
      same x y h = cc
