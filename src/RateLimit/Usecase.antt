-- ===== src/RateLimit/Usecase.antt =====
-- internal/biz/rate_limiter.go: `RateLimiterUseCase`. An account id is a number, a request id a
-- text. `errors.New(429, …)` is `rate_limit_exceeded`; logging is left out.
use Prim.Native.String.{len}
use quota_lane.Prelude.{ℕ, ◌+◌, ◌/◌, String, Bool, ◌&&◌, List, [], ◌∷◌, ltb, if◌then◌else◌}
use quota_lane.Prelude.Int.{ℤ, pos, ◌+ℤ◌, ◌-ℤ◌, int32, ltb_ℤ, leb_ℤ}
use quota_lane.Prelude.Effect.{
  Error, rate_limit_exceeded, Result, ok, err, panic, M, pure, fail, panics, ◌>>=◌, ◌>>◌, attempt,
  ignore,
}
use quota_lane.RateLimit.Repo.{RateLimitRepo}

-- `newRateLimitExceededError`
abbrev pub new_rate_limit_exceeded_error : String → ℤ → ℤ → ℤ → Error
new_rate_limit_exceeded_error limit_type current limit retry_after =
    rate_limit_exceeded limit_type current limit retry_after

abbrev pub max_concurrency : ℤ
max_concurrency = pos 10

-- `EstimateTokens`; `len(prompt)` is the number of its bytes.
unfoldable pub estimate_of_length : ℕ → ℤ → ℤ
estimate_of_length prompt_bytes max_output_tokens =
    let prompt_len : ℕ =
      if ltb 2147483647 (prompt_bytes / 4) then 2147483647 else prompt_bytes / 4 in
    let estimated_total = int32 (pos prompt_len +ℤ max_output_tokens) in
    if leb_ℤ estimated_total (pos 0) then pos 1 else estimated_total

unfoldable pub estimate_tokens : String → ℤ → ℤ
estimate_tokens prompt max_output_tokens = estimate_of_length (len prompt) max_output_tokens

-- One more for a call that came back without an error.
abbrev pub bump : Result (Unit {0}) → ℕ → ℕ
bump (ok _) n = n + 1
bump _ n = n

module _ {S : Type 0} (repo : RateLimitRepo S) where
  -- `CheckRPM` after the counter was incremented.
  abbrev pub judge_rpm : ℤ → Result ℤ → M S (Unit {0})
  judge_rpm limit (ok count) =
      if ltb_ℤ limit count
      then fail (new_rate_limit_exceeded_error "RPM" count limit (pos 60))
      else pure tt
  judge_rpm limit (err e) = pure tt
  judge_rpm limit panic = panics

  unfoldable pub check_rpm : ℕ → ℤ → M S (Unit {0})
  unfolding attempt
  check_rpm account rpm_limit =
      if leb_ℤ rpm_limit (pos 0)
      then pure tt
      else attempt (repo.increment_rpm account) >>= judge_rpm rpm_limit

  -- `CheckTPM` after the counter was read. The sum is an int32 sum.
  abbrev pub judge_tpm : ℕ → ℤ → ℤ → Result ℤ → M S (Unit {0})
  unfolding ignore
  judge_tpm account limit estimated (ok current) =
      if ltb_ℤ limit (int32 (current +ℤ estimated))
      then fail (new_rate_limit_exceeded_error "TPM" current limit (pos 60))
      else ignore (repo.increment_tpm account estimated)
  judge_tpm account limit estimated (err e) = pure tt
  judge_tpm account limit estimated panic = panics

  unfoldable pub check_tpm : ℕ → ℤ → ℤ → M S (Unit {0})
  unfolding attempt ignore
  check_tpm account tpm_limit estimated =
      if leb_ℤ tpm_limit (pos 0)
      then pure tt
      else if leb_ℤ estimated (pos 0)
      then pure tt
      else attempt (repo.get_tpm_count account) >>= judge_tpm account tpm_limit estimated

  -- `UpdateTPM`; `correction` is an int32 difference.
  abbrev pub is_zero : ℤ → Bool
  is_zero n = leb_ℤ n (pos 0) && leb_ℤ (pos 0) n

  unfoldable pub update_tpm : ℕ → ℤ → ℤ → M S (Unit {0})
  unfolding ignore
  update_tpm account actual estimated =
      if leb_ℤ actual (pos 0)
      then pure tt
      else let correction = int32 (actual -ℤ estimated) in
        if is_zero correction then pure tt else ignore (repo.increment_tpm account correction)

  -- `AcquireConcurrencySlot` after the members were counted.
  abbrev pub judge_concurrency : ℕ → String → Result ℤ → M S (Unit {0})
  unfolding ignore
  judge_concurrency account request (ok count) =
      if ltb_ℤ max_concurrency count
      then (do
        ignore (repo.remove_concurrency_request account request)
        fail (new_rate_limit_exceeded_error "Concurrency" count max_concurrency (pos 5)))
      else pure tt
  judge_concurrency account request (err e) =
      ignore (repo.remove_concurrency_request account request)
  judge_concurrency account request panic = panics

  abbrev pub count_slots : ℕ → String → Result (Unit {0}) → M S (Unit {0})
  unfolding attempt
  count_slots account request (ok _) =
      attempt (repo.get_concurrency_count account) >>= judge_concurrency account request
  count_slots account request (err e) = pure tt
  count_slots account request panic = panics

  -- `now` is `time.Now().Unix()`.
  unfoldable pub acquire_concurrency_slot : (now : ℤ) → ℕ → String → M S (Unit {0})
  unfolding attempt ignore
  acquire_concurrency_slot now account request =
      attempt (repo.add_concurrency_request account request now) >>= count_slots account request

  unfoldable pub release_concurrency_slot : ℕ → String → M S (Unit {0})
  unfolding ignore
  release_concurrency_slot account request =
      ignore (repo.remove_concurrency_request account request)

  -- `time.Now().Add(-10 * time.Minute).Unix()`
  unfoldable pub cleanup_expired_concurrency : (now : ℤ) → ℕ → M S (Unit {0})
  cleanup_expired_concurrency now account =
      repo.cleanup_expired_concurrency account (now -ℤ pos 600)

  -- `CleanupExpiredConcurrencyForAllAccounts`: the number of accounts cleaned up.
  unfoldable pub cleanup_all_from : (now : ℤ) → ℕ → List ℕ → M S ℕ
  cleanup_all_from now cleaned [] s = (ok cleaned, s)
  cleanup_all_from now cleaned (a ∷ as') s =
      let (r, s') = cleanup_expired_concurrency now a s in
      cleanup_all_from now (bump r cleaned) as' s'

  unfoldable pub cleanup_all : (now : ℤ) → List ℕ → M S ℕ
  cleanup_all now accounts = cleanup_all_from now 0 accounts
