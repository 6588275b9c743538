-- ===== src/RateLimit/Store.antt =====
-- internal/data/rate_limit.go: `RateLimitRepo` over Redis. A nil client is `none`.
pub mod Laws
use quota_lane.Prelude.{ℕ, String, Bool, true, false, Option, none, some, if◌then◌else◌, ◌&&◌}
use quota_lane.Prelude.Int.{ℤ, pos, leb_ℤ, pos_part, neg_part}
use quota_lane.Prelude.Effect.{
  message, Result, ok, err, panic, M, pure, fail, panics, ◌>>=◌, ◌>>◌, wrap, attempt, ignore,
}
use quota_lane.Redis.{Redis, Key, rate, concurrency, Value, int, text}
use quota_lane.RateLimit.Repo.{RateLimitRepo, to_int32}

-- `getRateLimitKey` and `getConcurrencyKey`
abbrev pub get_rate_limit_key : ℕ → String → Key
get_rate_limit_key account limit_type = rate account limit_type

abbrev pub get_concurrency_key : ℕ → Key
get_concurrency_key account = concurrency account

abbrev is_one : ℤ → Bool
is_one n = leb_ℤ n (pos 1) && leb_ℤ (pos 1) n

-- `strconv.ParseInt(text, 10, 32)`: a number outside int32, and any other text, is an error.
abbrev parse_int32 : {S : Type 0} → Value → M S ℤ
parse_int32 (int (pos n)) =
    if leb_ℤ (pos n) (pos 2147483647) then pure (pos n) else fail (message "value out of range")
parse_int32 (int (ℤ.negsuc n)) =
    if leb_ℤ (pos n) (pos 2147483647)
    then pure (ℤ.negsuc n)
    else fail (message "value out of range")
parse_int32 (text t) = fail (message "invalid syntax")

-- The end of `GetRPMCount` and `GetTPMCount`.
abbrev parse_count : {S : Type 0} → String → Option Value → M S ℤ
unfolding wrap
parse_count failure none = pure (pos 0)
parse_count failure (some value) = wrap failure (parse_int32 value)

abbrev with_client : {S A : Type 0} → Option (Redis S) → (Redis S → M S A) → M S A
with_client none f = fail (message "redis client is nil")
with_client (some rdb) f = f rdb

module _ {S : Type 0} (rdb : Redis S) where
  -- The expiration is the number 60, a `time.Duration` in nanoseconds.
  unfoldable pub increment_rpm : ℕ → M S ℤ
  unfolding wrap ignore
  increment_rpm account = do
    let key = get_rate_limit_key account "rpm"
    count ← wrap "failed to increment RPM" (rdb.incr key)
    if is_one count then ignore (rdb.expire key 60) else pure tt
    pure (to_int32 count)

  unfoldable pub get_rpm_count : ℕ → M S ℤ
  unfolding wrap
  get_rpm_count account = do
    reply ← wrap "failed to get RPM count" (rdb.get (get_rate_limit_key account "rpm"))
    parse_count "failed to parse RPM count" reply

  -- Whether the read before the increment says that the key is absent.
  abbrev is_first : Result (Option Value) → Bool
  is_first (ok none) = true
  is_first _ = false

  unfoldable pub increment_tpm : ℕ → ℤ → M S ℤ
  unfolding wrap attempt ignore
  increment_tpm account tokens = do
    let key = get_rate_limit_key account "tpm"
    reply ← attempt (rdb.get key)
    count ← wrap "failed to increment TPM" (rdb.incr_by key tokens)
    if is_first reply then ignore (rdb.expire key 60) else pure tt
    pure (to_int32 count)

  unfoldable pub get_tpm_count : ℕ → M S ℤ
  unfolding wrap
  get_tpm_count account = do
    reply ← wrap "failed to get TPM count" (rdb.get (get_rate_limit_key account "tpm"))
    parse_count "failed to parse TPM count" reply

  -- The score is `float64(timestamp)`, which is exact for a number of seconds below 2 ^ 53.
  unfoldable pub add_concurrency_request : ℕ → String → ℤ → M S (Unit {0})
  unfolding wrap
  add_concurrency_request account request timestamp =
      wrap "failed to add concurrency request"
        (rdb.zadd (get_concurrency_key account) timestamp request)

  unfoldable pub remove_concurrency_request : ℕ → String → M S (Unit {0})
  unfolding wrap
  remove_concurrency_request account request =
      wrap "failed to remove concurrency request" (rdb.zrem (get_concurrency_key account) request)

  unfoldable pub get_concurrency_count : ℕ → M S ℤ
  unfolding wrap
  get_concurrency_count account = do
    count ← wrap "failed to get concurrency count" (rdb.zcard (get_concurrency_key account))
    pure (to_int32 count)

  unfoldable pub cleanup_expired_concurrency : ℕ → ℤ → M S (Unit {0})
  unfolding wrap
  cleanup_expired_concurrency account expired_before = do
    _ ←
        wrap "failed to cleanup expired concurrency"
          (rdb.zrem_range_by_score (get_concurrency_key account) (pos 0) expired_before)
    pure tt

module _ {S : Type 0} where
  -- `NewRateLimitRepo`, and the nil check at the head of each method.
  abbrev pub new_rate_limit_repo : Option (Redis S) → RateLimitRepo S
  new_rate_limit_repo client = record {
    increment_rpm = λ a. with_client client (λ rdb. increment_rpm rdb a);
    get_rpm_count = λ a. with_client client (λ rdb. get_rpm_count rdb a);
    increment_tpm = λ a n. with_client client (λ rdb. increment_tpm rdb a n);
    get_tpm_count = λ a. with_client client (λ rdb. get_tpm_count rdb a);
    add_concurrency_request =
        λ a m t. with_client client (λ rdb. add_concurrency_request rdb a m t);
    remove_concurrency_request =
        λ a m. with_client client (λ rdb. remove_concurrency_request rdb a m);
    get_concurrency_count = λ a. with_client client (λ rdb. get_concurrency_count rdb a);
    cleanup_expired_concurrency =
        λ a t. with_client client (λ rdb. cleanup_expired_concurrency rdb a t);
  }
