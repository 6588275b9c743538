-- ===== src/RateLimit/Estimate.antt =====
-- internal/biz/rate_limiter.go: `EstimateTokens`.
use quota_lane.Prelude.{ℕ, ◌+◌, ◌/◌, ◌≤◌, ◌<◌, ◌≡◌, arith, leb, if◌then◌else◌}
use quota_lane.Prelude.Int.{pos, ◌+ℤ◌, int32}
use quota_lane.RateLimit.Usecase.{estimate_of_length}

-- The estimate of a prompt of `n` bytes with at most `m` tokens of output, where `m` is a positive
-- int32: `n` / 4 + `m` if that is an int32, and 1 if it is not.
pub estimate_of_length_lem :
    (n m : ℕ)
    → 0 < m
    → m ≤ 2147483647
    → estimate_of_length n (pos m) ≡ pos (if leb (n / 4 + m) 2147483647 then n / 4 + m else 1)
unfolding estimate_of_length int32 ◌+ℤ◌
estimate_of_length_lem n m low high = ground arith
