-- ===== src/Service.antt =====
-- internal/service/account.go: what the methods of `AccountService` answer with. Logging is left out.
pub mod Accounts
pub mod Groups
pub mod Wiring
pub mod Checks
use quota_lane.Prelude.{String}
use quota_lane.Prelude.Effect.{Error, Result, ok, err, panic, M, pure, panics, ◌>>=◌, attempt}

-- The answer of a method: a response, `status.Error(codes.Internal, …)` with the message of the
-- error, or an error that is passed on as it is.
pub data Answer (A : Type 0) : Type 0 where
  response : A → Answer A
  internal : Error → Answer A
  passed_on : Error → Answer A

abbrev pub or_internal : {S A : Type 0} → Result A → M S (Answer A)
or_internal (ok a) = pure (response a)
or_internal (err e) = pure (internal e)
or_internal panic = panics

abbrev pub or_passed_on : {S A : Type 0} → Result A → M S (Answer A)
or_passed_on (ok a) = pure (response a)
or_passed_on (err e) = pure (passed_on e)
or_passed_on panic = panics

unfoldable pub answer : {S A : Type 0} → M S A → M S (Answer A)
answer m = attempt m >>= or_internal

unfoldable pub answer_as_is : {S A : Type 0} → M S A → M S (Answer A)
answer_as_is m = attempt m >>= or_passed_on
