-- ===== src/Prelude/Effect.antt =====
-- Go functions that return an error and act on the world: results, and state passing.
use quota_lane.Prelude.{ℕ, String, ◌≡◌, refl, ◌⊎◌, inl, inr}
use quota_lane.Prelude.Int.{ℤ}

pub data DatabaseErrorType : Type 0 where
  unknown duplicate_key constraint_violation invalid_json data_too_long : DatabaseErrorType
  not_found deadlock connection_error invalid_value : DatabaseErrorType

-- `DatabaseError`; `OriginalErr` is the argument of the classification.
pub record DatabaseError : Type 0 where
  pub kind : DatabaseErrorType
  pub mysql_code : ℕ
  pub text : String

-- An `error` value.
pub data Error : Type 0 where
  -- a plain message: `errors.New`, or `fmt.Errorf` with no `%w`
  message : String → Error
  -- `fmt.Errorf("…: %w", err)`
  wrapped : String → Error → Error
  -- an error that a driver or a client library made
  backend : String → Error
  -- a `*DatabaseError` of pkg/errors
  database : DatabaseError → Error
  -- `gorm.ErrRecordNotFound`
  record_not_found : Error
  -- the 429 of `newRateLimitExceededError`: kind, current, limit, seconds to wait
  rate_limit_exceeded : String → ℤ → ℤ → ℤ → Error

-- What a call comes back with. `panic` is a run-time panic, such as a nil dereference.
pub data Result {ℓ} (A : Type ℓ) : Type ℓ where
  ok : A → Result A
  err : Error → Result A
  panic : Result A

-- A call on the world `S`.
abbrev pub M : Type 0 → Type 0 → Type 0
M S A = S → Result A × S

abbrev pub pure : {S A : Type 0} → A → M S A
pure a s = (ok a, s)

abbrev pub fail : {S A : Type 0} → Error → M S A
fail e s = (err e, s)

abbrev pub panics : {S A : Type 0} → M S A
panics s = (panic, s)

abbrev pub and_then : {S A B : Type 0} → Result A × S → (A → M S B) → Result B × S
and_then (ok a, s) f = f a s
and_then (err e, s) f = (err e, s)
and_then (panic, s) f = (panic, s)

-- `x, err := m; if err != nil { return err }; …`
infixl 5 ◌>>=◌ ◌>>◌
abbrev pub ◌>>=◌ : {S A B : Type 0} → M S A → (A → M S B) → M S B
◌>>=◌ m f s = and_then (m s) f

abbrev pub ◌>>◌ : {S B : Type 0} → M S (Unit {0}) → M S B → M S B
m >> k = m >>= λ _. k

-- `if err != nil { return fmt.Errorf(text + ": %w", err) }`
abbrev pub wrap_result : {A : Type 0} → String → Result A → Result A
wrap_result text (ok a) = ok a
wrap_result text (err e) = err (wrapped text e)
wrap_result text panic = panic

unfoldable pub wrap : {S A : Type 0} → String → M S A → M S A
wrap text m s = let (r, s') = m s in (wrap_result text r, s')

-- `x, err := m` where the code goes on with `err`.
abbrev pub attempt_result : {S A : Type 0} → Result A × S → Result (Result A) × S
attempt_result (ok a, s) = (ok (ok a), s)
attempt_result (err e, s) = (ok (err e), s)
attempt_result (panic, s) = (panic, s)

unfoldable pub attempt : {S A : Type 0} → M S A → M S (Result A)
attempt m s = attempt_result (m s)

-- A call whose error is logged, or dropped, and does not end the function.
unfoldable pub ignore : {S A : Type 0} → M S A → M S (Unit {0})
unfolding attempt
ignore m = attempt m >>= λ _. pure tt

-- A part of the function that cannot fail.
unfoldable pub modify : {S : Type 0} → (S → S) → M S (Unit {0})
modify f s = (ok tt, f s)

-- `time.Now()` and other readings of the world.
unfoldable pub read : {S A : Type 0} → (S → A) → M S A
read f s = (ok (f s), s)

-- To split on what a call came back with, and keep the equation with the state after it.
pub Result-cases :
    {S A : Type 0} (x : Result A × S)
    → ((a : A) × (x ≡ (ok a, x.1))) ⊎ ((e : Error) × (x ≡ (err e, x.1))) ⊎ (x ≡ (panic, x.1))
Result-cases (ok a, s) = inl (a, refl)
Result-cases (err e, s) = inr (inl (e, refl))
Result-cases (panic, s) = inr (inr refl)

-- An ignored call leaves the state that the call leaves.
pub ignore_state : {S A : Type 0} (m : M S A) (s : S) → (ignore m s).1 ≡ (m s).1
unfolding ignore
ignore_state m s = elim (Result-cases (m s)) [
  | inl (a, e) ↦ rw e
  | inr (inl (f, e)) ↦ rw e
  | inr (inr e) ↦ rw e
]
