-- ===== src/DbErrors.antt =====
-- pkg/errors/db_errors.go: the classification of database errors.
pub mod Laws
use quota_lane.Prelude.{
  ℕ, zero, suc, ◌+◌, ◌-◌, Bool, true, false, ◌&&◌, ◌||◌, not, Option, none, some, List, [], ◌∷◌,
  length, drop, leb, ltb, ◌==◌, if◌then◌else◌, String, codes,
}
use quota_lane.Prelude.Effect.{
  DatabaseError, DatabaseErrorType, unknown, duplicate_key, constraint_violation, invalid_json,
  data_too_long, not_found, deadlock, connection_error, invalid_value,
}

-- An `error` as `errors.Is` and `errors.As` see it: whether its chain holds
-- `gorm.ErrRecordNotFound`, the number of the first `*mysql.MySQLError` in its chain, and the bytes
-- of its text.
pub record GoError : Type 0 where
  pub is_record_not_found : Bool
  pub mysql_number : Option ℕ
  pub message : List ℕ

-- `classifyMySQLError`
unfoldable pub classify_mysql_error : ℕ → DatabaseError
classify_mysql_error number =
    if number == 1062
    then record {
      kind = duplicate_key;
      mysql_code = number;
      text = "duplicate key constraint violation";
    }
    else if number == 3140 || number == 3141 || number == 3142 || number == 3143
    then record { kind = invalid_json; mysql_code = number; text = "invalid JSON data" }
    else if number == 1406
    then record { kind = data_too_long; mysql_code = number; text = "data too long for column" }
    else if number == 1452
    then record {
      kind = constraint_violation;
      mysql_code = number;
      text = "foreign key constraint violation";
    }
    else if number == 1451
    then record {
      kind = constraint_violation;
      mysql_code = number;
      text = "cannot delete/update record due to foreign key constraint";
    }
    else if number == 1213
    then record { kind = deadlock; mysql_code = number; text = "deadlock detected" }
    else if number == 1048
    then record { kind = invalid_value; mysql_code = number; text = "column cannot be null" }
    else if number == 1265 || number == 1366
    then record { kind = invalid_value; mysql_code = number; text = "invalid or truncated value" }
    else record { kind = unknown; mysql_code = number; text = "MySQL error" }

-- `c += 'a' - 'A'` for an upper-case letter
abbrev pub to_lower : ℕ → ℕ
to_lower c = if leb b'A' c && leb c b'Z' then c + 32 else c

-- The inner loop of `contains`: the keyword against the text from one position on. The outer loop
-- leaves room for the whole keyword, so the end of the text is not met first.
unfoldable pub matches_here : List ℕ → List ℕ → Bool
matches_here str [] = true
matches_here [] (k ∷ ks) = false
matches_here (c ∷ cs) (k ∷ ks) = to_lower c == to_lower k && matches_here cs ks

-- The outer loop, by the number of positions that are left.
unfoldable pub contains_from : ℕ → List ℕ → List ℕ → Bool
contains_from zero str keyword = false
contains_from (suc n) str keyword =
    let rest = contains_from n (drop 1 str) keyword in
    if matches_here str keyword then true else rest

-- `for i := 0; i <= len(str)-len(substr); i++`: no position where the keyword is the longer.
unfoldable pub contains : List ℕ → List ℕ → Bool
contains str keyword =
    if ltb (length str) (length keyword)
    then false
    else contains_from (length str - length keyword + 1) str keyword

abbrev pub connection_keywords : List (List ℕ)
connection_keywords =
    codes "connection refused"
    ∷ codes "connection reset"
    ∷ codes "broken pipe"
    ∷ codes "no such host"
    ∷ codes "timeout"
    ∷ codes "connection lost"
    ∷ codes "can't connect"
    ∷ codes "dial tcp"
    ∷ []

unfoldable pub any_contained : List ℕ → List (List ℕ) → Bool
any_contained message [] = false
any_contained message (keyword ∷ keywords) =
    if ltb 0 (length message) && contains message keyword
    then true
    else any_contained message keywords

unfoldable pub is_connection_error : List ℕ → Bool
is_connection_error message = any_contained message connection_keywords

-- `ClassifyDBError` of an error that is not nil.
abbrev classify_number : GoError → Option ℕ → DatabaseError
classify_number e (some number) = classify_mysql_error number
classify_number e none =
    if is_connection_error e.message
    then record { kind = connection_error; mysql_code = 0; text = "database connection error" }
    else record { kind = unknown; mysql_code = 0; text = "unknown database error" }

unfoldable pub classify : GoError → DatabaseError
classify e =
    if e.is_record_not_found
    then record { kind = not_found; mysql_code = 0; text = "record not found" }
    else classify_number e e.mysql_number

unfoldable pub classify_db_error : Option GoError → Option DatabaseError
classify_db_error none = none
classify_db_error (some e) = some (classify e)

abbrev has_kind : (DatabaseErrorType → Bool) → Option DatabaseError → Bool
has_kind test none = false
has_kind test (some d) = test d.kind

abbrev kind_is_duplicate : DatabaseErrorType → Bool
kind_is_duplicate duplicate_key = true
kind_is_duplicate _ = false

abbrev kind_is_not_found : DatabaseErrorType → Bool
kind_is_not_found not_found = true
kind_is_not_found _ = false

abbrev kind_is_json : DatabaseErrorType → Bool
kind_is_json invalid_json = true
kind_is_json _ = false

abbrev kind_is_constraint : DatabaseErrorType → Bool
kind_is_constraint constraint_violation = true
kind_is_constraint _ = false

abbrev kind_is_deadlock : DatabaseErrorType → Bool
kind_is_deadlock deadlock = true
kind_is_deadlock _ = false

unfoldable pub is_duplicate_key_error : Option GoError → Bool
is_duplicate_key_error e = has_kind kind_is_duplicate (classify_db_error e)

unfoldable pub is_not_found_error : Option GoError → Bool
is_not_found_error e = has_kind kind_is_not_found (classify_db_error e)

unfoldable pub is_invalid_json_error : Option GoError → Bool
is_invalid_json_error e = has_kind kind_is_json (classify_db_error e)

unfoldable pub is_constraint_violation_error : Option GoError → Bool
is_constraint_violation_error e = has_kind kind_is_constraint (classify_db_error e)

unfoldable pub is_deadlock_error : Option GoError → Bool
is_deadlock_error e = has_kind kind_is_deadlock (classify_db_error e)
