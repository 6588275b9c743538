-- ===== src/Database/Rows.antt =====
-- A table in memory as a list of rows by id, an instance of `Database` and of `Queries`. A listing has the
-- order of the rows.
use quota_lane.Prelude.{
  ℕ, zero, suc, ◌≤◌, ◌<◌, ◌≡◌, ◌≢◌, ◌⊎◌, inl, inr, refl, sym, ap, ◌∙◌, subst, Bool-cases, Bool,
  true, Option, none, some, arith, ◌==◌, ltb, if◌then◌else◌, List, [], ◌∷◌, length, take, drop, All,
}
use quota_lane.Prelude.Int.{pos_part}
use quota_lane.Prelude.Effect.{Result, record_not_found, ok, err, M}
use quota_lane.Account.{Account}
use quota_lane.Database.{Database, IsLawful, Queries, IsQueryLawful}

abbrev pub Rows : Type 0
Rows = List (ℕ × Account)

unfoldable pub row_in : Rows → ℕ → Option Account
row_in [] i = none
row_in ((k, x) ∷ xs) i = if k == i then some x else row_in xs i

unfoldable pub highest : Rows → ℕ
highest [] = 0
highest ((k, x) ∷ xs) = let rest = highest xs in if ltb rest k then k else rest

unfoldable pub put_row : ℕ → Account → Rows → Rows
put_row i y [] = (i, y) ∷ []
put_row i y ((k, x) ∷ xs) = if k == i then (i, y) ∷ xs else (k, x) ∷ put_row i y xs

unfoldable pub matching : (Account → Bool) → Rows → List Account
matching test [] = []
matching test ((k, x) ∷ xs) = let rest = matching test xs in if test x then x ∷ rest else rest

abbrev bounded : Option ℕ → List Account → List Account
bounded none xs = xs
bounded (some n) xs = take n xs

abbrev found : Option Account → M Rows Account
found none s = (err record_not_found, s)
found (some x) s = (ok x, s)

abbrev change : ℕ → (Account → Bool) → (Account → Account) → Option Account → M Rows ℕ
change a test f none s = (ok 0, s)
change a test f (some x) s = if test x then (ok 1, put_row a (f x) s) else (ok 0, s)

abbrev pub rows_database : Database Rows
rows_database = record {
  first_account = λ a s. found (row_in s a) s;
  update_account = λ a test f s. change a test f (row_in s a) s;
}

abbrev pub rows_queries : Queries Rows
rows_queries = record {
  create_account = λ x s. (
    ok (record x { id = suc (highest s) }),
    (suc (highest s), record x { id = suc (highest s) }) ∷ s,
  );
  save_account = λ x s. (ok tt, put_row x.id x s);
  count_accounts = λ test s. (ok (length (matching test s)), s);
  find_accounts = λ test offset limit order s.
      (ok (bounded limit (drop (pos_part offset) (matching test s))), s);
}

row_in-put_row :
    (i j : ℕ) (y : Account) (s : Rows)
    → row_in (put_row i y s) j ≡ (if i == j then some y else row_in s j)
unfolding row_in put_row
row_in-put_row i j y [] = refl
row_in-put_row i j y ((k, x) ∷ s) = ground (arith, row_in-put_row i j y s)

row_in_fresh : (i : ℕ) (s : Rows) → highest s < i → row_in s i ≡ none
unfolding row_in highest
row_in_fresh i [] h = refl
row_in_fresh i ((k, x) ∷ s) h = ground (arith, row_in_fresh i s)

found_ok : (x : Account) (y : Option Account) (s s' : Rows) → found y s ≡ (ok x, s') → y ≡ some x
found_ok x none s s' e = absurd (ground arith)
found_ok x (some y) s s' e = ground arith

found_state : (y : Option Account) (s : Rows) → (found y s).1 ≡ s
found_state none s = refl
found_state (some x) s = refl

module _ (a : ℕ) (test : Account → Bool) (f : Account → Account) where
  change_ok :
      (n : ℕ) (y : Option Account) (s s' : Rows)
      → change a test f y s ≡ (ok (suc n), s')
      → (x : Account) × (y ≡ some x) × (test x ≡ true) × (row_in s' a ≡ some (f x))
  change_ok n none s s' e = absurd (ground arith)
  change_ok n (some x) s s' e = elim (Bool-cases (test x)) [
    | inl h ↦ (
      x,
      refl,
      h,
      ap (λ (w : Result ℕ × Rows). row_in w.1 a) (sym (rw h at e))
          ∙ ground (arith, row_in-put_row a a (f x) s),
    )
    | inr h ↦ absurd (ground (arith, rw h at e))
  ]

  change_none :
      (y : Option Account) (s s' : Rows)
      → change a test f y s ≡ (ok zero, s')
      → row_in s' a ≡ row_in s a
  change_none none s s' e = ap (λ (w : Result ℕ × Rows). row_in w.1 a) (sym e)
  change_none (some x) s s' e = elim (Bool-cases (test x)) [
    | inl h ↦ absurd (ground (arith, rw h at e))
    | inr h ↦ ap (λ (w : Result ℕ × Rows). row_in w.1 a) (sym (rw h at e))
  ]

  change_any :
      (y : Option Account) (s : Rows)
      → ((row_in (change a test f y s).1 a) ≡ row_in s a)
        ⊎ ((x : Account) × (y ≡ some x) × (row_in (change a test f y s).1 a ≡ some (f x)))
  change_any none s = inl refl
  change_any (some x) s = elim (Bool-cases (test x)) [
    | inl e ↦ inr (x, refl, rw e (ground (arith, row_in-put_row a a (f x) s)))
    | inr e ↦ inl (rw e refl)
  ]

  change_others :
      (b : ℕ) (y : Option Account) (s : Rows)
      → b ≢ a
      → row_in (change a test f y s).1 b ≡ row_in s b
  change_others b none s h = refl
  change_others b (some x) s h = elim (Bool-cases (test x)) [
    | inl e ↦ rw e (ground (arith, row_in-put_row a b (f x) s))
    | inr e ↦ rw e refl
  ]

pub rows_database-IsLawful : IsLawful rows_database row_in
rows_database-IsLawful = record {
  first_account_ok = λ a s s' x. found_ok x (row_in s a) s s';
  first_account_same = λ a b s. ap (λ t. row_in t b) (found_state (row_in s a) s);
  update_account_ok = λ a n test f s s'. change_ok a test f n (row_in s a) s s';
  update_account_none = λ a test f s s'. change_none a test f (row_in s a) s s';
  update_account_any = λ a test f s. change_any a test f (row_in s a) s;
  update_account_others = λ a b test f s. change_others a test f b (row_in s a) s;
}

matching-All : (test : Account → Bool) (s : Rows) → All (λ x. test x ≡ true) (matching test s)
unfolding matching
matching-All test [] = tt
matching-All test ((k, x) ∷ s) = elim (Bool-cases (test x)) [
  | inl e ↦ rw e (e, matching-All test s)
  | inr e ↦ rw e (matching-All test s)
]

All-drop : (P : Account → Type 0) (n : ℕ) (xs : List Account) → All P xs → All P (drop n xs)
All-drop P zero xs h = h
All-drop P (suc n) [] h = tt
All-drop P (suc n) (x ∷ xs) h = All-drop P n xs h.1

All-take : (P : Account → Type 0) (n : ℕ) (xs : List Account) → All P xs → All P (take n xs)
All-take P zero xs h = tt
All-take P (suc n) [] h = tt
All-take P (suc n) (x ∷ xs) h = (h.0, All-take P n xs h.1)

All-bounded :
    (P : Account → Type 0) (limit : Option ℕ) (xs : List Account)
    → All P xs
    → All P (bounded limit xs)
All-bounded P none xs h = h
All-bounded P (some n) xs h = All-take P n xs h

length-take-le : (n : ℕ) (xs : List Account) → length (take n xs) ≤ n
length-take-le zero xs = omega arith
length-take-le (suc n) [] = omega arith
length-take-le (suc n) (x ∷ xs) = omega (arith, length-take-le n xs)

reply_eq :
    {A : Type 0} {x y : A} {s t : Rows} → ◌≡◌ {A = Result A × Rows} (ok x, s) (ok y, t) → x ≡ y
reply_eq e = ground arith

pub rows_queries-IsQueryLawful : IsQueryLawful rows_queries row_in
unfolding row_in
rows_queries-IsQueryLawful = record {
  create_account_ok = λ x y s s' e. created x y s s' e;
  create_account_any = λ x b s. ground (arith, row_in_fresh b s);
  save_account_ok = λ x s s' e.
      ap (λ (w : Result (Unit {0}) × Rows). row_in w.1 x.id) (sym e)
      ∙ ground (arith, row_in-put_row x.id x.id x s);
  save_account_others = λ x b s h. ground (arith, row_in-put_row x.id b x s);
  count_accounts_same = λ test b s. refl;
  find_accounts_same = λ test offset limit order b s. refl;
  find_accounts_ok = λ test offset limit order s s' xs e.
      subst (All (λ x. test x ≡ true)) (reply_eq e)
        (All-bounded _ limit _ (All-drop _ (pos_part offset) _ (matching-All test s)));
  find_accounts_le = λ test offset n order s s' xs e.
      subst (λ ys. length ys ≤ n) (reply_eq e) (length-take-le n _);
}
  where
    inserted : Account → Rows → Rows
    inserted x s = (suc (highest s), record x { id = suc (highest s) }) ∷ s

    created :
        (x y : Account) (s s' : Rows)
        → rows_queries.create_account x s ≡ (ok y, s')
        → (row_in s y.id ≡ none) × (row_in s' y.id ≡ some y)
    created x y s s' e = (
      subst (λ (z : Account). row_in s z.id ≡ none) (reply_eq e)
          (row_in_fresh (suc (highest s)) s (omega arith)),
      ap (λ (w : Result Account × Rows). row_in w.1 y.id) (sym e)
          ∙ subst (λ (z : Account). row_in (inserted x s) z.id ≡ some z) (reply_eq e)
              (ground arith),
    )
