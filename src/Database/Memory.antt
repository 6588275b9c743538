-- ===== src/Database/Memory.antt =====
-- A table in memory, an instance of `Database`.
use quota_lane.Prelude.{
  ℕ, zero, suc, ◌≡◌, ◌≢◌, ◌⊎◌, inl, inr, refl, sym, ap, Bool-cases, Bool, true, Option, none, some,
  arith, ◌==◌, if◌then◌else◌,
}
use quota_lane.Prelude.Effect.{Result, record_not_found, ok, err, M}
use quota_lane.Account.{Account}
use quota_lane.Database.{Database, IsLawful}

abbrev pub Table : Type 0
Table = ℕ → Option Account

abbrev put_row : Table → ℕ → Account → Table
put_row t a x b = if b == a then some x else t b

abbrev found : Option Account → M Table Account
found none t = (err record_not_found, t)
found (some x) t = (ok x, t)

abbrev change : ℕ → (Account → Bool) → (Account → Account) → Option Account → M Table ℕ
change a test f none t = (ok 0, t)
change a test f (some x) t = if test x then (ok 1, put_row t a (f x)) else (ok 0, t)

abbrev pub memory_database : Database Table
memory_database = record {
  first_account = λ a t. found (t a) t;
  update_account = λ a test f t. change a test f (t a) t;
}

found_ok : (x : Account) (y : Option Account) (t t' : Table) → found y t ≡ (ok x, t') → y ≡ some x
found_ok x none t t' e = absurd (ground arith)
found_ok x (some y) t t' e = ground arith

found_same : (y : Option Account) (t : Table) (b : ℕ) → (found y t).1 b ≡ t b
found_same none t b = refl
found_same (some x) t b = refl

module _ (a : ℕ) (test : Account → Bool) (f : Account → Account) where
  change_ok :
      (n : ℕ) (y : Option Account) (t t' : Table)
      → change a test f y t ≡ (ok (suc n), t')
      → (x : Account) × (y ≡ some x) × (test x ≡ true) × (t' a ≡ some (f x))
  change_ok n none t t' e = absurd (ground arith)
  change_ok n (some x) t t' e = elim (Bool-cases (test x)) [
    | inl h ↦ (x, refl, h, rw (← snd_eq _ _ _ (rw h at e)) (here x t))
    | inr h ↦ absurd (ground (arith, rw h at e))
  ]
    where
      here : (x : Account) (t : Table) → put_row t a (f x) a ≡ some (f x)
      here x t = ground arith

      snd_eq : (w u : Table) (k : ℕ) → ◌≡◌ {A = Result ℕ × Table} (ok 1, w) (ok k, u) → w ≡ u
      snd_eq w u k h = λ i. (h i).1

  change_none :
      (y : Option Account) (t t' : Table) → change a test f y t ≡ (ok zero, t') → t' a ≡ t a
  change_none none t t' e = ap (λ (w : Result ℕ × Table). w.1 a) (sym e)
  change_none (some x) t t' e = elim (Bool-cases (test x)) [
    | inl h ↦ absurd (ground (arith, rw h at e))
    | inr h ↦ ap (λ (w : Result ℕ × Table). w.1 a) (sym (rw h at e))
  ]

  change_any :
      (y : Option Account) (t : Table)
      → t a ≡ y
      → ((change a test f y t).1 a ≡ t a)
        ⊎ ((x : Account) × (y ≡ some x) × ((change a test f y t).1 a ≡ some (f x)))
  change_any none t h = inl refl
  change_any (some x) t h = elim (Bool-cases (test x)) [
    | inl e ↦ inr (x, refl, rw e (ground arith))
    | inr e ↦ inl (rw e)
  ]

  change_others : (b : ℕ) (y : Option Account) (t : Table) → b ≢ a → (change a test f y t).1 b ≡ t b
  change_others b none t h = refl
  change_others b (some x) t h = elim (Bool-cases (test x)) [
    | inl e ↦ rw e (ground arith)
    | inr e ↦ rw e
  ]

pub memory_database-IsLawful : IsLawful memory_database (λ t. t)
memory_database-IsLawful = record {
  first_account_ok = λ a t t' x. found_ok x (t a) t t';
  first_account_same = λ a b t. found_same (t a) t b;
  update_account_ok = λ a n test f t t'. change_ok a test f n (t a) t t';
  update_account_none = λ a test f t t'. change_none a test f (t a) t t';
  update_account_any = λ a test f t. change_any a test f (t a) t refl;
  update_account_others = λ a b test f t. change_others a test f b (t a) t;
}
