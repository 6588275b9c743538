-- ===== src/DbErrors/Laws.antt =====
-- pkg/errors/db_errors.go: the keyword search, and the predicates on errors.
use quota_lane.Prelude.{
  ℕ, zero, suc, ◌+◌, ◌<◌, ◌≡◌, ◌↔◌, refl, ap, inl, inr, true, false, some, List, [], ◌∷◌, ◌++◌, map,
  length, length-append, drop, arith, ltb, ◌==◌, ==_iff, Bool-cases,
}
use quota_lane.DbErrors.{
  GoError, to_lower, matches_here, contains_from, contains, classify_mysql_error, classify,
  classify_db_error, is_duplicate_key_error,
}

-- The keyword stands in the text, up to the case of ASCII letters.
abbrev pub Occurs : List ℕ → List ℕ → Type 0
Occurs str keyword =
    (before : List ℕ) × (found : List ℕ) × (after : List ℕ) × (str ≡ before ++ (found ++ after))
    × (map to_lower found ≡ map to_lower keyword)

matches_here_sound :
    (str keyword : List ℕ)
    → matches_here str keyword ≡ true
    → (found : List ℕ) × (after : List ℕ) × (str ≡ found ++ after)
      × (map to_lower found ≡ map to_lower keyword)
unfolding matches_here
matches_here_sound str [] h = ([], str, refl, refl)
matches_here_sound [] (k ∷ ks) h = cc
matches_here_sound (c ∷ cs) (k ∷ ks) h = elim (Bool-cases (to_lower c == to_lower k)) [
  | inl e ↦
      let (found, after, p, q) = matches_here_sound cs ks (rw e at h) in
      (c ∷ found, after, ap (λ l. c ∷ l) p, λ i. (==_iff _ _).0 e i ∷ q i)
  | inr e ↦ cc (rw e at h)
]

matches_here_complete :
    (found after keyword : List ℕ)
    → map to_lower found ≡ map to_lower keyword
    → matches_here (found ++ after) keyword ≡ true
unfolding matches_here
matches_here_complete found after [] h = matches_nil (found ++ after)
  where
    matches_nil : (l : List ℕ) → matches_here l [] ≡ true
    matches_nil [] = refl
    matches_nil (x ∷ l) = refl
matches_here_complete [] after (k ∷ ks) h = cc
matches_here_complete (c ∷ cs) after (k ∷ ks) h =
    rw ((==_iff (to_lower c) (to_lower k)).1 (cc)) (matches_here_complete cs after ks (cc))

contains_from_sound :
    (n : ℕ) (str keyword : List ℕ) → contains_from n str keyword ≡ true → Occurs str keyword
unfolding contains_from
contains_from_sound zero str keyword h = cc
contains_from_sound (suc n) str keyword h = elim (Bool-cases (matches_here str keyword)) [
  | inl e ↦ let (found, after, p, q) = matches_here_sound str keyword e in ([], found, after, p, q)
  | inr e ↦ later n str keyword (contains_from_sound n (drop 1 str) keyword (rw e at h))
]
  where
    later : (n : ℕ) (str keyword : List ℕ) → Occurs (drop 1 str) keyword → Occurs str keyword
    later n [] keyword o = o
    later n (c ∷ cs) keyword (before, found, after, p, q) =
        (c ∷ before, found, after, ap (λ l. c ∷ l) p, q)

contains_from_complete :
    (n : ℕ) (before found after keyword : List ℕ)
    → map to_lower found ≡ map to_lower keyword
    → length before < n
    → contains_from n (before ++ (found ++ after)) keyword ≡ true
unfolding contains_from
contains_from_complete zero before found after keyword q lt = absurd (omega arith)
contains_from_complete (suc n) [] found after keyword q lt =
    rw (matches_here_complete found after keyword q)
contains_from_complete (suc n) (c ∷ before) found after keyword q lt =
    ground (arith, contains_from_complete n before found after keyword q)

length_lower : (l : List ℕ) → length (map to_lower l) ≡ length l
length_lower [] = refl
length_lower (x ∷ l) = ap suc (length_lower l)

-- The search finds a keyword exactly if it stands in the text, up to the case of ASCII letters.
pub contains_iff : (str keyword : List ℕ) → (contains str keyword ≡ true) ↔ Occurs str keyword
unfolding contains
contains_iff str keyword = (sound, complete)
  where
    sound : contains str keyword ≡ true → Occurs str keyword
    sound h = elim (Bool-cases (ltb (length str) (length keyword))) [
      | inl e ↦ cc (rw e at h)
      | inr e ↦ contains_from_sound _ str keyword (rw e at h)
    ]

    complete : Occurs str keyword → contains str keyword ≡ true
    complete (before, found, after, p, q) = rw (short) (
        rw p (
          contains_from_complete _ before found after keyword q
            (omega (arith, sizes, ap length p))))
      where
        sizes :
            length (before ++ (found ++ after)) ≡ length before + (length keyword + length after)
        sizes = omega (
          arith,
          length-append before (found ++ after),
          length-append found after,
          length_lower found,
          length_lower keyword,
          ap length q,
        )

        short : ltb (length str) (length keyword) ≡ false
        short = ground (arith, sizes, ap length p)

-- An error counts as a duplicate key exactly if it is no missing record and carries the MySQL number
-- 1062, whatever its text says.
pub is_duplicate_key_error_iff :
    (e : GoError)
    → (is_duplicate_key_error (some e) ≡ true)
      ↔ ((e.is_record_not_found ≡ false) × (e.mysql_number ≡ some 1062))
unfolding is_duplicate_key_error classify_db_error classify classify_mysql_error
is_duplicate_key_error_iff e = (λ h. ground arith, λ h. ground arith)
