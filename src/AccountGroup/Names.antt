-- ===== src/AccountGroup/Names.antt =====
-- internal/biz/account_group.go: the checks of group names.
use quota_lane.Prelude.{
  ℕ, ◌≤◌, String, ◌≡◌, ◌≢◌, refl, sym, ap, fst_path, ◌∙◌, inl, inr, true, false, Option, none, some,
  some-injective, List, [], ◌∷◌, arith, str_eq, eq_iff, ◌==◌, Bool-cases,
}
use quota_lane.Prelude.Int.{ℤ}
use quota_lane.Prelude.Effect.{Result, ok, err, panic, read, Result-cases, ◌>>◌}
use quota_lane.Prelude.Hoare.{
  Always, Ensures, Ensures-run, Ensures-keep, Ensures-pure, Ensures-fail, Ensures-panics,
  Ensures-bind, Ensures-then, Ensures-attempt,
}
use quota_lane.Account.{Account}
use quota_lane.AccountGroup.{
  AccountGroup, AccountGroupRepo, AccountRepo, is_taken, is_taken_by_other, refuse_missing,
  check_accounts, check_name, create_account_group, update_account_group, delete_account_group,
  Change, create, update, delete, perform,
}
use quota_lane.AccountGroup.Laws.{Groups, Listed, SameNames, Renamed, IsUnique, IsLawful}

is_taken_ne :
    (name n : String) (i : ℕ) (gs : List AccountGroup)
    → is_taken name gs ≡ false
    → Listed i n gs
    → n ≢ name
unfolding is_taken
is_taken_ne name n i [] h l q = elim l [ ]
is_taken_ne name n i (g ∷ gs) h (inl (_, e)) q = ground (arith, eq_iff g.name name)
is_taken_ne name n i (g ∷ gs) h (inr l) q =
    is_taken_ne name n i gs (ground (arith, eq_iff g.name name)) l q

is_taken_by_other_ne :
    (k : ℕ) (name n : String) (i : ℕ) (gs : List AccountGroup)
    → is_taken_by_other k name gs ≡ false
    → Listed i n gs
    → i ≢ k
    → n ≢ name
unfolding is_taken_by_other
is_taken_by_other_ne k name n i [] h l out q = elim l [ ]
is_taken_by_other_ne k name n i (g ∷ gs) h (inl (d, e)) out q = ground (arith, eq_iff g.name name)
is_taken_by_other_ne k name n i (g ∷ gs) h (inr l) out q =
    is_taken_by_other_ne k name n i gs (ground (arith, eq_iff g.name name)) l out q

module _ {S : Type 0} (v : Groups S) where
  -- No other group has the name.
  abbrev IsFree : ℕ → String → S → Type 0
  IsFree k name s = (i : ℕ) → i ≢ k → v.name_of s i ≢ some name

  same_IsUnique : (s t : S) → SameNames v s t → IsUnique v s → IsUnique v t
  same_IsUnique s t e u i j n p q = u i j n (sym (e i) ∙ p) (sym (e j) ∙ q)

  Renamed-IsUnique :
      (k : ℕ) (name : Option String) (s t : S)
      → Renamed v k name s t
      → ((n : String) → name ≡ some n → IsFree k n s)
      → IsUnique v s
      → IsUnique v t
  Renamed-IsUnique k name s t (here, others) free u i j n p q = elim (Bool-cases (i == k)) [
    | inl a ↦ elim (Bool-cases (j == k)) [
      | inl b ↦ ground arith
      | inr b ↦ absurd (clash i j (ground arith) (ground arith) p q)
    ]
    | inr a ↦ elim (Bool-cases (j == k)) [
      | inl b ↦ absurd (clash j i (ground arith) (ground arith) q p)
      | inr b ↦ u i j n (sym (others i (ground arith)) ∙ p) (sym (others j (ground arith)) ∙ q)
    ]
  ]
    where
      clash : (a b : ℕ) → a ≡ k → b ≢ k → v.name_of t a ≡ some n → v.name_of t b ≡ some n → ⊥
      clash a b e ne x y =
          free n (sym here ∙ ap (v.name_of t) (sym e) ∙ x) b ne (sym (others b ne) ∙ y)

module _ {S : Type 0} (repo : AccountGroupRepo S) (accounts : AccountRepo S) (now : S → ℕ)
    (v : Groups S) (law : IsLawful repo accounts v) where
  -- The validation of accounts leaves the names alone.
  check_accounts-SameNames :
      (is : List ℕ) (s : S) → SameNames v s (check_accounts repo accounts now is s).1
  unfolding check_accounts
  check_accounts-SameNames is s = Ensures-run P Always _ (good is) s (λ i. refl)
    where
      P : S → Type 0
      P t = SameNames v s t

      refuse :
          (r : Result Account)
          → Ensures P (Always {A = Unit {0}}) (refuse_missing repo accounts now r)
      refuse (ok x) = Ensures-pure P Always tt tt
      refuse (err e) = Ensures-fail P Always _
      refuse panic = Ensures-panics P Always

      good : (is : List ℕ) → Ensures P (Always {A = Unit {0}}) (check_accounts repo accounts now is)
      good [] = Ensures-pure P Always tt tt
      good (a ∷ as') =
          Ensures-then P Always _ _
            (Ensures-bind P _ Always _ _
              (Ensures-attempt P Always _ (
                Ensures-keep P (accounts.get_account a)
                  (λ t f i. law.get_account_same a t i ∙ f i)))
              λ r _. refuse r)
            (good as')

  create-IsUnique :
      (name d : String) (p : ℤ) (is : List ℕ) (s : S)
      → v.count s ≤ 1000
      → IsUnique v s
      → IsUnique v (create_account_group repo accounts now name d p is s).1
  unfolding create_account_group read
  create-IsUnique name d p is s few u = elim (Result-cases (repo.list_groups 1 1000 s)) [
    | inl (gs, q) ↦ elim (Bool-cases (is_taken name gs.0)) [
      | inl t ↦ rw q (rw t u₁)
      | inr t ↦ elim (Result-cases (check_accounts repo accounts now is s₁)) [
        | inl (_, r) ↦ elim (Result-cases (repo.create_group name d p is s₂)) [
          | inl (k, c) ↦ rw q (rw t (rw r (rw c (created gs q t))))
          | inr (inl (e, c)) ↦ rw q (rw t (rw r (rw c (created gs q t))))
          | inr (inr c) ↦ rw q (rw t (rw r (rw c (created gs q t))))
        ]
        | inr (inl (e, r)) ↦ rw q (rw t (rw r u₂))
        | inr (inr r) ↦ rw q (rw t (rw r u₂))
      ]
    ]
    | inr (inl (e, q)) ↦ rw q u₁
    | inr (inr q) ↦ rw q u₁
  ]
    where
      s₁ : S
      s₁ = (repo.list_groups 1 1000 s).1

      s₂ : S
      s₂ = (check_accounts repo accounts now is s₁).1

      u₁ : IsUnique v s₁
      u₁ = same_IsUnique v s s₁ (law.list_groups_same 1 1000 s) u

      u₂ : IsUnique v s₂
      u₂ = same_IsUnique v s₁ s₂ (check_accounts-SameNames is s₁) u₁

      created :
          (gs : List AccountGroup × ℕ)
          → repo.list_groups 1 1000 s ≡ (ok gs, s₁)
          → is_taken name gs.0 ≡ false
          → IsUnique v (repo.create_group name d p is s₂).1
      created gs q t = elim (law.create_group_any name d p is s₂) [
        | inl same ↦ same_IsUnique v s₂ _ same u₂
        | inr (k, _, renamed) ↦
            Renamed-IsUnique v k (some name) s₂ _ renamed
              (λ n e j out x.
                is_taken_ne name n j gs.0 t
                  (law.list_groups_ok 1000 gs.1 s s₁ gs.0 q few j n (
                    sym (law.list_groups_same 1 1000 s j)
                    ∙ sym (check_accounts-SameNames is s₁ j)
                    ∙ x))
                  (sym (some-injective _ _ e)))
              u₂
      ]

  -- What `check_name` leaves, and what it means that it lets a name through.
  check_name-SameNames :
      (k : ℕ) (name : String) (s : S) → SameNames v s (check_name repo accounts now k name s).1
  unfolding check_name
  check_name-SameNames k name s i = elim (Result-cases (repo.list_groups 1 1000 s)) [
    | inl (gs, q) ↦ elim (Bool-cases (is_taken_by_other k name gs.0)) [
      | inl t ↦ rw q (rw t (law.list_groups_same 1 1000 s i))
      | inr t ↦ rw q (rw t (law.list_groups_same 1 1000 s i))
    ]
    | inr (inl (e, q)) ↦ rw q (law.list_groups_same 1 1000 s i)
    | inr (inr q) ↦ rw q (law.list_groups_same 1 1000 s i)
  ]

  check_name-IsFree :
      (k : ℕ) (name : String) (s : S)
      → v.count s ≤ 1000
      → (check_name repo accounts now k name s).0 ≡ ok tt
      → IsFree v k name s
  unfolding check_name
  check_name-IsFree k name s few fine i out x = elim (Result-cases (repo.list_groups 1 1000 s)) [
    | inl (gs, q) ↦ elim (Bool-cases (is_taken_by_other k name gs.0)) [
      | inl t ↦ absurd (ground (arith, q, t))
      | inr t ↦
          is_taken_by_other_ne k name name i gs.0 t
            (law.list_groups_ok 1000 gs.1 s _ gs.0 q few i name x) out refl
    ]
    | inr (inl (e, q)) ↦ absurd (ground (arith, q))
    | inr (inr q) ↦ absurd (ground (arith, q))
  ]

  updated :
      (k : ℕ) (name d : String) (p : ℤ) (is : List ℕ) (s : S)
      → IsFree v k name s
      → IsUnique v s
      → IsUnique v (repo.update_group k name d p is s).1
  updated k name d p is s free u = elim (law.update_group_any k name d p is s) [
    | inl same ↦ same_IsUnique v s _ same u
    | inr renamed ↦
        Renamed-IsUnique v k (some name) s _ renamed (λ n e j out x. free j out (x ∙ sym e)) u
  ]

  -- A group that `GetGroup` comes back with has the name that is stored.
  abbrev pub IsCurrent : ℕ → S → Type 0
  IsCurrent k s =
      (g : AccountGroup) (s' : S) → repo.get_group k s ≡ (ok g, s') → v.name_of s k ≡ some g.name

  -- The rest of `UpdateAccountGroup` after the check of the name.
  rest-IsUnique :
      (k : ℕ) (name d : String) (p : ℤ) (is : List ℕ) (s : S)
      → IsFree v k name s
      → IsUnique v s
      → IsUnique v ((check_accounts repo accounts now is >> repo.update_group k name d p is) s).1
  rest-IsUnique k name d p is s free u =
      elim (Result-cases (check_accounts repo accounts now is s)) [
        | inl (_, r) ↦ rw r (updated k name d p is s₁ (λ i out x. free i out (sym (same i) ∙ x)) u₁)
        | inr (inl (e, r)) ↦ rw r u₁
        | inr (inr r) ↦ rw r u₁
      ]
    where
      s₁ : S
      s₁ = (check_accounts repo accounts now is s).1

      same : SameNames v s s₁
      same = check_accounts-SameNames is s

      u₁ : IsUnique v s₁
      u₁ = same_IsUnique v s s₁ same u

  update-IsUnique :
      (k : ℕ) (name d : String) (p : ℤ) (is : List ℕ) (s : S)
      → v.count s ≤ 1000
      → IsCurrent k s
      → IsUnique v s
      → IsUnique v (update_account_group repo accounts now k name d p is s).1
  unfolding update_account_group
  update-IsUnique k name d p is s few current u = elim (Result-cases (repo.get_group k s)) [
    | inl (g, q) ↦ elim (Bool-cases (str_eq name g.name)) [
      | inl t ↦ rw q (rw t (rest-IsUnique k name d p is s₁ (kept g q t) u₁))
      | inr t ↦ elim (Result-cases (check_name repo accounts now k name s₁)) [
        | inl (_, r) ↦ rw q (
            rw t (
              rw r (
                rest-IsUnique k name d p is _
                  (λ i out x.
                    check_name-IsFree k name s₁ few₁ (fst_path r) i out
                      (sym (check_name-SameNames k name s₁ i) ∙ x))
                  u₂)))
        | inr (inl (e, r)) ↦ rw q (rw t (rw r u₂))
        | inr (inr r) ↦ rw q (rw t (rw r u₂))
      ]
    ]
    | inr (inl (e, q)) ↦ rw q u₁
    | inr (inr q) ↦ rw q u₁
  ]
    where
      s₁ : S
      s₁ = (repo.get_group k s).1

      same : SameNames v s s₁
      same = (law.get_group_same k s).0

      few₁ : v.count s₁ ≤ 1000
      few₁ = omega (arith, (law.get_group_same k s).1)

      u₁ : IsUnique v s₁
      u₁ = same_IsUnique v s s₁ same u

      u₂ : IsUnique v (check_name repo accounts now k name s₁).1
      u₂ = same_IsUnique v s₁ _ (check_name-SameNames k name s₁) u₁

      -- A group that keeps its name.
      kept :
          (g : AccountGroup)
          → repo.get_group k s ≡ (ok g, s₁)
          → str_eq name g.name ≡ true
          → IsFree v k name s₁
      kept g q t i out x = out (
          u i k name (sym (same i) ∙ x)
            (current g s₁ q ∙ ap some (ground (arith, eq_iff name g.name))))

  delete-IsUnique :
      (k : ℕ) (s : S) → IsUnique v s → IsUnique v (delete_account_group repo accounts now k s).1
  unfolding delete_account_group
  delete-IsUnique k s u = elim (Result-cases (repo.get_group k s)) [
    | inl (g, q) ↦ rw q (elim (law.delete_group_any k s₁) [
      | inl same ↦ same_IsUnique v s₁ _ same u₁
      | inr renamed ↦ Renamed-IsUnique v k none s₁ _ renamed (λ n e. cc) u₁
    ])
    | inr (inl (e, q)) ↦ rw q u₁
    | inr (inr q) ↦ rw q u₁
  ]
    where
      s₁ : S
      s₁ = (repo.get_group k s).1

      u₁ : IsUnique v s₁
      u₁ = same_IsUnique v s s₁ (law.get_group_same k s).0 u

  -- What an update is answered by `GetGroup` is not out of date.
  abbrev pub IsUpToDate : Change → S → Type 0
  IsUpToDate (create n d p is) s = Unit
  IsUpToDate (update k n d p is) s = IsCurrent k s
  IsUpToDate (delete k) s = Unit

  -- If no two groups have one name and there are at most 1000 groups, then no two have one name after
  -- any creation, any deletion, and any update whose `GetGroup` comes back with the stored name if it
  -- comes back with a group, whatever the other calls come back with.
  pub perform-IsUnique :
      (op : Change) (s : S)
      → v.count s ≤ 1000
      → IsUpToDate op s
      → IsUnique v s
      → IsUnique v (perform repo accounts now op s)
  perform-IsUnique (create n d p is) s few current u = create-IsUnique n d p is s few u
  perform-IsUnique (update k n d p is) s few current u = update-IsUnique k n d p is s few current u
  perform-IsUnique (delete k) s few current u = delete-IsUnique k s u
