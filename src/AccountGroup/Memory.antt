-- ===== src/AccountGroup/Memory.antt =====
-- A table of groups in memory, an instance of the two repositories.
use quota_lane.Prelude.{
  ℕ, zero, suc, ◌-◌, ◌*◌, ◌≤◌, ◌<◌, String, ◌≡◌, refl, ap, inl, inr, Option, none, some, List, [],
  ◌∷◌, ◌++◌, arith, ltb, ◌==◌, if◌then◌else◌, length, take, drop, Bool-cases, Option-cases, subst,
  sym, ◌∙◌,
}
use quota_lane.Prelude.Int.{ℤ}
use quota_lane.Prelude.Effect.{record_not_found, ok, err, M}
use quota_lane.Account.{Account}
use quota_lane.AccountGroup.{AccountGroup, AccountGroupRepo, AccountRepo}
use quota_lane.AccountGroup.Laws.{Groups, Listed, IsLawful}

pub record Directory : Type 0 where
  pub groups : List AccountGroup
  pub accounts : ℕ → Option Account
  pub listed : List Account

unfoldable pub name_in : ℕ → List AccountGroup → Option String
name_in i [] = none
name_in i (g ∷ gs) = if g.id == i then some g.name else name_in i gs

unfoldable pub highest : List AccountGroup → ℕ
highest [] = 0
highest (g ∷ gs) = let rest = highest gs in if ltb rest g.id then g.id else rest

abbrev row : ℕ → String → String → ℤ → List ℕ → AccountGroup
row i n d p is = record {
  id = i;
  name = n;
  description = d;
  priority = p;
  account_ids = is;
  created_at = 0;
  updated_at = 0;
}

unfoldable pub set_group : AccountGroup → List AccountGroup → List AccountGroup
set_group x [] = []
set_group x (g ∷ gs) = let rest = set_group x gs in if g.id == x.id then x ∷ rest else g ∷ rest

unfoldable pub remove_group : ℕ → List AccountGroup → List AccountGroup
remove_group k [] = []
remove_group k (g ∷ gs) = let rest = remove_group k gs in if g.id == k then rest else g ∷ rest

abbrev look_up : ℕ → List AccountGroup → M Directory AccountGroup
look_up k [] s = (err record_not_found, s)
look_up k (g ∷ gs) s = let rest = look_up k gs s in if g.id == k then (ok g, s) else rest

abbrev found : Option Account → M Directory Account
found none s = (err record_not_found, s)
found (some x) s = (ok x, s)

abbrev members : List AccountGroup → List ℕ
members [] = []
members (g ∷ gs) = g.account_ids ++ members gs

abbrev pub memory_groups : AccountGroupRepo Directory
memory_groups = record {
  create_group = λ n d p is s. (
    ok (suc (highest s.groups)),
    record s { groups = row (suc (highest s.groups)) n d p is ∷ s.groups },
  );
  get_group = λ k s. look_up k s.groups s;
  list_groups =
      λ page size s. (ok (take size (drop ((page - 1) * size) s.groups), length s.groups), s);
  update_group = λ k n d p is s. (ok tt, record s { groups = set_group (row k n d p is) s.groups });
  delete_group = λ k s. (ok tt, record s { groups = remove_group k s.groups });
  get_account_groups = λ a s. (ok s.groups, s);
  get_all_grouped_account_ids = λ s. (ok (members s.groups), s);
}

abbrev pub memory_accounts : AccountRepo Directory
memory_accounts = record {
  get_account = λ a s. found (s.accounts a) s;
  list_accounts = λ s. (ok (s.listed, length s.listed), s);
}

abbrev pub memory_view : Groups Directory
memory_view = record { name_of = λ s i. name_in i s.groups; count = λ s. length s.groups }

name_in_fresh : (i : ℕ) (gs : List AccountGroup) → highest gs < i → name_in i gs ≡ none
unfolding name_in highest
name_in_fresh i [] h = refl
name_in_fresh i (g ∷ gs) h = ground (arith, name_in_fresh i gs)

name_in-Listed :
    (i : ℕ) (n : String) (gs : List AccountGroup) → name_in i gs ≡ some n → Listed i n gs
unfolding name_in
name_in-Listed i n [] h = cc
name_in-Listed i n (g ∷ gs) h = elim (Bool-cases (g.id == i)) [
  | inl e ↦ inl (ground arith, ground arith)
  | inr e ↦ inr (name_in-Listed i n gs (ground arith))
]

take_all : (n : ℕ) (gs : List AccountGroup) → length gs ≤ n → take n gs ≡ gs
take_all zero [] h = refl
take_all zero (g ∷ gs) h = absurd (omega arith)
take_all (suc n) [] h = refl
take_all (suc n) (g ∷ gs) h = ap (λ l. g ∷ l) (take_all n gs (omega arith))

name_in-set_group :
    (i : ℕ) (x : AccountGroup) (gs : List AccountGroup)
    → name_in i (set_group x gs) ≡ (
        if i == x.id
        then elim (name_in i gs) [ none ↦ none | some _ ↦ some x.name ]
        else name_in i gs)
unfolding name_in set_group
name_in-set_group i x [] = ground arith
name_in-set_group i x (g ∷ gs) = ground (arith, name_in-set_group i x gs)

name_in-remove_group :
    (i k : ℕ) (gs : List AccountGroup)
    → name_in i (remove_group k gs) ≡ (if i == k then none else name_in i gs)
unfolding name_in remove_group
name_in-remove_group i k [] = ground arith
name_in-remove_group i k (g ∷ gs) = ground (arith, name_in-remove_group i k gs)

pub look_up_ok :
    (k : ℕ) (gs : List AccountGroup) (s s' : Directory) (g : AccountGroup)
    → look_up k gs s ≡ (ok g, s')
    → name_in k gs ≡ some g.name
unfolding name_in
look_up_ok k [] s s' g e = absurd (ground arith)
look_up_ok k (x ∷ gs) s s' g e = ground (arith, look_up_ok k gs s s' g)

look_up_state : (k : ℕ) (gs : List AccountGroup) (s : Directory) → (look_up k gs s).1 ≡ s
look_up_state k [] s = refl
look_up_state k (x ∷ gs) s = ground (arith, look_up_state k gs s)

found_state : (o : Option Account) (s : Directory) → (found o s).1 ≡ s
found_state none s = refl
found_state (some x) s = refl

pub memory_groups-IsLawful : IsLawful memory_groups memory_accounts memory_view
unfolding name_in
memory_groups-IsLawful = record {
  list_groups_ok = λ size n s s' gs e few i name h.
      subst (Listed i name) (fst_page size n s s' gs e few) (name_in-Listed i name s.groups h);
  list_groups_same = λ page size s i. refl;
  get_group_same = λ k s. (
    λ i. ap (λ t. name_in i t.groups) (look_up_state k s.groups s),
    ap (λ t. length t.groups) (look_up_state k s.groups s),
  );
  get_account_same = λ a s i. ap (λ t. name_in i t.groups) (found_state (s.accounts a) s);
  create_group_any = λ n d p is s. inr (
    suc (highest s.groups),
    name_in_fresh (suc (highest s.groups)) s.groups (omega arith),
    (ground arith, λ i h. ground arith),
  );
  update_group_any = λ k n d p is s. elim (Option-cases (name_in k s.groups)) [
    | inl e ↦ inl (λ i. ground (arith, e, name_in-set_group i (row k n d p is) s.groups))
    | inr (m, e) ↦ inr (
      ground (arith, e, name_in-set_group k (row k n d p is) s.groups),
      λ i h. ground (arith, name_in-set_group i (row k n d p is) s.groups),
    )
  ];
  delete_group_any = λ k s. inr (
    ground (arith, name_in-remove_group k k s.groups),
    λ i h. ground (arith, name_in-remove_group i k s.groups),
  );
}
  where
    fst_page :
        (size n : ℕ) (s s' : Directory) (gs : List AccountGroup)
        → memory_groups.list_groups 1 size s ≡ (ok (gs, n), s')
        → length s.groups ≤ size
        → s.groups ≡ gs
    fst_page size n s s' gs e few = sym (take_all size s.groups few) ∙ ground arith
