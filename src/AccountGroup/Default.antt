-- ===== src/AccountGroup/Default.antt =====
-- internal/biz/account_group.go: `GetDefaultGroup`.
use quota_lane.Prelude.{
  ℕ, ◌≡◌, ◌↔◌, refl, sym, ap, ◌∙◌, Bool, true, false, List, [], ◌∷◌, map, arith, ◌==◌, Bool-cases,
  inl, inr,
}
use quota_lane.Prelude.Int.{negsuc}
use quota_lane.Prelude.Effect.{ok, read}
use quota_lane.Account.{Account}
use quota_lane.AccountGroup.{
  AccountGroup, AccountGroupRepo, AccountRepo, is_member, ungrouped, get_default_group,
}

-- The id stands in the list.
pub data In (i : ℕ) : List ℕ → Type 0 where
  first : {x : ℕ} {xs : List ℕ} → i ≡ x → In i (x ∷ xs)
  later : {x : ℕ} {xs : List ℕ} → In i xs → In i (x ∷ xs)

is_member_iff : (i : ℕ) (l : List ℕ) → (is_member i l ≡ true) ↔ In i l
is_member_iff i l = (sound l, complete l)
  where
    sound : (l : List ℕ) → is_member i l ≡ true → In i l
    sound [] h = cc
    sound (j ∷ js) h = elim (Bool-cases (j == i)) [
      | inl e ↦ first (ground arith)
      | inr e ↦ later (sound js (ground arith))
    ]

    complete : (l : List ℕ) → In i l → is_member i l ≡ true
    complete [] m = elim m [ ]
    complete (j ∷ js) (first e) = ground arith
    complete (j ∷ js) (later m) = ground (arith, complete js m)

-- An id that is kept, in front of the rest.
kept :
    (i j : ℕ) (grouped rest js : List ℕ)
    → is_member j grouped ≡ false
    → (In i rest → In i js × (is_member i grouped ≡ false))
    → In i (j ∷ rest)
    → In i (j ∷ js) × (is_member i grouped ≡ false)
kept i j grouped rest js e f (first p) = (first p, ap (λ k. is_member k grouped) p ∙ e)
kept i j grouped rest js e f (later m) = (later (f m).0, (f m).1)

ungrouped_iff :
    (i : ℕ) (grouped all : List ℕ)
    → In i (ungrouped grouped all) ↔ (In i all × (is_member i grouped ≡ false))
unfolding ungrouped
ungrouped_iff i grouped all = (sound all, λ h. complete all h.0 h.1)
  where
    sound : (l : List ℕ) → In i (ungrouped grouped l) → In i l × (is_member i grouped ≡ false)
    sound [] m = elim m [ ]
    sound (j ∷ js) m = elim (Bool-cases (is_member j grouped)) [
      | inl e ↦ let (a, b) = sound js (rw e at m) in (later a, b)
      | inr e ↦ kept i j grouped (ungrouped grouped js) js e (sound js) (rw e at m)
    ]

    complete : (l : List ℕ) → In i l → is_member i grouped ≡ false → In i (ungrouped grouped l)
    complete [] m h = elim m [ ]
    complete (j ∷ js) (first p) h = rw (ap (λ k. is_member k grouped) (sym p) ∙ h) (first p)
    complete (j ∷ js) (later m) h = elim (Bool-cases (is_member j grouped)) [
      | inl e ↦ rw e (complete js m h)
      | inr e ↦ rw e (later (complete js m h))
    ]

-- If the listing of the accounts and of the grouped ids comes back with no error, then so does
-- `GetDefaultGroup`, and its members are exactly the listed accounts whose ids are not grouped.
pub get_default_group_iff :
    {S : Type 0} (repo : AccountGroupRepo S) (accounts : AccountRepo S) (now : S → ℕ) (s s₁ s₂ : S)
    (xs : List Account × ℕ) (grouped : List ℕ)
    → accounts.list_accounts s ≡ (ok xs, s₁)
    → repo.get_all_grouped_account_ids s₁ ≡ (ok grouped, s₂)
    → (g : AccountGroup) × (get_default_group repo accounts now s ≡ (ok g, s₂))
      × ((i : ℕ) → In i g.account_ids ↔ (In i (map (λ (x : Account). x.id) xs.0) × ¬ In i grouped))
unfolding get_default_group read
get_default_group_iff repo accounts now s s₁ s₂ xs grouped p q =
    (virtual, rw p (rw q refl), members)
  where
    ids : List ℕ
    ids = map (λ (x : Account). x.id) xs.0

    virtual : AccountGroup
    virtual = record {
      id = 0;
      name = "default";
      description = "未分组账户（默认组）";
      priority = negsuc 0;
      account_ids = ungrouped grouped ids;
      created_at = now s₂;
      updated_at = now s₂;
    }

    members : (i : ℕ) → In i (ungrouped grouped ids) ↔ (In i ids × ¬ In i grouped)
    members i = (
      λ m.
          let (a, b) = (ungrouped_iff i grouped ids).0 m in
          (a, λ n. cc (b, (is_member_iff i grouped).1 n)),
      λ h. (ungrouped_iff i grouped ids).1 (h.0, outside (is_member i grouped) refl h.1),
    )
      where
        outside :
            (b : Bool) → is_member i grouped ≡ b → ¬ In i grouped → is_member i grouped ≡ false
        outside true e n = absurd (n ((is_member_iff i grouped).0 e))
        outside false e n = e
