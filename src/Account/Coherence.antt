-- ===== src/Account/Coherence.antt =====
-- internal/data/account.go: the cached accounts and the rows of the table.
pub mod Calls
pub mod Reading
use quota_lane.Prelude.{
  ℕ, zero, suc, ◌≡◌, ◌≢◌, ◌⊎◌, refl, sym, ap, ◌∙◌, subst, inl, inr, Bytes, Bool, true, false,
  Option, none, some, some-injective, List, [], ◌∷◌, arith, ◌==◌, ==_iff, Bool-cases, Option-cases,
  All,
}
use quota_lane.Prelude.Int.{ℤ, pos}
use quota_lane.Prelude.Effect.{
  Error, Result, ok, err, panic, M, wrap, attempt, ignore, ignore_state, read, Result-cases, ◌>>=◌,
  ◌>>◌,
}
use quota_lane.Account.{Account, AccountStatus, AccountProvider}
use quota_lane.Account.Repo.{AccountFilter}
use quota_lane.Cache
use quota_lane.Cache.{Codec, from_reply}
use quota_lane.Cache.Laws.{IsCodec}
use quota_lane.Database
use quota_lane.Database.{Database, Queries}
use quota_lane.DbErrors.{GoError}
use quota_lane.Redis
use quota_lane.Redis.{Redis, Key, account_cache, View, Value, int, text, minute}
use quota_lane.World.{World, on_table, on_redis}
use quota_lane.Account.Conditions.{any_row}
use quota_lane.Account.Store.{clear_cache, confirm}

module _ {D R : Type 0} (codec : Codec Account) (row : D → ℕ → Option Account) (v : View R) where
  -- The account that a stored value is read as.
  abbrev as_account : Option Value → Option Account
  as_account none = none
  as_account (some (int n)) = none
  as_account (some (text b)) = codec.decode b

  abbrev pub cached : R → ℕ → Option Account
  cached r a = as_account (v.stored r (account_cache a))

  -- Every cached account is the row of the table.
  abbrev pub IsCoherent : World D R → Type 0
  IsCoherent w = (a : ℕ) (x : Account) → cached w.redis a ≡ some x → row w.table a ≡ some x

  -- The rows stay, but for one.
  abbrev pub SameBut : ℕ → D → D → Type 0
  SameBut a d d' = (b : ℕ) → b ≢ a → row d' b ≡ row d b

  -- The cached accounts stay or go.
  abbrev Fewer : R → R → Type 0
  Fewer r r' =
      (b : ℕ)
      → (v.stored r' (account_cache b) ≡ v.stored r (account_cache b))
        ⊎ (v.stored r' (account_cache b) ≡ none)

  pub table-IsCoherent :
      (w : World D R) (d : D)
      → ((b : ℕ) → row d b ≡ row w.table b)
      → IsCoherent w
      → IsCoherent (record w { table = d })
  table-IsCoherent w d same c a x h = same a ∙ c a x h

  pub redis-IsCoherent :
      (w : World D R) (r : R) → Fewer w.redis r → IsCoherent w → IsCoherent (record w { redis = r })
  redis-IsCoherent w r fewer c a x h = elim (fewer a) [
    | inl e ↦ c a x (rw e at h)
    | inr e ↦ absurd (ground (arith, rw e at h))
  ]

  -- The row that has changed is no longer cached.
  pub cleared-IsCoherent :
      (a : ℕ) (w : World D R) (d : D) (r : R)
      → SameBut a w.table d
      → Fewer w.redis r
      → v.stored r (account_cache a) ≡ none
      → IsCoherent w
      → IsCoherent (record { table = d; redis = r })
  cleared-IsCoherent a w d r same fewer gone c b x h = elim (Bool-cases (b == a)) [
    | inl e ↦ absurd (ground (arith, gone))
    | inr e ↦ elim (fewer b) [
      | inl p ↦ same b (ground arith) ∙ c b x (rw p at h)
      | inr p ↦ absurd (ground (arith, rw p at h))
    ]
  ]

  -- A row is put into the cache, or is not.
  pub filled-IsCoherent :
      (a : ℕ) (x : Account) (w : World D R) (r : R)
      → row w.table a ≡ some x
      → ((b : ℕ) → b ≢ a → v.stored r (account_cache b) ≡ v.stored w.redis (account_cache b))
      → (v.stored r (account_cache a) ≡ v.stored w.redis (account_cache a))
        ⊎ (as_account (v.stored r (account_cache a)) ≡ some x)
      → IsCoherent w
      → IsCoherent (record w { redis = r })
  filled-IsCoherent a x w r e others here c b y h = elim (Bool-cases (b == a)) [
    | inl p ↦
        subst (λ k. cached r k ≡ some y → row w.table k ≡ some y) (sym ((==_iff b a).0 p))
          (elim here [
            | inl same ↦ λ q. c a y (ap as_account (sym same) ∙ q)
            | inr new ↦ λ q. e ∙ (sym new ∙ q)
          ])
          h
    | inr p ↦ c b y (ap as_account (sym (others b (ground arith))) ∙ h)
  ]

module _ {D R : Type 0} (db : Database D) (qs : Queries D) (rdb : Redis R)
    (row : D → ℕ → Option Account) where
  -- No DEL fails, and a statement that comes back with an error has changed no row. The
  -- repository only logs a DEL that fails.
  pub record IsReliable : Type 0 where
    pub del_up : (k : Key) (s : R) → rdb.del (k ∷ []) s ≡ (ok tt, (rdb.del (k ∷ []) s).1)
    pub update_failed :
        (a : ℕ) (test : Account → Bool) (f : Account → Account) (d : D)
        → ((n : ℕ) → (db.update_account a test f d).0 ≢ ok n)
        → row (db.update_account a test f d).1 a ≡ row d a
    pub save_failed :
        (x : Account) (d : D)
        → (qs.save_account x d).0 ≢ ok tt
        → row (qs.save_account x d).1 x.id ≡ row d x.id
