-- ===== src/Account/Coherence/Reading.antt =====
-- internal/data/account.go: `GetAccount` keeps the cache coherent and returns the row of the table.
use quota_lane.Prelude.{
  ℕ, ◌*◌, ◌≡◌, refl, sym, ap, ◌∙◌, inl, inr, Bytes, Bool, Option, none, some, arith, Option-cases,
}
use quota_lane.Prelude.Effect.{
  Error, message, wrapped, pure, fail, Result, ok, err, panic, wrap, attempt, ignore, Result-cases,
  ◌>>=◌,
}
use quota_lane.Account.{Account}
use quota_lane.Cache
use quota_lane.Cache.{Codec, from_reply}
use quota_lane.Cache.Laws.{IsCodec}
use quota_lane.Database
use quota_lane.Database.{Database, Queries}
use quota_lane.DbErrors.{GoError}
use quota_lane.Redis
use quota_lane.Redis.{Redis, Key, account_cache, View, Value, int, text, minute}
use quota_lane.World.{World, on_table, on_redis}
use quota_lane.Prelude.Hoare.{
  Holds, Always, Ensures, Ensures-elim, Ensures-intro, Ensures-keep, Ensures-pure, Ensures-fail,
  Ensures-panics, Ensures-bind, Ensures-then, Ensures-attempt, Ensures-ignore, Ensures-if,
}
use quota_lane.Account.Conditions.{is_not_found}
use quota_lane.Account.Store.{or_not_found, cached_or_loaded, load_account, get_account}
use quota_lane.Account.Coherence.{
  as_account, IsCoherent, filled-IsCoherent, table-IsCoherent, redis-IsCoherent,
}

module _ {D R : Type 0} (db : Database D) (qs : Queries D) (rdb : Redis R) (codec : Codec Account)
    (as_go_error : Error → GoError) (json_contains : Option Bytes → Bytes → Bool)
    (now : World D R → ℕ) (row : D → ℕ → Option Account) (v : View R)
    (db_law : Database.IsLawful db row) (rdb_law : Redis.IsLawful rdb v)
    (codec_law : IsCodec codec) where
  -- The cache is coherent, and the rows are those of `d`.
  abbrev Steady : D → World D R → Type 0
  Steady d w = IsCoherent codec row v w × ((b : ℕ) → row w.table b ≡ row d b)

  abbrev IsRow : D → ℕ → Account → Type 0
  IsRow d a x = row d a ≡ some x

  other_key : (a b : ℕ) → account_cache b ≡ account_cache a → b ≡ a
  other_key a b q = ground arith

  set_Ensures :
      (d : D) (a : ℕ) (x : Account)
      → IsRow d a x
      → Ensures
          (Steady d)
          Always
          (on_redis {D = D} (Cache.set (some rdb) codec (account_cache a) x (5 * minute)))
  unfolding Cache.set wrap
  set_Ensures d a x e =
      Ensures-keep (Steady d)
        (on_redis {D = D} (Cache.set (some rdb) codec (account_cache a) x (5 * minute)))
        λ w s. elim (Option-cases (codec.encode x)) [
          | inl p ↦ rw p s
          | inr (t, p) ↦ rw p (
            filled-IsCoherent codec row v a x w
                (rdb.set (account_cache a) (text t) (5 * minute) w.redis).1 (s.1 a ∙ e)
                (λ b ne.
                  (rdb_law.set_frame (account_cache a) (account_cache b) (text t) (5 * minute)
                    w.redis (λ q. ne (other_key a b q))).0)
                (elim (rdb_law.set_any (account_cache a) (text t) (5 * minute) w.redis) [
                  | inl same ↦ inl same
                  | inr new ↦ inr (ap (as_account codec row v) new ∙ codec_law.decode-encode x t p)
                ])
                s.0,
            s.1,
          )
        ]

  first_Ensures : (d : D) (a : ℕ) → Ensures (Steady d) (IsRow d a) (on_table (db.first_account a))
  first_Ensures d a = Ensures-intro (Steady d) (IsRow d a) (on_table (db.first_account a)) λ w s. (
    (
      table-IsCoherent codec row v w (db.first_account a w.table).1
          (λ b. db_law.first_account_same a b w.table) s.0,
      λ b. db_law.first_account_same a b w.table ∙ s.1 b,
    ),
    elim (Result-cases (db.first_account a w.table)) [
      | inl (x, e) ↦
          rw e (sym (s.1 a) ∙ db_law.first_account_ok a w.table (db.first_account a w.table).1 x e)
      | inr (inl (g, e)) ↦ rw e tt
      | inr (inr e) ↦ rw e tt
    ],
  )

  load_Ensures :
      (d : D) (a : ℕ)
      → Ensures
          (Steady d)
          (IsRow d a)
          (load_account db qs (some rdb) codec as_go_error json_contains now a)
  unfolding load_account
  load_Ensures d a =
      Ensures-bind (Steady d) (IsRow d a) (IsRow d a)
        (attempt (on_table (db.first_account a))
          >>= or_not_found db qs (some rdb) codec as_go_error json_contains now)
        _
        (Ensures-bind (Steady d) (Holds (IsRow d a)) (IsRow d a)
          (attempt (on_table (db.first_account a)))
          (or_not_found db qs (some rdb) codec as_go_error json_contains now)
          (Ensures-attempt (Steady d) (IsRow d a) (on_table (db.first_account a))
            (first_Ensures d a))
          found)
        λ x e.
          Ensures-then (Steady d) (IsRow d a)
            (ignore (on_redis (Cache.set (some rdb) codec (account_cache a) x (5 * minute))))
            (pure x)
            (Ensures-ignore (Steady d) Always
              (on_redis (Cache.set (some rdb) codec (account_cache a) x (5 * minute)))
              (set_Ensures d a x e))
            (Ensures-pure (Steady d) (IsRow d a) x e)
    where
      found :
          (r : Result Account)
          → Holds (IsRow d a) r
          → Ensures
              (Steady d)
              (IsRow d a)
              (or_not_found db qs (some rdb) codec as_go_error json_contains now r)
      found (ok x) q = Ensures-pure (Steady d) (IsRow d a) x q
      found (err e) q =
          Ensures-if (Steady d) (IsRow d a) (is_not_found e)
            (fail (message "account not found: id=%d")) (fail (wrapped "failed to get account" e))
            (Ensures-fail (Steady d) (IsRow d a) (message "account not found: id=%d"))
            (Ensures-fail (Steady d) (IsRow d a) (wrapped "failed to get account" e))
      found panic q = Ensures-panics (Steady d) (IsRow d a)

  reply_Holds :
      (d : D) (a : ℕ) (s : R) (reply : Option Value)
      → ((x : Account) → as_account codec row v reply ≡ some x → IsRow d a x)
      → Holds (IsRow d a) (from_reply codec reply s).0 × ((from_reply codec reply s).1 ≡ s)
  reply_Holds d a s none h = (tt, refl)
  reply_Holds d a s (some (int n)) h = (tt, refl)
  reply_Holds d a s (some (text b)) h = elim (Option-cases (codec.decode b)) [
    | inl p ↦ rw p (tt, refl)
    | inr (x, p) ↦ rw p (h x p, refl)
  ]

  cached_Ensures :
      (d : D) (a : ℕ)
      → Ensures (Steady d) (IsRow d a) (on_redis (Cache.get (some rdb) codec (account_cache a)))
  unfolding Cache.get wrap
  cached_Ensures d a =
      Ensures-intro (Steady d) (IsRow d a) (on_redis (Cache.get (some rdb) codec (account_cache a)))
        λ w s. elim (Result-cases (rdb.get (account_cache a) w.redis)) [
          | inl (reply, e) ↦ rw (e, (reading w s reply e).1) (same w s, (reading w s reply e).0)
          | inr (inl (g, e)) ↦ rw e (same w s, tt)
          | inr (inr e) ↦ rw e (same w s, tt)
        ]
    where
      same :
          (w : World D R)
          → Steady d w
          → Steady d (record w { redis = (rdb.get (account_cache a) w.redis).1 })
      same w s = (
        redis-IsCoherent codec row v w (rdb.get (account_cache a) w.redis).1
            (λ b. inl (rdb_law.get_same (account_cache a) (account_cache b) w.redis).0) s.0,
        s.1,
      )

      reading :
          (w : World D R)
          → Steady d w
          → (reply : Option Value)
          → rdb.get (account_cache a) w.redis ≡ (ok reply, (rdb.get (account_cache a) w.redis).1)
          → Holds (IsRow d a) (from_reply codec reply (rdb.get (account_cache a) w.redis).1).0
            × ((from_reply codec reply (rdb.get (account_cache a) w.redis).1).1
                ≡ (rdb.get (account_cache a) w.redis).1)
      reading w s reply e = reply_Holds d a (rdb.get (account_cache a) w.redis).1 reply λ x q.
          sym (s.1 a)
          ∙ s.0 a x (
              ap (as_account codec row v) (
                sym (
                  rdb_law.get_ok (account_cache a) w.redis (rdb.get (account_cache a) w.redis).1
                    reply e))
              ∙ q)

  get_Ensures :
      (d : D) (a : ℕ)
      → Ensures
          (Steady d)
          (IsRow d a)
          (get_account db qs (some rdb) codec as_go_error json_contains now a)
  unfolding get_account
  get_Ensures d a =
      Ensures-bind (Steady d) (Holds (IsRow d a)) (IsRow d a)
        (attempt (on_redis (Cache.get (some rdb) codec (account_cache a))))
        (cached_or_loaded db qs (some rdb) codec as_go_error json_contains now a)
        (Ensures-attempt (Steady d) (IsRow d a)
          (on_redis (Cache.get (some rdb) codec (account_cache a))) (cached_Ensures d a))
        next
    where
      next :
          (r : Result Account)
          → Holds (IsRow d a) r
          → Ensures
              (Steady d)
              (IsRow d a)
              (cached_or_loaded db qs (some rdb) codec as_go_error json_contains now a r)
      next (ok x) q = Ensures-pure (Steady d) (IsRow d a) x q
      next (err e) q = load_Ensures d a
      next panic q = Ensures-panics (Steady d) (IsRow d a)

  -- Over a coherent cache, `get_account` changes no row, keeps the cache coherent, and an account that it
  -- returns is the row of the table.
  pub get_account-IsCoherent :
      (a : ℕ) (w : World D R)
      → IsCoherent codec row v w
      → (let (r, w') = get_account db qs (some rdb) codec as_go_error json_contains now a w in
          IsCoherent codec row v w'
          × ((b : ℕ) → row w'.table b ≡ row w.table b)
          × Holds (λ x. row w.table a ≡ some x) r)
  get_account-IsCoherent a w c =
      let ((c', s), h) =
        Ensures-elim (Steady w.table) (IsRow w.table a)
          (get_account db qs (some rdb) codec as_go_error json_contains now a)
          (get_Ensures w.table a) w (c, λ b. refl) in
      (c', s, h)
