-- ===== src/AccountGroup/Store/Laws.antt =====
-- internal/data/account_group.go: a change that fails changes nothing.
use quota_lane.Prelude.{
  ℕ, ◌*◌, ◌≡◌, ◌≢◌, refl, sym, ap, ◌∙◌, String, Option, none, some, List, [], ◌∷◌, arith, inl, inr,
  Option-cases, Bytes,
}
use quota_lane.Prelude.Int.{ℤ}
use quota_lane.Prelude.Hoare.{
  Holds, Always, Ensures, Ensures-run, Ensures-keep, Ensures-pure, Ensures-fail, Ensures-panics,
  Ensures-bind, Ensures-attempt,
}
use quota_lane.Prelude.Effect.{
  Error, Result, ok, err, panic, M, attempt, ignore, read, pure, Result-cases, ◌>>=◌, ◌>>◌,
}
use quota_lane.AccountGroup.{AccountGroup}
use quota_lane.AccountGroup.Store.{
  GroupRow, GroupTables, read_cache, decoded, or_first_error, first_error, group_or_load,
  group_data, or_unknown, cache_group, with_client, set_encoded, invalidate_group_cache,
  invalidate_account_groups_cache, invalidate_all, insert_group, create_group, load_group,
  get_group, replace_group, update_group,
}
use quota_lane.Cache.{Codec}
use quota_lane.Redis.{Redis, text, Key, group_cache, account_groups, minute}
use quota_lane.World.{World, on_table, on_redis}

-- A transaction that does not come back with a value is rolled back, and a query changes nothing.
pub record IsTransactional {D : Type 0} (db : GroupTables D) : Type 1 where
  pub rollback :
      {A : Type 0} (m : M D A) (d : D)
      → ((a : A) → (db.transaction m d).0 ≢ ok a)
      → (db.transaction m d).1 ≡ d
  pub first_group_same : (id : ℕ) (d : D) → (db.first_group id d).1 ≡ d
  pub find_members_same : (id : ℕ) (d : D) → (db.find_members id d).1 ≡ d

-- A call that never comes back with an error.
abbrev Never : {S A : Type 0} → M S A → Type 0
Never {S} m = (s : S) (e : Error) → (m s).0 ≢ err e

Never-ignore : {S A : Type 0} (m : M S A) → Never (ignore m)
unfolding ignore attempt
Never-ignore m s e h = elim (Result-cases (m s)) [
  | inl (a, f) ↦ absurd (ground (arith, f))
  | inr (inl (g, f)) ↦ absurd (ground (arith, f))
  | inr (inr f) ↦ absurd (ground (arith, f))
]

Never-bind :
    {S A B : Type 0} (m : M S A) (f : A → M S B)
    → Never m
    → ((a : A) → Never (f a))
    → Never (m >>= f)
Never-bind m f hm hf s e h = elim (Result-cases (m s)) [
  | inl (a, q) ↦ hf a (m s).1 e (rw q at h)
  | inr (inl (g, q)) ↦ hm s g (ap (λ r. r.0) q)
  | inr (inr q) ↦ absurd (ground (arith, q))
]

module _ {D R : Type 0} (db : GroupTables D) (client : Option (Redis R))
    (codec : Codec AccountGroup) (ids : Codec (List ℕ)) (now : World D R → ℕ)
    (law : IsTransactional db) where
  Never-client :
      (f : Redis R → M R (Unit {0}))
      → ((rdb : Redis R) → Never (f rdb))
      → Never (with_client db client codec ids now f)
  Never-client f h w e q = elim (Option-cases client) [
    | inl p ↦ absurd (ground (arith, p))
    | inr (rdb, p) ↦ h rdb w.redis e (rw p at q)
  ]

  Never-set :
      (rdb : Redis R) (key : Key) (b : Option Bytes)
      → Never (set_encoded db client codec ids now rdb key b)
  Never-set rdb key none s e h = absurd (ground arith)
  Never-set rdb key (some b) s e h = Never-ignore (rdb.set key (text b) (10 * minute)) s e h

  Never-invalidate : (xs : List ℕ) → Never (invalidate_all db client codec ids now xs)
  unfolding invalidate_all invalidate_account_groups_cache
  Never-invalidate [] s e h = absurd (ground arith)
  Never-invalidate (x ∷ xs) s e h =
      Never-bind (invalidate_account_groups_cache db client codec ids now x)
        (λ _. invalidate_all db client codec ids now xs)
        (Never-client (λ rdb. ignore (rdb.del (account_groups x ∷ [])))
          λ rdb. Never-ignore (rdb.del (account_groups x ∷ [])))
        (λ _. Never-invalidate xs) s e h

  Never-cache :
      (id : ℕ) (group : AccountGroup) → Never (cache_group db client codec ids now id group)
  unfolding cache_group
  Never-cache id group =
      Never-client
        (λ rdb. set_encoded db client codec ids now rdb (group_cache id) (codec.encode group))
        λ rdb. Never-set rdb (group_cache id) (codec.encode group)

  Never-pure : {A : Type 0} (a : A) → Never {S = World D R} (pure a)
  Never-pure a s e h = absurd (ground arith)

  -- A group that could not be created left no row behind. A transaction that does not come back with a
  -- value is rolled back.
  pub create_group_failed :
      (name description : String) (priority : ℤ) (account_ids : List ℕ) (e : Error)
      (w w' : World D R)
      → create_group db client codec ids now name description priority account_ids w ≡ (err e, w')
      → w'.table ≡ w.table
  unfolding create_group insert_group cache_group
  create_group_failed name description priority account_ids e w w' h =
      elim (Result-cases
        (insert_group db client codec ids now name description priority account_ids w.table)) [
          | inl (row, q) ↦ absurd (
              Never-bind
                (cache_group db client codec ids now row.id (
                  group_data
                    (record row { name = name; description = description; priority = priority })
                    account_ids))
                (λ _. invalidate_all db client codec ids now account_ids >> pure row.id)
                (Never-cache row.id (
                  group_data
                    (record row { name = name; description = description; priority = priority })
                    account_ids))
                (λ _.
                  Never-bind (invalidate_all db client codec ids now account_ids) (λ _. pure row.id)
                    (Never-invalidate account_ids) (λ _. Never-pure row.id))
                _ e (ap (λ r. r.0) (rw q at h)))
          | inr (inl (g, q)) ↦
              ap (λ r. r.1.table) (sym (rw q at h)) ∙ law.rollback _ w.table (λ a. rw q (λ i. cc))
          | inr (inr q) ↦ absurd (ground (arith, q))
        ]

  abbrev TableIs : D → World D R → Type 0
  TableIs d w = w.table ≡ d

  redis_keeps : {A : Type 0} (d : D) (m : M R A) → Ensures (TableIs d) Always (on_redis {D = D} m)
  redis_keeps d m = Ensures-keep (TableIs d) (on_redis m) λ w h. h

  table_keeps :
      {A : Type 0} (d : D) (m : M D A)
      → ((u : D) → (m u).1 ≡ u)
      → Ensures (TableIs d) Always (on_table {R = R} m)
  table_keeps d m same = Ensures-keep (TableIs d) (on_table m) λ w h. same w.table ∙ h

  unknown_keeps :
      {A : Type 0} (d : D) (note : String) (m : M (World D R) A)
      → Ensures (TableIs d) Always m
      → Ensures (TableIs d) Always (or_unknown note m)
  unfolding or_unknown
  unknown_keeps d note m h =
      Ensures-keep (TableIs d) (or_unknown note m) λ w p. Ensures-run (TableIs d) Always m h w p

  read_keeps :
      {A : Type 0} (d : D) (c : Codec A) (key : Key)
      → Ensures (TableIs d) Always (read_cache db client codec ids now c key)
  read_keeps d c key = elim (Option-cases client) [
    | inl p ↦ rw p (Ensures-pure (TableIs d) Always none tt)
    | inr (rdb, p) ↦ rw p (
        Ensures-bind (TableIs d) (Holds Always) Always (attempt (on_redis (rdb.get key)))
          (λ r. pure (decoded db client codec ids now c r))
          (Ensures-attempt (TableIs d) Always (on_redis (rdb.get key))
            (redis_keeps d (rdb.get key)))
          λ r _. Ensures-pure (TableIs d) Always (decoded db client codec ids now c r) tt)
  ]

  client_keeps :
      (d : D) (f : Redis R → M R (Unit {0}))
      → Ensures (TableIs d) Always (with_client db client codec ids now f)
  client_keeps d f = elim (Option-cases client) [
    | inl p ↦ rw p (Ensures-pure (TableIs d) Always tt tt)
    | inr (rdb, p) ↦ rw p (redis_keeps d (f rdb))
  ]

  load_keeps : (d : D) (id : ℕ) → Ensures (TableIs d) Always (load_group db client codec ids now id)
  unfolding load_group cache_group
  load_keeps d id =
      Ensures-bind (TableIs d) Always Always
        (attempt (on_table (db.first_group id)) >>= or_first_error db client codec ids now) _
        (Ensures-bind (TableIs d) (Holds Always) Always (attempt (on_table (db.first_group id)))
          (or_first_error db client codec ids now)
          (Ensures-attempt (TableIs d) Always (on_table (db.first_group id))
            (table_keeps d (db.first_group id) (law.first_group_same id)))
          first)
        λ row _.
          Ensures-bind (TableIs d) Always Always
            (or_unknown "查询账户组成员失败" (on_table (db.find_members id))) _
            (unknown_keeps d "查询账户组成员失败" (on_table (db.find_members id))
              (table_keeps d (db.find_members id) (law.find_members_same id)))
            λ members _.
              Ensures-bind (TableIs d) Always Always
                (cache_group db client codec ids now id (group_data row members))
                (λ _. pure (group_data row members))
                (client_keeps d λ rdb.
                  set_encoded db client codec ids now rdb (group_cache id)
                    (codec.encode (group_data row members)))
                λ _ _. Ensures-pure (TableIs d) Always (group_data row members) tt
    where
      first :
          (r : Result GroupRow)
          → Holds {A = GroupRow} Always r
          → Ensures (TableIs d) Always (or_first_error db client codec ids now r)
      first (ok row) _ = Ensures-pure (TableIs d) Always row tt
      first (err e) _ = Ensures-fail (TableIs d) Always (first_error e)
      first panic _ = Ensures-panics (TableIs d) Always

  -- Reading a group changes no row.
  get_group_table :
      (id : ℕ) (w : World D R) → (get_group db client codec ids now id w).1.table ≡ w.table
  unfolding get_group
  get_group_table id w =
      Ensures-run (TableIs w.table) Always (get_group db client codec ids now id)
        (Ensures-bind (TableIs w.table) Always Always
          (read_cache db client codec ids now codec (group_cache id))
          (group_or_load db client codec ids now id) (read_keeps w.table codec (group_cache id))
          next)
        w refl
    where
      next :
          (o : Option AccountGroup)
          → Unit {0}
          → Ensures (TableIs w.table) Always (group_or_load db client codec ids now id o)
      next none _ = load_keeps w.table id
      next (some g) _ = Ensures-pure (TableIs w.table) Always g tt

  -- A group that could not be updated is as it was, with its members. A transaction that does not come
  -- back with a value is rolled back.
  pub update_group_failed :
      (id : ℕ) (name description : String) (priority : ℤ) (account_ids : List ℕ) (e : Error)
      (w w' : World D R)
      → update_group db client codec ids now id name description priority account_ids w
        ≡ (err e, w')
      → w'.table ≡ w.table
  unfolding update_group replace_group invalidate_group_cache read
  update_group_failed id name description priority account_ids e w w' h =
      elim (Result-cases (get_group db client codec ids now id w)) [
        | inr (inl (g, q)) ↦ ap (λ r. r.1.table) (sym (rw q at h)) ∙ get_group_table id w
        | inr (inr q) ↦ absurd (ground (arith, q))
        | inl (old, q) ↦
            elim (Result-cases (
              replace_group db client codec ids now id name description priority account_ids
                (now (get_group db client codec ids now id w).1)
                (get_group db client codec ids now id w).1.table)) [
                  | inr (inl (g, r)) ↦
                      ap (λ r. r.1.table) (sym (rw (q, r) at h))
                      ∙ (law.rollback _ (get_group db client codec ids now id w).1.table
                            (λ a. rw r (λ i. cc))
                          ∙ get_group_table id w)
                  | inr (inr r) ↦ absurd (ground (arith, q, r))
                  | inl (_, r) ↦ absurd (
                      Never-bind (invalidate_group_cache db client codec ids now id)
                        (λ _.
                          invalidate_all db client codec ids now old.account_ids
                          >> invalidate_all db client codec ids now account_ids)
                        (Never-client (λ rdb. ignore (rdb.del (group_cache id ∷ [])))
                          λ rdb. Never-ignore (rdb.del (group_cache id ∷ [])))
                        (λ _.
                          Never-bind (invalidate_all db client codec ids now old.account_ids)
                            (λ _. invalidate_all db client codec ids now account_ids)
                            (Never-invalidate old.account_ids) (λ _. Never-invalidate account_ids))
                        _ e (ap (λ r. r.0) (rw (q, r) at h)))
                ]
      ]
