-- ===== src/AccountGroup/Store.antt =====
-- internal/data/account_group.go: `AccountGroupRepo` over the tables of groups and members and the cache.
pub mod Laws
use quota_lane.Prelude.{
  ℕ, ◌+◌, ◌-◌, ◌*◌, String, Bytes, Bool, Option, none, some, List, [], ◌∷◌, map, length, ◌==◌, ltb,
  if◌then◌else◌, ◌&&◌,
}
use quota_lane.Prelude.Int.{ℤ, pos, int32}
use quota_lane.Prelude.Effect.{
  Error, database, unknown, not_found, record_not_found, message, wrapped, backend,
  rate_limit_exceeded, Result, ok, err, panic, M, pure, fail, panics, ◌>>=◌, ◌>>◌, attempt, ignore,
  read,
}
use quota_lane.AccountGroup.{AccountGroup, AccountGroupRepo}
use quota_lane.Cache.{Codec}
use quota_lane.Redis.{Redis, Key, group_cache, account_groups, Value, int, text, minute}
use quota_lane.World.{World, on_table, on_redis}

-- A row of `account_groups`, as a query returns it.
pub record GroupRow : Type 0 where
  pub id : ℕ
  pub name : String
  pub description : String
  pub priority : ℤ
  pub created_at : ℕ
  pub updated_at : ℕ

-- The statements on the two tables, behind gorm.io/gorm. Deleted groups are not found.
pub record GroupTables (D : Type 0) : Type 1 where
  -- `db.Transaction(f)`
  pub transaction : {A : Type 0} → M D A → M D A
  pub create_group : String → String → ℤ → M D GroupRow
  pub create_members : ℕ → List ℕ → M D (Unit {0})
  pub first_group : ℕ → M D GroupRow
  pub find_members : ℕ → M D (List ℕ)
  pub count_groups : M D ℕ
  -- by priority and by age, from an offset on
  pub find_groups : (limit offset : ℤ) → M D (List GroupRow)
  pub update_group : ℕ → String → String → ℤ → (updated_at : ℕ) → M D (Unit {0})
  pub delete_members : ℕ → M D (Unit {0})
  pub delete_group : ℕ → (deleted_at : ℕ) → M D (Unit {0})
  -- the groups of an account, by priority
  pub find_groups_of : ℕ → M D (List GroupRow)
  pub find_grouped_ids : M D (List ℕ)

-- The `DatabaseError` values of the file.
abbrev pub unknown_error : String → Error
unknown_error note = database (record { kind = unknown; mysql_code = 0; text = note })

abbrev pub group_not_found : Error
group_not_found = database (record { kind = not_found; mysql_code = 0; text = "账户组不存在" })

-- `if err != nil { return &pkgerrors.DatabaseError{…} }`
abbrev pub or_unknown_result : {A : Type 0} → String → Result A → Result A
or_unknown_result note (ok a) = ok a
or_unknown_result note (err e) = err (unknown_error note)
or_unknown_result note panic = panic

unfoldable pub or_unknown : {S A : Type 0} → String → M S A → M S A
or_unknown note m s = let (r, s') = m s in (or_unknown_result note r, s')

-- `err == gorm.ErrRecordNotFound`
abbrev pub first_error : Error → Error
first_error record_not_found = group_not_found
first_error (message t) = unknown_error "查询账户组失败"
first_error (wrapped t e) = unknown_error "查询账户组失败"
first_error (backend t) = unknown_error "查询账户组失败"
first_error (database e) = unknown_error "查询账户组失败"
first_error (rate_limit_exceeded k m n t) = unknown_error "查询账户组失败"

abbrev pub group_data : GroupRow → List ℕ → AccountGroup
group_data row members = record {
  id = row.id;
  name = row.name;
  description = row.description;
  priority = row.priority;
  account_ids = members;
  created_at = row.created_at;
  updated_at = row.updated_at;
}

abbrev pub without_members : GroupRow → AccountGroup
without_members row = group_data row []

-- `ids` is `json.Marshal` and `json.Unmarshal` of a list of ids.
module _ {D R : Type 0} (db : GroupTables D) (client : Option (Redis R))
    (codec : Codec AccountGroup) (ids : Codec (List ℕ)) (now : World D R → ℕ) where
  abbrev pub with_client : (Redis R → M R (Unit {0})) → M (World D R) (Unit {0})
  with_client f = elim client as (λ _. _) [ none ↦ pure tt | some rdb ↦ on_redis (f rdb) ]

  abbrev pub set_encoded : Redis R → Key → Option Bytes → M R (Unit {0})
  set_encoded rdb key none = pure tt
  set_encoded rdb key (some b) = ignore (rdb.set key (text b) (10 * minute))

  -- `cacheGroup`
  unfoldable pub cache_group : ℕ → AccountGroup → M (World D R) (Unit {0})
  cache_group id group = with_client λ rdb. set_encoded rdb (group_cache id) (codec.encode group)

  -- `invalidateGroupCache`
  unfoldable pub invalidate_group_cache : ℕ → M (World D R) (Unit {0})
  invalidate_group_cache id = with_client λ rdb. ignore (rdb.del (group_cache id ∷ []))

  -- `invalidateAccountGroupsCache`, and the loops that call it
  unfoldable pub invalidate_account_groups_cache : ℕ → M (World D R) (Unit {0})
  invalidate_account_groups_cache a = with_client λ rdb. ignore (rdb.del (account_groups a ∷ []))

  unfoldable pub invalidate_all : List ℕ → M (World D R) (Unit {0})
  invalidate_all [] = pure tt
  invalidate_all (a ∷ others) = invalidate_account_groups_cache a >> invalidate_all others

  abbrev pub insert_members : ℕ → List ℕ → String → M D (Unit {0})
  insert_members id [] note = pure tt
  insert_members id (a ∷ others) note = or_unknown note (db.create_members id (a ∷ others))

  -- The transaction of `CreateGroup`.
  unfoldable pub insert_group : String → String → ℤ → List ℕ → M D GroupRow
  insert_group name description priority account_ids = db.transaction (do
    row ← or_unknown "创建账户组失败" (db.create_group name description priority)
    insert_members row.id account_ids "创建账户组成员失败"
    pure row)

  unfoldable pub create_group : String → String → ℤ → List ℕ → M (World D R) ℕ
  create_group name description priority account_ids = do
    row ← on_table (insert_group name description priority account_ids)
    cache_group row.id (record {
      id = row.id;
      name = name;
      description = description;
      priority = priority;
      account_ids = account_ids;
      created_at = row.created_at;
      updated_at = row.updated_at;
    })
    invalidate_all account_ids
    pure row.id

  abbrev pub decoded : {A : Type 0} → Codec A → Result (Option Value) → Option A
  decoded c (ok (some (text b))) = c.decode b
  decoded c (ok (some (int n))) = none
  decoded c (ok none) = none
  decoded c (err e) = none
  decoded c panic = none

  -- The value under a key, if the read is answered and the text is read.
  abbrev pub read_cache : {A : Type 0} → Codec A → Key → M (World D R) (Option A)
  read_cache c key = elim client as (λ _. _) [
    | none ↦ pure none
    | some rdb ↦ attempt (on_redis (rdb.get key)) >>= λ r. pure (decoded c r)
  ]

  abbrev pub or_first_error : Result GroupRow → M (World D R) GroupRow
  or_first_error (ok row) = pure row
  or_first_error (err e) = fail (first_error e)
  or_first_error panic = panics

  -- `GetGroup` after a cache miss, and by what was cached.
  unfoldable pub load_group : ℕ → M (World D R) AccountGroup
  load_group id = do
    row ← attempt (on_table (db.first_group id)) >>= or_first_error
    members ← or_unknown "查询账户组成员失败" (on_table (db.find_members id))
    cache_group id (group_data row members)
    pure (group_data row members)

  abbrev pub group_or_load : ℕ → Option AccountGroup → M (World D R) AccountGroup
  group_or_load id none = load_group id
  group_or_load id (some group) = pure group

  unfoldable pub get_group : ℕ → M (World D R) AccountGroup
  get_group id = read_cache codec (group_cache id) >>= group_or_load id

  -- The offset is an int32 product; a page below 1 gives none.
  unfoldable pub list_groups : ℕ → ℕ → M (World D R) (List AccountGroup × ℕ)
  list_groups page page_size = do
    total ← or_unknown "查询账户组总数失败" (on_table db.count_groups)
    rows ←
        or_unknown "查询账户组列表失败"
          (on_table (db.find_groups (pos page_size) (int32 (pos ((page - 1) * page_size)))))
    pure (map without_members rows, total)

  -- The transaction of `UpdateGroup`.
  unfoldable pub replace_group :
      ℕ → String → String → ℤ → List ℕ → (updated_at : ℕ) → M D (Unit {0})
  replace_group id name description priority account_ids updated_at = db.transaction (do
    or_unknown "更新账户组失败" (db.update_group id name description priority updated_at)
    or_unknown "删除旧成员失败" (db.delete_members id)
    insert_members id account_ids "创建新成员失败")

  unfoldable pub update_group : ℕ → String → String → ℤ → List ℕ → M (World D R) (Unit {0})
  update_group id name description priority account_ids = do
    old_group ← get_group id
    updated_at ← read now
    on_table (replace_group id name description priority account_ids updated_at)
    invalidate_group_cache id
    invalidate_all old_group.account_ids
    invalidate_all account_ids

  unfoldable pub delete_group : ℕ → M (World D R) (Unit {0})
  delete_group id = do
    group ← get_group id
    deleted_at ← read now
    or_unknown "删除账户组失败" (on_table (db.delete_group id deleted_at))
    ignore (on_table (db.delete_members id))
    invalidate_group_cache id
    invalidate_all group.account_ids

  -- The loop over the cached ids: the groups that are found.
  abbrev pub and_found : Result AccountGroup → List AccountGroup → M (World D R) (List AccountGroup)
  and_found (ok group) groups = pure (group ∷ groups)
  and_found (err e) groups = pure groups
  and_found panic groups = panics

  unfoldable pub get_groups : List ℕ → M (World D R) (List AccountGroup)
  get_groups [] = pure []
  get_groups (id ∷ rest) = do
    found ← attempt (get_group id)
    groups ← get_groups rest
    and_found found groups

  -- `GetAccountGroups` after a cache miss.
  unfoldable pub load_account_groups : ℕ → M (World D R) (List AccountGroup)
  load_account_groups a = do
    rows ← or_unknown "查询账户所属组失败" (on_table (db.find_groups_of a))
    with_client λ rdb.
        set_encoded rdb (account_groups a) (ids.encode (map (λ (row : GroupRow). row.id) rows))
    pure (map without_members rows)

  abbrev pub groups_or_load : ℕ → Option (List ℕ) → M (World D R) (List AccountGroup)
  groups_or_load a none = load_account_groups a
  groups_or_load a (some []) = load_account_groups a
  groups_or_load a (some (id ∷ rest)) = get_groups (id ∷ rest) >>= λ groups.
      if length groups == length (id ∷ rest) then pure groups else load_account_groups a

  unfoldable pub get_account_groups : ℕ → M (World D R) (List AccountGroup)
  get_account_groups a = read_cache ids (account_groups a) >>= groups_or_load a

  unfoldable pub get_all_grouped_account_ids : M (World D R) (List ℕ)
  get_all_grouped_account_ids = or_unknown "查询已分组账户失败" (on_table db.find_grouped_ids)

  -- `NewAccountGroupRepo`
  abbrev pub new_account_group_repo : AccountGroupRepo (World D R)
  new_account_group_repo = record {
    create_group = create_group;
    get_group = get_group;
    list_groups = list_groups;
    update_group = update_group;
    delete_group = delete_group;
    get_account_groups = get_account_groups;
    get_all_grouped_account_ids = get_all_grouped_account_ids;
  }
