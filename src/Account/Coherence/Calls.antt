-- ===== src/Account/Coherence/Calls.antt =====
-- internal/data/account.go: each method of the repository keeps the cache coherent.
use quota_lane.Prelude.{
  ℕ, zero, suc, String, ◌≡◌, refl, ◌∙◌, inl, inr, Bytes, Bool, false, Option, some, List, [], ◌∷◌,
  arith, ◌==◌, Bool-cases,
}
use quota_lane.Prelude.Int.{ℤ}
use quota_lane.Prelude.Effect.{
  Error, database, pure, Result, ok, err, panic, M, wrap, attempt, ignore, read, Result-cases,
  ◌>>=◌, ◌>>◌,
}
use quota_lane.Account.{Account, AccountStatus, inactive, AccountProvider}
use quota_lane.Account.Repo.{AccountFilter, AccountRepo}
use quota_lane.Cache
use quota_lane.Cache.{Codec, from_reply}
use quota_lane.Cache.Laws.{IsCodec}
use quota_lane.Database
use quota_lane.Database.{Database, Queries, Order, created_at_desc}
use quota_lane.DbErrors.{GoError, classify}
use quota_lane.Redis
use quota_lane.Redis.{Redis, Key, account_cache, View, Value, int, text, minute}
use quota_lane.World.{World, on_table}
use quota_lane.Account.Conditions.{any_row, sql_clamp, matches_filter, first_page, clip_total}
use quota_lane.Account.Store.{clear_cache, confirm, new_account_repo}
use quota_lane.Prelude.Hoare.{
  Holds, Always, Ensures, Ensures-elim, Ensures-keep, Ensures-pure, Ensures-fail, Ensures-panics,
  Ensures-bind, Ensures-wrap, Ensures-attempt, Ensures-read,
}
use quota_lane.Account.Store.{
  or_classified, create_account, list_accounts, update_account, delete_account,
  list_expiring_accounts, update_oauth_data, update_health_score, update_account_status,
  list_accounts_by_provider, list_codex_cli_accounts_needing_refresh, list_accounts_by_tags,
}
use quota_lane.Account.Coherence.Reading.{get_account-IsCoherent}
use quota_lane.Account.Coherence.{
  IsCoherent, SameBut, IsReliable, table-IsCoherent, cleared-IsCoherent,
}

-- A call of the repository.
pub data Call : Type 0 where
  create update : Account → Call
  get_one delete : ℕ → Call
  list : Option AccountFilter → Call
  list_expiring : ℕ → Call
  list_by_provider : AccountProvider → AccountStatus → Call
  list_needing_refresh : Call
  set_oauth_data : ℕ → Bytes → ℕ → Call
  set_health_score : ℕ → ℤ → Call
  set_status : ℕ → AccountStatus → Call
  list_by_tags : List Bytes → ℤ → ℤ → Call

-- The world that a call leaves, and calls one after the other.
unfoldable pub perform : {S : Type 0} → AccountRepo S → Call → S → S
perform repo (create x) w = (repo.create_account x w).1
perform repo (update x) w = (repo.update_account x w).1
perform repo (get_one a) w = (repo.get_account a w).1
perform repo (delete a) w = (repo.delete_account a w).1
perform repo (list filter) w = (repo.list_accounts filter w).1
perform repo (list_expiring t) w = (repo.list_expiring_accounts t w).1
perform repo (list_by_provider p s) w = (repo.list_accounts_by_provider p s w).1
perform repo list_needing_refresh w = (repo.list_codex_cli_accounts_needing_refresh w).1
perform repo (set_oauth_data a b t) w = (repo.update_oauth_data a b t w).1
perform repo (set_health_score a n) w = (repo.update_health_score a n w).1
perform repo (set_status a s) w = (repo.update_account_status a s w).1
perform repo (list_by_tags tags limit offset) w = (repo.list_accounts_by_tags tags limit offset w).1

unfoldable pub perform_all : {S : Type 0} → AccountRepo S → List Call → S → S
perform_all repo [] w = w
perform_all repo (c ∷ cs) w = perform_all repo cs (perform repo c w)

module _ {D R : Type 0} (db : Database D) (qs : Queries D) (rdb : Redis R) (codec : Codec Account)
    (as_go_error : Error → GoError) (json_contains : Option Bytes → Bytes → Bool)
    (now : World D R → ℕ) (row : D → ℕ → Option Account) (v : View R)
    (db_law : Database.IsLawful db row) (qs_law : Database.IsQueryLawful qs row)
    (rdb_law : Redis.IsLawful rdb v) (codec_law : IsCodec codec)
    (reliable : IsReliable db qs rdb row) where
  abbrev Coherent : World D R → Type 0
  Coherent = IsCoherent codec row v

  clear_state :
      (a : ℕ) (w : World D R)
      → (clear_cache db qs (some rdb) codec as_go_error json_contains now a w)
        ≡ (ok tt, record w { redis = (rdb.del (account_cache a ∷ []) w.redis).1 })
  unfolding clear_cache ignore attempt Cache.delete wrap
  clear_state a w = rw (reliable.del_up (account_cache a) w.redis) refl

  -- The statement changed no row but `a`, which is then no longer cached.
  clear-Coherent :
      (a : ℕ) (w : World D R) (d : D)
      → SameBut codec row v a w.table d
      → Coherent w
      → Coherent (record { table = d; redis = (rdb.del (account_cache a ∷ []) w.redis).1 })
  clear-Coherent a w d same c =
      cleared-IsCoherent codec row v a w d (rdb.del (account_cache a ∷ []) w.redis).1 same
        (λ b. rdb_law.del_any (account_cache a ∷ []) (account_cache b) w.redis)
        (rdb_law.del_ok (account_cache a ∷ []) w.redis (rdb.del (account_cache a ∷ []) w.redis).1
          (reliable.del_up (account_cache a) w.redis)).0
        c

  -- A statement that changes at most row `a`, and has not, leaves the cache coherent.
  unchanged-Coherent :
      (a : ℕ) (w : World D R) (d : D)
      → SameBut codec row v a w.table d
      → row d a ≡ row w.table a
      → Coherent w
      → Coherent (record w { table = d })
  unchanged-Coherent a w d same here = table-IsCoherent codec row v w d λ b.
      elim (Bool-cases (b == a)) [ inl e ↦ ground (arith, here) | inr e ↦ same b (ground arith) ]

  others :
      (a : ℕ) (f : Account → Account) (w : World D R)
      → SameBut codec row v a w.table (db.update_account a any_row f w.table).1
  others a f w b = db_law.update_account_others a b any_row f w.table

  suc_ne : (n : ℕ) → (suc n == 0) ≡ false
  suc_ne n = ground arith

  -- One row is changed by a statement, and then deleted from the cache.
  changed-Coherent :
      (a : ℕ) (note : String) (f : Account → Account)
      → Ensures Coherent Always (
          wrap note (on_table (db.update_account a any_row f))
          >>= confirm db qs (some rdb) codec as_go_error json_contains now a)
  unfolding wrap
  changed-Coherent a note f =
      Ensures-keep Coherent
        (wrap note (on_table (db.update_account a any_row f))
          >>= confirm db qs (some rdb) codec as_go_error json_contains now a)
        λ w c. elim (Result-cases (db.update_account a any_row f w.table)) [
          | inl (zero, e) ↦ rw e (
              unchanged-Coherent a w (db.update_account a any_row f w.table).1 (others a f w)
                (db_law.update_account_none a any_row f w.table
                  (db.update_account a any_row f w.table).1 e)
                c)
          | inl (suc n, e) ↦ rw e (
              rw
                (
                  suc_ne n,
                  clear_state a (record w { table = (db.update_account a any_row f w.table).1 }),
                )
                (clear-Coherent a w (db.update_account a any_row f w.table).1 (others a f w) c))
          | inr (inl (g, e)) ↦ rw e (
              unchanged-Coherent a w (db.update_account a any_row f w.table).1 (others a f w)
                (reliable.update_failed a any_row f w.table (λ n. rw e (λ h. cc))) c)
          | inr (inr e) ↦ rw e (
              unchanged-Coherent a w (db.update_account a any_row f w.table).1 (others a f w)
                (reliable.update_failed a any_row f w.table (λ n. rw e (λ h. cc))) c)
        ]

  -- A statement that changes no row.
  listed-Coherent :
      {A : Type 0} (note : String) (m : M D A)
      → ((b : ℕ) (d : D) → row (m d).1 b ≡ row d b)
      → Ensures Coherent Always (wrap note (on_table m))
  listed-Coherent note m same = Ensures-wrap Coherent Always note (on_table m) (
      Ensures-keep Coherent (on_table m)
        λ w c. table-IsCoherent codec row v w (m w.table).1 (λ b. same b w.table) c)

  found-Coherent :
      (note : String) (test : Account → Bool) (offset : ℤ) (limit : Option ℕ) (order : Order)
      → Ensures Coherent Always (wrap note (on_table (qs.find_accounts test offset limit order)))
  found-Coherent note test offset limit order =
      listed-Coherent note (qs.find_accounts test offset limit order)
        (qs_law.find_accounts_same test offset limit order)

  -- A new row was not cached.
  created-Coherent : (x : Account) → Ensures Coherent Always (on_table (qs.create_account x))
  created-Coherent x = Ensures-keep Coherent (on_table (qs.create_account x)) λ w c b y h.
      elim (qs_law.create_account_any x b w.table) [
        | inl same ↦ same ∙ c b y h
        | inr gone ↦ absurd (ground (arith, gone, c b y h))
      ]

  saved-Coherent :
      (note : String) (x : Account)
      → Ensures Coherent Always (
          wrap note (on_table (qs.save_account x))
          >> (clear_cache db qs (some rdb) codec as_go_error json_contains now x.id >> pure x))
  unfolding wrap
  saved-Coherent note x =
      Ensures-keep Coherent
        (wrap note (on_table (qs.save_account x))
          >> (clear_cache db qs (some rdb) codec as_go_error json_contains now x.id >> pure x))
        λ w c. elim (Result-cases (qs.save_account x w.table)) [
          | inl (_, e) ↦
              rw (e, clear_state x.id (record w { table = (qs.save_account x w.table).1 }))
                (clear-Coherent x.id w (qs.save_account x w.table).1
                  (λ b. qs_law.save_account_others x b w.table) c)
          | inr (inl (g, e)) ↦ rw e (
              unchanged-Coherent x.id w (qs.save_account x w.table).1
                (λ b. qs_law.save_account_others x b w.table)
                (reliable.save_failed x w.table (rw e (λ h. cc))) c)
          | inr (inr e) ↦ rw e (
              unchanged-Coherent x.id w (qs.save_account x w.table).1
                (λ b. qs_law.save_account_others x b w.table)
                (reliable.save_failed x w.table (rw e (λ h. cc))) c)
        ]

  -- The methods read the clock first, and then change one row.
  timed-Coherent :
      (a : ℕ) (note : String) (f : ℕ → Account → Account)
      → Ensures Coherent Always (
          read now >>= λ t.
          wrap note (on_table (db.update_account a any_row (f t)))
          >>= confirm db qs (some rdb) codec as_go_error json_contains now a)
  timed-Coherent a note f =
      Ensures-bind Coherent Always Always (read now) _ (Ensures-read Coherent now)
        λ t _. changed-Coherent a note (f t)

  create-Coherent :
      (x : Account)
      → Ensures Coherent Always
          (create_account db qs (some rdb) codec as_go_error json_contains now x)
  unfolding create_account
  create-Coherent x =
      Ensures-bind Coherent (Holds Always) Always (attempt (on_table (qs.create_account x)))
        (or_classified db qs (some rdb) codec as_go_error json_contains now)
        (Ensures-attempt Coherent Always (on_table (qs.create_account x)) (created-Coherent x)) next
    where
      next :
          (r : Result Account)
          → Holds {A = Account} Always r
          → Ensures Coherent Always
              (or_classified db qs (some rdb) codec as_go_error json_contains now r)
      next (ok x) _ = Ensures-pure Coherent Always x tt
      next (err e) _ = Ensures-fail Coherent Always (database (classify (as_go_error e)))
      next panic _ = Ensures-panics Coherent Always

  list-Coherent :
      (filter : Option AccountFilter)
      → Ensures Coherent Always
          (list_accounts db qs (some rdb) codec as_go_error json_contains now filter)
  unfolding list_accounts
  list-Coherent filter =
      Ensures-bind Coherent Always Always _ _
        (listed-Coherent "failed to count accounts"
          (qs.count_accounts (matches_filter (first_page filter)))
          (qs_law.count_accounts_same (matches_filter (first_page filter))))
        λ total _.
          Ensures-bind Coherent Always Always _ _
            (found-Coherent "failed to list accounts" (matches_filter (first_page filter)) _ _
              created_at_desc)
            λ xs _. Ensures-pure Coherent Always (xs, clip_total total) tt

  abbrev Repo : AccountRepo (World D R)
  Repo = new_account_repo db qs (some rdb) codec as_go_error json_contains now

  call-Coherent : (call : Call) (w : World D R) → Coherent w → Coherent (perform Repo call w)
  unfolding perform update_account delete_account list_expiring_accounts update_oauth_data
      update_health_score update_account_status list_accounts_by_provider
      list_codex_cli_accounts_needing_refresh list_accounts_by_tags
  call-Coherent (create x) w c = (Ensures-elim Coherent Always _ (create-Coherent x) w c).0
  call-Coherent (get_one a) w c =
      (get_account-IsCoherent db qs rdb codec as_go_error json_contains now row v db_law rdb_law
        codec_law a w c).0
  call-Coherent (update x) w c =
      (Ensures-elim Coherent Always _
        (Ensures-bind Coherent Always Always (read now) _ (Ensures-read Coherent now)
          λ t _. saved-Coherent "failed to update account" (record x { updated_at = t }))
        w c).0
  call-Coherent (delete a) w c =
      (Ensures-elim Coherent Always _
        (timed-Coherent a "failed to delete account"
          λ t x. record x { status = inactive; updated_at = t })
        w c).0
  call-Coherent (list filter) w c = (Ensures-elim Coherent Always _ (list-Coherent filter) w c).0
  call-Coherent (list_expiring t) w c =
      (Ensures-elim Coherent Always _ (found-Coherent "failed to list expiring accounts" _ _ _ _) w
        c).0
  call-Coherent (list_by_provider p s) w c =
      (Ensures-elim Coherent Always _ (found-Coherent "failed to list accounts by provider" _ _ _ _)
        w c).0
  call-Coherent list_needing_refresh w c =
      (Ensures-elim Coherent Always _
        (Ensures-bind Coherent Always Always (read now) _ (Ensures-read Coherent now)
          λ t _. found-Coherent "failed to list Codex CLI accounts needing refresh" _ _ _ _)
        w c).0
  call-Coherent (set_oauth_data a b u) w c =
      (Ensures-elim Coherent Always _
        (timed-Coherent a "failed to update OAuth data"
          λ t x. record x { oauth_data_encrypted = b; oauth_expires_at = some u; updated_at = t })
        w c).0
  call-Coherent (set_health_score a n) w c =
      (Ensures-elim Coherent Always _
        (timed-Coherent a "failed to update health score"
          λ t x. record x { health_score = sql_clamp n; updated_at = t })
        w c).0
  call-Coherent (set_status a s) w c =
      (Ensures-elim Coherent Always _
        (timed-Coherent a "failed to update account status"
          λ t x. record x { status = s; updated_at = t })
        w c).0
  call-Coherent (list_by_tags [] limit offset) w c = c
  call-Coherent (list_by_tags (tag ∷ tags) limit offset) w c =
      (Ensures-elim Coherent Always _ (found-Coherent "failed to list accounts by tags" _ _ _ _) w
        c).0

  -- Whatever calls of the repository are made, a coherent cache stays coherent: no cached account ever
  -- differs from its row. The DELs are answered, and a statement that fails has changed no row.
  pub perform_all-IsCoherent :
      (calls : List Call) (w : World D R) → Coherent w → Coherent (perform_all Repo calls w)
  unfolding perform_all
  perform_all-IsCoherent [] w c = c
  perform_all-IsCoherent (call ∷ calls) w c =
      perform_all-IsCoherent calls (perform Repo call w) (call-Coherent call w c)

  -- After any calls of the repository that begin with a coherent cache, an account that `get_account`
  -- returns is the row that the table then holds.
  pub get_account-perform_all :
      (calls : List Call) (a : ℕ) (w : World D R)
      → Coherent w
      → (let w' = perform_all Repo calls w in
          Holds (λ x. row w'.table a ≡ some x) (Repo.get_account a w').0)
  get_account-perform_all calls a w c =
      (get_account-IsCoherent db qs rdb codec as_go_error json_contains now row v db_law rdb_law
        codec_law a (perform_all Repo calls w) (perform_all-IsCoherent calls w c)).2
