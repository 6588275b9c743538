-- ===== src/Account/Health/Stale.antt =====
-- internal/biz/account_openai.go over internal/data/account.go: what a failed validation leaves in the table.
use quota_lane.Prelude.{
  ℕ, suc, String, Bytes, ◌≡◌, ◌≢◌, refl, ap, Bool, true, false, Option, none, some, arith, ◌==◌,
  inl, inr, ◌∷◌, [], not, ◌&&◌, if◌then◌else◌,
}
use quota_lane.Prelude.Int.{ℤ, pos, ◌-ℤ◌, ltb_ℤ}
use quota_lane.Prelude.Effect.{
  Error, ok, err, panic, M, pure, wrap, attempt, ignore, read, Result-cases, ◌>>=◌,
}
use quota_lane.Account.{Account, AccountStatus, error}
use quota_lane.Account.Repo.{AccountRepo}
use quota_lane.Account.Conditions.{any_row, sql_clamp}
use quota_lane.Account.Store.{
  clear_cache, confirm, update_account, update_health_score, update_account_status,
  new_account_repo,
}
use quota_lane.Account.Health.{
  HealthServices, health_check_alert_ttl, with_error, open_breaker, handle_validation_failure,
}
use quota_lane.Cache
use quota_lane.Cache.{Codec}
use quota_lane.Database
use quota_lane.Database.{Database, Queries}
use quota_lane.DbErrors.{GoError}
use quota_lane.Redis.{
  Redis, Key, Value, text, account_cache, health_check_failure, health_check_alert,
}
use quota_lane.World.{World, on_table, on_redis, redis_on_world}

module _ {D R : Type 0} (db : Database D) (qs : Queries D) (rdb : Redis R)
    (row : D → ℕ → Option Account) where
  -- Redis and the database answer, and a row that is there is updated. An INCR may be refused.
  pub record IsUp : Type 0 where
    pub del_up : (k : Key) (s : R) → rdb.del (k ∷ []) s ≡ (ok tt, (rdb.del (k ∷ []) s).1)
    pub incr_up : (k : Key) (s : R) → (rdb.incr k s).0 ≢ panic
    pub set_up :
        (k : Key) (x : Value) (t : ℕ) (s : R) → rdb.set k x t s ≡ (ok tt, (rdb.set k x t s).1)
    pub update_up :
        (a : ℕ) (f : Account → Account) (d : D)
        → row d a ≢ none
        → (n : ℕ) × (db.update_account a any_row f d
            ≡ (ok (suc n), (db.update_account a any_row f d).1))
    pub save_up : (x : Account) (d : D) → qs.save_account x d ≡ (ok tt, (qs.save_account x d).1)

-- A call that comes back with a value and leaves a world that satisfies `P`.
abbrev Done : {S A : Type 0} → (S → Type 0) → M S A → S → Type 0
Done {S} {A} P m w = (a : A) × (w' : S) × (m w ≡ (ok a, w')) × P w'

Done-then :
    {S A B : Type 0} (P Q : S → Type 0) (m : M S A) (f : A → M S B) (w : S)
    → Done P m w
    → ((a : A) (w' : S) → P w' → Done Q (f a) w')
    → Done Q (m >>= f) w
Done-then P Q m f w (a, w', e, p) k = let (b, u, e', q) = k a w' p in (b, u, rw e e', q)

Done-if :
    {S A : Type 0} (P : S → Type 0) (b : Bool) (m n : M S A) (w : S)
    → Done P m w
    → Done P n w
    → Done P (if b then m else n) w
Done-if P true m n w h k = h
Done-if P false m n w h k = k

Done-ignore : {S A : Type 0} (P : S → Type 0) (m : M S A) (w : S) → Done P m w → Done P (ignore m) w
unfolding ignore attempt
Done-ignore P m w (a, w', e, p) = (tt, w', rw e refl, p)

module _ {D R C : Type 0} (db : Database D) (qs : Queries D) (rdb : Redis R) (codec : Codec Account)
    (as_go_error : Error → GoError) (json_contains : Option Bytes → Bytes → Bool)
    (now : World D R → ℕ) (row : D → ℕ → Option Account) (db_law : Database.IsLawful db row)
    (qs_law : Database.IsQueryLawful qs row) (up : IsUp db qs rdb row)
    (services : HealthServices C (World D R)) where
  abbrev Repo : AccountRepo (World D R)
  Repo = new_account_repo db qs (some rdb) codec as_go_error json_contains now

  -- The services with this repository and this Redis.
  abbrev uc : HealthServices C (World D R)
  uc = record services { repo = Repo; rdb = redis_on_world rdb; now = now }

  abbrev Has : ℕ → World D R → Type 0
  Has a w = row w.table a ≢ none

  abbrev HoldsRow : ℕ → ℤ → AccountStatus → World D R → Type 0
  HoldsRow a n s w =
      (y : Account) × (row w.table a ≡ some y) × (y.health_score ≡ n) × (y.status ≡ s)

  clear_Done :
      (a : ℕ) (P : World D R → Type 0) (w : World D R)
      → P (record w { redis = (rdb.del (account_cache a ∷ []) w.redis).1 })
      → Done P (clear_cache db qs (some rdb) codec as_go_error json_contains now a) w
  unfolding clear_cache ignore attempt Cache.delete wrap
  clear_Done a P w p = (
    tt,
    record w { redis = (rdb.del (account_cache a ∷ []) w.redis).1 },
    rw (up.del_up (account_cache a) w.redis) refl,
    p,
  )

  suc_ne : (n : ℕ) → (suc n == 0) ≡ false
  suc_ne n = ground arith

  changed_Done :
      (a : ℕ) (note : String) (f : Account → Account) (w : World D R)
      → Has a w
      → Done
          (Has a)
          (wrap note (on_table (db.update_account a any_row f))
            >>= confirm db qs (some rdb) codec as_go_error json_contains now a)
          w
  unfolding wrap
  changed_Done a note f w h =
      let (n, e) = up.update_up a f w.table h in
      let (x, _, _, r) = db_law.update_account_ok a n any_row f w.table _ e in
      rw (e, suc_ne n)
        (clear_Done a (Has a) (record w { table = (db.update_account a any_row f w.table).1 })
          (rw r (λ q. cc)))

  timed_Done :
      (a : ℕ) (note : String) (f : ℕ → Account → Account) (w : World D R)
      → Has a w
      → Done
          (Has a)
          (read now >>= λ t.
            wrap note (on_table (db.update_account a any_row (f t)))
            >>= confirm db qs (some rdb) codec as_go_error json_contains now a)
          w
  unfolding read
  timed_Done a note f w h = changed_Done a note (f (now w)) w h

  saved_Done :
      (x : Account) (w : World D R)
      → Done (HoldsRow x.id x.health_score x.status) (Repo.update_account x) w
  unfolding update_account wrap read
  saved_Done x w =
      let y = record x { updated_at = now w } in
      rw (up.save_up y w.table) (
        Done-then (HoldsRow x.id x.health_score x.status) (HoldsRow x.id x.health_score x.status)
          (clear_cache db qs (some rdb) codec as_go_error json_contains now x.id) (λ _. pure y)
          (record w { table = (qs.save_account y w.table).1 })
          (clear_Done x.id (HoldsRow x.id x.health_score x.status)
            (record w { table = (qs.save_account y w.table).1 })
            (y, qs_law.save_account_ok y w.table _ (up.save_up y w.table), refl, refl))
          λ _ u p. (y, u, refl, p))

  incr_Done :
      (k : Key) (P : D → Type 0) (w : World D R)
      → P w.table
      → Done (λ u. P u.table) (ignore (on_redis {D = D} (rdb.incr k))) w
  unfolding ignore attempt
  incr_Done k P w p =
      let u = record w { redis = (rdb.incr k w.redis).1 } in
      elim (Result-cases (rdb.incr k w.redis)) [
        | inl (n, e) ↦ (tt, u, rw e refl, p)
        | inr (inl (g, e)) ↦ (tt, u, rw e refl, p)
        | inr (inr e) ↦ absurd (up.incr_up k w.redis (ap (λ r. r.0) e))
      ]

  set_Done :
      (k : Key) (x : Value) (t : ℕ) (P : D → Type 0) (w : World D R)
      → P w.table
      → Done (λ u. P u.table) (ignore (on_redis {D = D} (rdb.set k x t))) w
  set_Done k x t P w p =
      Done-ignore (λ u. P u.table) (on_redis (rdb.set k x t)) w
        (tt, record w { redis = (rdb.set k x t w.redis).1 }, rw (up.set_up k x t w.redis) refl, p)

  open_Done :
      (x : Account) (n : ℤ) (w : World D R)
      → Done (HoldsRow x.id x.health_score x.status) (open_breaker uc x n) w
  open_Done x n w =
      let y = record x { is_circuit_broken = true } in
      Done-then (HoldsRow x.id x.health_score x.status) (HoldsRow x.id x.health_score x.status)
        (ignore (Repo.update_account y))
        (λ _.
          ignore (
            uc.rdb.set (health_check_alert x.id) (text (uc.alert_text x n)) health_check_alert_ttl))
        w
        (Done-ignore (HoldsRow x.id x.health_score x.status) (Repo.update_account y) w
          (saved_Done y w))
        λ _ u p.
          set_Done (health_check_alert x.id) (text (uc.alert_text x n)) health_check_alert_ttl
            (λ d.
              (z : Account) × (row d x.id ≡ some z)
              × (z.health_score ≡ x.health_score)
              × (z.status ≡ x.status))
            u p

  -- After a failed validation, the row has the score and the status that it had before: the row that was read
  -- at the start is saved over the lowered score and the ERROR status. Redis and the database answer.
  pub validation_failure_lem :
      (x : Account) (e : Error) (w : World D R)
      → row w.table x.id ≡ some x
      → (w' : World D R) × (handle_validation_failure uc x e w ≡ (err e, w'))
        × ((y : Account) × (row w'.table x.id ≡ some y)
            × (y.health_score ≡ x.health_score)
            × (y.status ≡ x.status))
  unfolding handle_validation_failure update_health_score update_account_status read
  validation_failure_lem x e w h =
      let Q = HoldsRow x.id x.health_score x.status in
      let (_, w1, e1, p1) =
        timed_Done x.id "failed to update health score"
          (λ t y. record y { health_score = sql_clamp (x.health_score -ℤ pos 20); updated_at = t })
          w (rw h (λ q. cc)) in
      let (_, w2, e2, p2) =
        timed_Done x.id "failed to update account status"
          (λ t y. record y { status = error; updated_at = t }) w1 p1 in
      let failed = with_error uc x e (now w2) in
      let (_, w3, e3, p3) = Done-ignore Q (Repo.update_account failed) w2 (saved_Done failed w2) in
      let (_, w4, e4, p4) =
        incr_Done (health_check_failure x.id)
          (λ d.
            (y : Account) × (row d x.id ≡ some y)
            × (y.health_score ≡ x.health_score)
            × (y.status ≡ x.status))
          w3 p3 in
      let (_, w5, e5, p5) =
        Done-if Q (ltb_ℤ (x.health_score -ℤ pos 20) (pos 30) && not x.is_circuit_broken)
          (open_breaker uc failed (x.health_score -ℤ pos 20)) (pure tt) w4
          (open_Done failed (x.health_score -ℤ pos 20) w4) (tt, w4, refl, p4) in
      (w5, rw (e1, e2, e3, e4, e5) refl, p5)
