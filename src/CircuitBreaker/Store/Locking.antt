-- ===== src/CircuitBreaker/Store/Locking.antt =====
-- internal/data/circuit_breaker.go: the retry loop of `UpdateHealthScore`.
use quota_lane.Prelude.{
  ℕ, zero, suc, ◌+◌, ◌≡◌, ◌≢◌, sym, ap, subst, ◌∙◌, ◌*◌, inl, inr, true, false, Option, some, arith,
  ◌==◌, Bool,
}
use quota_lane.Prelude.Int.{ℤ, pos, ◌+ℤ◌, int32}
use quota_lane.Prelude.Effect.{
  Error, Result, ok, err, panic, wrap, ignore, ignore_state, modify, read, Result-cases,
}
use quota_lane.Account.{Account}
use quota_lane.Database
use quota_lane.Database.{Database}
use quota_lane.Redis.{Redis}
use quota_lane.World.{World, Surroundings}
use quota_lane.CircuitBreaker.Store.{
  same_int, with_score, update_loop, update_health_score, clear_account_cache,
}

same_int-eq : (m n : ℤ) → same_int m n ≡ true → m ≡ n
same_int-eq m n h = ground arith

-- The worlds that a run of the loop which has changed no row can come to: other clients act while it
-- waits, and it reads rows and sends updates that match none.
pub data Reaches {D R : Type 0} (db : Database D) (around : Surroundings (World D R))
    (w : World D R) : World D R → Type 0 where
  start : Reaches db around w w
  waited : {u : World D R} (n : ℕ) → Reaches db around w u → Reaches db around w (around.pause n u)
  looked :
      {u : World D R} (a : ℕ)
      → Reaches db around w u
      → Reaches db around w (record u { table = (db.first_account a u.table).1 })
  missed :
      {u : World D R} (a : ℕ) (test : Account → Bool) (f : Account → Account) (d : D)
      → db.update_account a test f u.table ≡ (ok zero, d)
      → Reaches db around w u
      → Reaches db around w (record u { table = d })

module _ {D R : Type 0} (db : Database D) (rdb : Redis R) (around : Surroundings (World D R))
    (row : D → ℕ → Option Account) (law : Database.IsLawful db row) where
  -- The world at the moment of the write, which changed one row of it.
  abbrev pub Replaced : ℕ → ℤ → World D R → D → Type 0
  Replaced a score w d =
      (before : World D R) × Reaches db around w before
      × (x : Account) × (row before.table a ≡ some x)
      × (row d a ≡ some (with_score db rdb around score x.version (around.now before) x))
      × ((b : ℕ) → b ≢ a → row d b ≡ row before.table b)

  replace :
      (a : ℕ) (score : ℤ) (version : ℤ) (n : ℕ) (w before : World D R) (d' : D)
      → Reaches db around w before
      → db.update_account a
          (λ x. same_int x.version version)
          (with_score db rdb around score version (around.now before))
          before.table
        ≡ (ok (suc n), d')
      → Replaced a score w d'
  replace a score version n w before d' r e =
      let (x, here, test, there) = law.update_account_ok a n _ _ before.table d' e in
      (
        before,
        r,
        x,
        here,
        there
            ∙ ap (λ v. some (with_score db rdb around score v (around.now before) x))
                (sym (same_int-eq x.version version test)),
        λ b out.
            ap (λ (y : Result ℕ × D). row y.1 b) (sym e)
            ∙ law.update_account_others a b _ _ before.table out,
      )

  clear_keeps :
      (a : ℕ) (w : World D R) → (ignore (clear_account_cache db rdb around a) w).1.table ≡ w.table
  unfolding clear_account_cache wrap
  clear_keeps a w = ap (λ v. v.table) (ignore_state _ w)

  module _ (left done a : ℕ) (score : ℤ) (w : World D R) (x : Account)
      (p : db.first_account a w.table ≡ (ok x, (db.first_account a w.table).1)) where
    -- The world when the update is sent, and what comes back.
    abbrev sent : World D R
    sent = around.pause 0 (record w { table = (db.first_account a w.table).1 })

    abbrev reply : Result ℕ × D
    reply =
        db.update_account a (λ y. same_int y.version x.version)
          (with_score db rdb around score x.version (around.now sent)) sent.table

    abbrev run : Result (Unit {0}) × World D R
    run = update_loop db rdb around (suc left) done a score w

    round_done :
        (n : ℕ)
        → reply ≡ (ok (suc n), reply.1)
        → run ≡ ignore (clear_account_cache db rdb around a) (record sent { table = reply.1 })
    unfolding update_loop wrap modify read
    round_done n q = rw p (rw q (rw some_row))
      where
        some_row : (suc n == 0) ≡ false
        some_row = ground arith

    round_again :
        reply ≡ (ok zero, reply.1)
        → run
          ≡ update_loop db rdb around left
              (done + 1)
              a
              score
              (around.pause ((done + 1) * 10000000) (record sent { table = reply.1 }))
    unfolding update_loop wrap modify read
    round_again q = rw p (rw q)

    round_fails : (e : Error) → reply ≡ (err e, reply.1) → run.0 ≢ ok tt
    unfolding update_loop wrap modify read
    round_fails e q h = absurd (ground (arith, rw q at (rw p at h)))

    round_panics : reply ≡ (panic, reply.1) → run.0 ≢ ok tt
    unfolding update_loop wrap modify read
    round_panics q h = absurd (ground (arith, rw q at (rw p at h)))

  loop_replaces :
      (left done a : ℕ) (score : ℤ) (w₀ w : World D R)
      → Reaches db around w₀ w
      → (update_loop db rdb around left done a score w).0 ≡ ok tt
      → Replaced a score w₀ (update_loop db rdb around left done a score w).1.table
  unfolding update_loop wrap modify read
  loop_replaces zero done a score w₀ w r fine = absurd (ground arith)
  loop_replaces (suc left) done a score w₀ w r fine =
      elim (Result-cases (db.first_account a w.table)) [
        | inl (x, p) ↦ elim (Result-cases (reply left done a score w x p)) [
          | inl (zero, q) ↦
              subst (λ v. Replaced a score w₀ v.1.table)
                (sym (round_again left done a score w x p q))
                (loop_replaces left (done + 1) a score w₀ _
                  (waited ((done + 1) * 10000000) (missed a _ _ _ q (waited 0 (looked a r))))
                  (ap (λ v. v.0) (sym (round_again left done a score w x p q)) ∙ fine))
          | inl (suc n, q) ↦
              subst (λ v. Replaced a score w₀ v.1.table)
                (sym (round_done left done a score w x p n q))
                (subst (λ t. Replaced a score w₀ t) (sym (clear_keeps a _))
                  (replace a score x.version n w₀ _ _ (waited 0 (looked a r)) q))
          | inr (inl (f, q)) ↦ absurd (round_fails left done a score w x p f q fine)
          | inr (inr q) ↦ absurd (round_panics left done a score w x p q fine)
        ]
        | inr (inl (f, p)) ↦ absurd (ground (arith, p))
        | inr (inr p) ↦ absurd (ground (arith, p))
      ]

  -- Whatever other clients do between the statements and while it sleeps: an update of the score that
  -- comes back with no error has replaced one row of the table as it stood at a moment of the run,
  -- before which the run had changed no row. Of that row it has changed only the score, which becomes
  -- the given one whatever it was, the version, by one, and the time of update; the other rows are as
  -- they were at that moment.
  pub update_health_score_replaces :
      (a : ℕ) (score : ℤ) (w : World D R)
      → (update_health_score db rdb around a score w).0 ≡ ok tt
      → (before : World D R) × Reaches db around w before
        × (x : Account) × (row before.table a ≡ some x)
        × (row (update_health_score db rdb around a score w).1.table a
            ≡ some (record x {
              health_score = score;
              version = int32 (x.version +ℤ pos 1);
              updated_at = around.now before;
            }))
        × ((b : ℕ)
            → b ≢ a
            → row (update_health_score db rdb around a score w).1.table b ≡ row before.table b)
  unfolding update_health_score
  update_health_score_replaces a score w fine = loop_replaces 3 0 a score w w start fine
