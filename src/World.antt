-- ===== src/World.antt =====
-- The table of accounts and Redis together, on which the repositories act.
use quota_lane.Prelude.{ℕ}
use quota_lane.Prelude.Effect.{M}
use quota_lane.Redis.{Redis}

pub record World (D R : Type 0) : Type 0 where
  pub table : D
  pub redis : R

-- `time.Now`, and what other clients do to the world while this one waits: between two statements
-- (0 nanoseconds), or for as long as it sleeps.
pub record Surroundings (W : Type 0) : Type 0 where
  pub now : W → ℕ
  pub pause : ℕ → W → W

module _ {D R : Type 0} where
  abbrev pub on_table : {A : Type 0} → M D A → M (World D R) A
  on_table m w = let (r, d) = m w.table in (r, record w { table = d })

  abbrev pub on_redis : {A : Type 0} → M R A → M (World D R) A
  on_redis m w = let (r, x) = m w.redis in (r, record w { redis = x })

  -- The client of Redis, as the code holds it beside the table.
  abbrev pub redis_on_world : Redis R → Redis (World D R)
  redis_on_world rdb = record {
    incr = λ k. on_redis (rdb.incr k);
    incr_by = λ k d. on_redis (rdb.incr_by k d);
    expire = λ k d. on_redis (rdb.expire k d);
    get = λ k. on_redis (rdb.get k);
    set = λ k x d. on_redis (rdb.set k x d);
    set_nx = λ k x d. on_redis (rdb.set_nx k x d);
    exists = λ k. on_redis (rdb.exists k);
    del = λ ks. on_redis (rdb.del ks);
    zadd = λ k t m. on_redis (rdb.zadd k t m);
    zrem = λ k m. on_redis (rdb.zrem k m);
    zcard = λ k. on_redis (rdb.zcard k);
    zrem_range_by_score = λ k a b. on_redis (rdb.zrem_range_by_score k a b);
  }
