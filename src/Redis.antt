-- ===== src/Redis.antt =====
-- The Redis server and its client (github.com/redis/go-redis/v9), which the repository calls and
-- does not contain: a parameter `Redis S` of the model, with what its documentation promises.
-- A key is the constructor for the format string that the code prints it with.
pub mod Memory
use quota_lane.Prelude.{
  ℕ, ◌+◌, ◌≤◌, ◌<◌, String, ◌≡◌, ◌≢◌, Bool, Option, none, some, List, true, false, All, Distinct,
  length, Bytes, ◌⊎◌,
}
use quota_lane.Prelude.Int.{ℤ, pos, ◌+ℤ◌}
use quota_lane.Prelude.Effect.{M, ok}

pub data Key : Type 0 where
  rate : ℕ → String → Key  -- rate:%d:%s
  concurrency : ℕ → Key  -- concurrency:%d
  circuit : ℕ → Key  -- circuit:%d
  half_open : ℕ → Key  -- circuit:%d:half_open
  success_count : ℕ → Key  -- circuit:%d:success_count
  backoff : ℕ → Key  -- circuit:%d:backoff
  account_cache : ℕ → Key  -- account:%d
  group_cache : ℕ → Key  -- group:%d
  account_groups : ℕ → Key  -- account:%d:groups
  refresh_failure : ℕ → Key  -- refresh_failure:%d
  alert : ℕ → Key  -- alert:%d
  oauth_session : String → Key  -- oauth_session:%s
  health_check_failure : ℕ → Key  -- health_check_failure:%d
  health_check_alert : ℕ → Key  -- alert:health_check:%d

-- A string value: the decimal text of an integer, or any other text.
pub data Value : Type 0 where
  int : ℤ → Value
  text : Bytes → Value

-- `time.Duration`, in nanoseconds.
abbrev pub second : ℕ
second = 1000000000

abbrev pub minute : ℕ
minute = 60000000000

abbrev pub hour : ℕ
hour = 3600000000000

pub record Redis (S : Type 0) : Type 0 where
  pub incr : Key → M S ℤ
  pub incr_by : Key → ℤ → M S ℤ
  pub expire : Key → ℕ → M S (Unit {0})
  pub get : Key → M S (Option Value)  -- `none` is `redis.Nil`
  pub set : Key → Value → ℕ → M S (Unit {0})
  pub set_nx : Key → Value → ℕ → M S Bool
  pub exists : Key → M S ℕ
  pub del : List Key → M S (Unit {0})
  pub zadd : Key → ℤ → String → M S (Unit {0})
  pub zrem : Key → String → M S (Unit {0})
  pub zcard : Key → M S ℤ
  pub zrem_range_by_score : Key → ℤ → ℤ → M S ℤ

-- The number that a counter command starts from. An absent key counts as 0; at any other text the
-- command replies with an error.
abbrev pub as_int : Option Value → ℤ
as_int none = pos 0
as_int (some (int n)) = n
as_int (some (text t)) = pos 0

abbrev pub is_absent : Option Value → Bool
is_absent none = true
is_absent (some _) = false

-- What is stored: the live string value of a key, the score of a member of a sorted set, and the
-- number of its members.
pub record View (S : Type 0) : Type 0 where
  pub stored : S → Key → Option Value
  pub score : S → Key → String → Option ℤ
  pub card : S → Key → ℕ

module _ {S : Type 0} (v : View S) where
  -- What stands at `j` is the same in two states.
  abbrev pub SameAt : S → S → Key → Type 0
  SameAt s s' j =
      (v.stored s' j ≡ v.stored s j) × (v.score s' j ≡ v.score s j) × (v.card s' j ≡ v.card s j)

-- What a command does when its reply is no error, and that it touches no other key whatever the
-- reply is. Expiry and other clients act between commands, not in them.
module _ {S : Type 0} (r : Redis S) (v : View S) where
  pub record IsLawful : Type 0 where
    pub incr_ok :
        (k : Key) (s s' : S) (n : ℤ)
        → r.incr k s ≡ (ok n, s')
        → (n ≡ as_int (v.stored s k) +ℤ pos 1) × (v.stored s' k ≡ some (int n))
    pub incr_frame : (k j : Key) (s : S) → j ≢ k → SameAt v s (r.incr k s).1 j
    pub incr_by_ok :
        (k : Key) (d : ℤ) (s s' : S) (n : ℤ)
        → r.incr_by k d s ≡ (ok n, s')
        → (n ≡ as_int (v.stored s k) +ℤ d) × (v.stored s' k ≡ some (int n))
    pub incr_by_frame : (k j : Key) (d : ℤ) (s : S) → j ≢ k → SameAt v s (r.incr_by k d s).1 j
    pub expire_same : (k j : Key) (d : ℕ) (s : S) → 0 < d → SameAt v s (r.expire k d s).1 j
    pub get_ok : (k : Key) (s s' : S) (x : Option Value) → r.get k s ≡ (ok x, s') → x ≡ v.stored s k
    pub get_same : (k j : Key) (s : S) → SameAt v s (r.get k s).1 j
    pub set_ok :
        (k : Key) (x : Value) (d : ℕ) (s s' : S)
        → 0 < d
        → r.set k x d s ≡ (ok tt, s')
        → v.stored s' k ≡ some x
    pub set_any :
        (k : Key) (x : Value) (d : ℕ) (s : S)
        → (v.stored (r.set k x d s).1 k ≡ v.stored s k) ⊎ (v.stored (r.set k x d s).1 k ≡ some x)
    pub set_frame : (k j : Key) (x : Value) (d : ℕ) (s : S) → j ≢ k → SameAt v s (r.set k x d s).1 j
    pub set_nx_ok :
        (k : Key) (x : Value) (d : ℕ) (s s' : S) (won : Bool)
        → r.set_nx k x d s ≡ (ok won, s')
        → (won ≡ is_absent (v.stored s k)) × (is_absent (v.stored s' k) ≡ false)
    pub set_nx_frame :
        (k j : Key) (x : Value) (d : ℕ) (s : S) → j ≢ k → SameAt v s (r.set_nx k x d s).1 j
    pub exists_same : (k j : Key) (s : S) → SameAt v s (r.exists k s).1 j
    pub del_ok :
        (ks : List Key) (s s' : S) → r.del ks s ≡ (ok tt, s') → All (λ k. v.stored s' k ≡ none) ks
    pub del_any :
        (ks : List Key) (j : Key) (s : S)
        → (v.stored (r.del ks s).1 j ≡ v.stored s j) ⊎ (v.stored (r.del ks s).1 j ≡ none)
    pub del_frame :
        (ks : List Key) (j : Key) (s : S) → All (λ k. j ≢ k) ks → SameAt v s (r.del ks s).1 j
    pub zadd_ok :
        (k : Key) (t : ℤ) (m : String) (s s' : S)
        → r.zadd k t m s ≡ (ok tt, s')
        → (v.score s' k m ≡ some t) × (v.card s' k ≤ v.card s k + 1)
    pub zadd_others :
        (k : Key) (t : ℤ) (m j : String) (s : S)
        → j ≢ m
        → v.score (r.zadd k t m s).1 k j ≡ v.score s k j
    pub zadd_frame :
        (k j : Key) (t : ℤ) (m : String) (s : S) → j ≢ k → SameAt v s (r.zadd k t m s).1 j
    pub zrem_ok :
        (k : Key) (m : String) (s s' : S)
        → r.zrem k m s ≡ (ok tt, s')
        → (v.score s' k m ≡ none) × (v.card s' k ≤ v.card s k)
    pub zrem_others :
        (k : Key) (m j : String) (s : S) → j ≢ m → v.score (r.zrem k m s).1 k j ≡ v.score s k j
    pub zrem_frame : (k j : Key) (m : String) (s : S) → j ≢ k → SameAt v s (r.zrem k m s).1 j
    pub zcard_ok : (k : Key) (s s' : S) (n : ℤ) → r.zcard k s ≡ (ok n, s') → n ≡ pos (v.card s k)
    pub zcard_same : (k j : Key) (s : S) → SameAt v s (r.zcard k s).1 j
    -- A sorted set has at least as many members as one can name.
    pub members_le_card :
        (k : Key) (s : S) (ms : List String)
        → Distinct ms
        → All (λ m. v.score s k m ≢ none) ms
        → length ms ≤ v.card s k
