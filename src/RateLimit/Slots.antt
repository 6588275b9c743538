-- ===== src/RateLimit/Slots.antt =====
-- `AcquireConcurrencySlot` and `ReleaseConcurrencySlot` of one account, called by any number of
-- requests at once: the commands of different requests interleave in any order.
pub mod Bound
pub mod Alone
use quota_lane.Prelude.{ℕ, String, ◌≡◌, Bool, str_eq, if◌then◌else◌}
use quota_lane.Prelude.Int.{ℤ, ◌≤ℤ◌, ◌<ℤ◌}
use quota_lane.Prelude.Effect.{Error, Result, ok, err}
use quota_lane.RateLimit.Repo.{RateLimitRepo}
use quota_lane.RateLimit.Usecase.{max_concurrency}

-- How far a request has come.
pub data Phase : Type 0 where
  idle : Phase  -- not begun, refused, or released
  added : Phase  -- between `AddConcurrencyRequest` and `GetConcurrencyCount`
  granted : Phase  -- acquired, in flight with a slot
  refusing : Phase  -- counted too many, about to remove itself
  uncounted : Phase  -- the count failed, about to remove itself
  unlimited : Phase  -- in flight with no slot, since Redis failed

pub record System (S : Type 0) : Type 0 where
  pub world : S
  pub phase : String → Phase

abbrev pub set_phase : (String → Phase) → String → Phase → String → Phase
set_phase phase m p j = if str_eq m j then p else phase j

module _ {S : Type 0} (repo : RateLimitRepo S) (a : ℕ) where
  -- One command of one request; `m` is its id, and no two requests in flight share one.
  pub data Step (x : System S) : System S → Type 0 where
    add :
        (m : String) (now : ℤ) {s : S}
        → x.phase m ≡ idle
        → repo.add_concurrency_request a m now x.world ≡ (ok tt, s)
        → Step x (record { world = s; phase = set_phase x.phase m added })
    add_fails :
        (m : String) (now : ℤ) (e : Error) {s : S}
        → x.phase m ≡ idle
        → repo.add_concurrency_request a m now x.world ≡ (err e, s)
        → Step x (record { world = s; phase = set_phase x.phase m unlimited })
    grant :
        (m : String) (n : ℤ) {s : S}
        → x.phase m ≡ added
        → repo.get_concurrency_count a x.world ≡ (ok n, s)
        → n ≤ℤ max_concurrency
        → Step x (record { world = s; phase = set_phase x.phase m granted })
    exceed :
        (m : String) (n : ℤ) {s : S}
        → x.phase m ≡ added
        → repo.get_concurrency_count a x.world ≡ (ok n, s)
        → max_concurrency <ℤ n
        → Step x (record { world = s; phase = set_phase x.phase m refusing })
    count_fails :
        (m : String) (e : Error) {s : S}
        → x.phase m ≡ added
        → repo.get_concurrency_count a x.world ≡ (err e, s)
        → Step x (record { world = s; phase = set_phase x.phase m uncounted })
    refuse :
        (m : String) (r : Result (Unit {0})) {s : S}
        → x.phase m ≡ refusing
        → repo.remove_concurrency_request a m x.world ≡ (r, s)
        → Step x (record { world = s; phase = set_phase x.phase m idle })
    give_up :
        (m : String) (r : Result (Unit {0})) {s : S}
        → x.phase m ≡ uncounted
        → repo.remove_concurrency_request a m x.world ≡ (r, s)
        → Step x (record { world = s; phase = set_phase x.phase m unlimited })
    release :
        (m : String) (r : Result (Unit {0})) {s : S}
        → x.phase m ≡ granted
        → repo.remove_concurrency_request a m x.world ≡ (r, s)
        → Step x (record { world = s; phase = set_phase x.phase m idle })
    release_unlimited :
        (m : String) (r : Result (Unit {0})) {s : S}
        → x.phase m ≡ unlimited
        → repo.remove_concurrency_request a m x.world ≡ (r, s)
        → Step x (record { world = s; phase = set_phase x.phase m idle })

  pub data Reach (x : System S) : System S → Type 0 where
    here : Reach x x
    next : {y z : System S} → Reach x y → Step y z → Reach x z
