-- ===== src/CircuitBreaker/Memory.antt =====
-- A repository in memory, an instance of `CircuitBreakerRepo`; its calls fail at a missing account.
use quota_lane.Prelude.{
  ℕ, ◌+◌, ◌≡◌, ◌≢◌, ◌⊎◌, inl, inr, refl, Bool, true, false, not, Option, none, some, arith, ◌==◌,
  if◌then◌else◌, Bool-cases,
}
use quota_lane.Prelude.Int.{ℤ, pos, ◌+ℤ◌}
use quota_lane.Prelude.Effect.{record_not_found, ok, err, M}
use quota_lane.Account.{Account}
use quota_lane.CircuitBreaker.Domain.{CircuitState, CircuitBreakerRepo, Env}
use quota_lane.CircuitBreaker.Laws.{Health, Same, IsLawful, is_live}

pub record Store : Type 0 where
  pub rows : ℕ → Option Account
  pub successes : ℕ → ℤ
  pub marker : ℕ → Option ℕ
  pub retry : ℕ → Option ℕ
  pub clock : ℕ

abbrev at {ℓ} : {A : Type ℓ} → (ℕ → A) → ℕ → A → ℕ → A
at f a x b = if b == a then x else f b

abbrev found : Option Account → M Store Account
found none s = (err record_not_found, s)
found (some x) s = (ok x, s)

abbrev state_of : ℕ → Option Account → M Store CircuitState
state_of a none s = (err record_not_found, s)
state_of a (some x) s = (
  ok (record {
    is_circuit_broken = x.is_circuit_broken;
    circuit_broken_at = x.circuit_broken_at;
    is_half_open = is_live (s.marker a) s.clock;
    success_count = s.successes a;
    backoff_retry_time = s.retry a;
  }),
  s,
)

abbrev change : ℕ → (Account → Account) → Option Account → M Store (Unit {0})
change a f none s = (err record_not_found, s)
change a f (some x) s = (ok tt, record s { rows = at s.rows a (some (f x)) })

abbrev reset_row : ℕ → Option Account → M Store (Unit {0})
reset_row a none s = (err record_not_found, s)
reset_row a (some x) s = (
  ok tt,
  record s {
    rows = at s.rows a (some (record x { is_circuit_broken = false; circuit_broken_at = none }));
    successes = at s.successes a (pos 0);
    marker = at s.marker a none;
    retry = at s.retry a none;
  },
)

abbrev pub memory_repo : CircuitBreakerRepo Store
memory_repo = record {
  update_health_score = λ a n s. change a (λ x. record x { health_score = n }) (s.rows a) s;
  set_circuit_broken = λ a t s.
      change a (λ x. record x { is_circuit_broken = true; circuit_broken_at = some t }) (s.rows a)
        s;
  get_circuit_state = λ a s. state_of a (s.rows a) s;
  set_half_open = λ a ttl s. (
    ok (not (is_live (s.marker a) s.clock)),
    record s {
      marker =
          if is_live (s.marker a) s.clock then s.marker else at s.marker a (some (s.clock + ttl));
    },
  );
  increment_success_count = λ a s. (
    ok (s.successes a +ℤ pos 1),
    record s { successes = at s.successes a (s.successes a +ℤ pos 1) },
  );
  get_success_count = λ a s. (ok (s.successes a), s);
  reset_circuit_breaker = λ a s. reset_row a (s.rows a) s;
  set_backoff_time = λ a t s. (ok tt, record s { retry = at s.retry a (some t) });
  get_backoff_time = λ a s. (ok (s.retry a), s);
  get_account = λ a s. found (s.rows a) s;
}

abbrev pub memory_env : Env Store
memory_env = record {
  now = λ s. s.clock;
  log_health_score_change = λ _ _ _ _ s. s;
  log_circuit_broken = λ _ _ _ s. s;
  log_circuit_recovered = λ _ _ _ s. s;
  spawn = λ _ s. s;
}

abbrev score_of : Option Account → Option ℤ
score_of none = none
score_of (some x) = some x.health_score

abbrev broken_of : Option Account → Option Bool
broken_of none = none
broken_of (some x) = some x.is_circuit_broken

abbrev pub memory_health : Health Store
memory_health = record {
  score = λ s a. score_of (s.rows a);
  broken = λ s a. broken_of (s.rows a);
  probes = λ s a. s.successes a;
  marked = λ s a. s.marker a;
}

found_ok :
    (x : Account) (y : Option Account) (s s' : Store)
    → found y s ≡ (ok x, s')
    → (score_of y ≡ some x.health_score) × (broken_of y ≡ some x.is_circuit_broken)
found_ok x none s s' e = absurd (ground arith)
found_ok x (some y) s s' e = ground arith

found-Same : (y : Option Account) (s : Store) (b : ℕ) → Same memory_health s (found y s).1 b
found-Same none s b = (refl, refl, refl, refl)
found-Same (some x) s b = (refl, refl, refl, refl)

state_ok :
    (a : ℕ) (x : CircuitState) (y : Option Account) (s s' : Store)
    → state_of a y s ≡ (ok x, s')
    → broken_of y ≡ some x.is_circuit_broken
state_ok a x none s s' e = absurd (ground arith)
state_ok a x (some y) s s' e = ground arith

state-Same :
    (a : ℕ) (y : Option Account) (s : Store) (b : ℕ) → Same memory_health s (state_of a y s).1 b
state-Same a none s b = (refl, refl, refl, refl)
state-Same a (some x) s b = (refl, refl, refl, refl)

module _ (a : ℕ) (n : ℤ) where
  abbrev scored : Account → Account
  scored x = record x { health_score = n }

  score_ok :
      (y : Option Account) (s s' : Store)
      → change a scored y s ≡ (ok tt, s')
      → score_of (s'.rows a) ≡ some n
  score_ok none s s' e = absurd (ground arith)
  score_ok (some x) s s' e = ground arith

  score_any :
      (y : Option Account) (s : Store)
      → (score_of ((change a scored y s).1.rows a) ≡ score_of (s.rows a))
        ⊎ (score_of ((change a scored y s).1.rows a) ≡ some n)
  score_any none s = inl refl
  score_any (some x) s = inr (ground arith)

  score_others :
      (b : ℕ) (y : Option Account) (s : Store)
      → b ≢ a
      → score_of ((change a scored y s).1.rows b) ≡ score_of (s.rows b)
  score_others b none s h = refl
  score_others b (some x) s h = ground arith

  score_rest :
      (b : ℕ) (y : Option Account) (s : Store)
      → s.rows a ≡ y
      → (broken_of ((change a scored y s).1.rows b) ≡ broken_of (s.rows b))
        × ((change a scored y s).1.successes b ≡ s.successes b)
  score_rest b none s h = (refl, refl)
  score_rest b (some x) s h = elim (Bool-cases (b == a)) [
    | inl e ↦ ground arith
    | inr e ↦ ground arith
  ]

module _ (a t : ℕ) where
  abbrev opened : Account → Account
  opened x = record x { is_circuit_broken = true; circuit_broken_at = some t }

  break_ok :
      (y : Option Account) (s s' : Store)
      → change a opened y s ≡ (ok tt, s')
      → broken_of (s'.rows a) ≡ some true
  break_ok none s s' e = absurd (ground arith)
  break_ok (some x) s s' e = ground arith

  break_rest :
      (b : ℕ) (y : Option Account) (s : Store)
      → s.rows a ≡ y
      → (score_of ((change a opened y s).1.rows b) ≡ score_of (s.rows b))
        × ((change a opened y s).1.successes b ≡ s.successes b)
  break_rest b none s h = (refl, refl)
  break_rest b (some x) s h = elim (Bool-cases (b == a)) [
    | inl e ↦ ground arith
    | inr e ↦ ground arith
  ]

reset_ok :
    (a : ℕ) (y : Option Account) (s s' : Store)
    → reset_row a y s ≡ (ok tt, s')
    → broken_of (s'.rows a) ≡ some false
reset_ok a none s s' e = absurd (ground arith)
reset_ok a (some x) s s' e = ground arith

reset_rest :
    (a b : ℕ) (y : Option Account) (s : Store)
    → s.rows a ≡ y
    → score_of ((reset_row a y s).1.rows b) ≡ score_of (s.rows b)
reset_rest a b none s h = refl
reset_rest a b (some x) s h = elim (Bool-cases (b == a)) [
  | inl e ↦ ground arith
  | inr e ↦ ground arith
]

mark_ok :
    (a ttl : ℕ) (s s' : Store) (won : Bool)
    → memory_repo.set_half_open a ttl s ≡ (ok won, s')
    → (won ≡ not (is_live (s.marker a) s.clock)) × (won ≡ true → s'.marker a ≡ some (s.clock + ttl))
mark_ok a ttl s s' won e = elim (Bool-cases (is_live (s.marker a) s.clock)) [
  | inl l ↦ (ground (arith, l), λ w. absurd (ground (arith, l)))
  | inr l ↦ (ground (arith, l), λ w. ground (arith, l))
]

pub memory_repo-IsLawful : IsLawful memory_repo memory_env memory_health
memory_repo-IsLawful = record {
  get_account_ok = λ a s s' x. found_ok x (s.rows a) s s';
  get_account_same = λ a b s. found-Same (s.rows a) s b;
  get_circuit_state_ok = λ a s s' x. state_ok a x (s.rows a) s s';
  get_circuit_state_same = λ a b s. state-Same a (s.rows a) s b;
  get_backoff_time_same = λ a b s. (refl, refl, refl, refl);
  set_backoff_time_same = λ a b t s. (refl, refl, refl, refl);
  update_health_score_ok = λ a n s s'. score_ok a n (s.rows a) s s';
  update_health_score_any = λ a n s. score_any a n (s.rows a) s;
  update_health_score_others = λ a b n s. score_others a n b (s.rows a) s;
  update_health_score_rest = λ a b n s. score_rest a n b (s.rows a) s refl;
  set_circuit_broken_ok = λ a t s s'. break_ok a t (s.rows a) s s';
  set_circuit_broken_rest = λ a b t s. break_rest a t b (s.rows a) s refl;
  set_half_open_ok = λ a ttl s s' won e. mark_ok a ttl s s' won e;
  set_half_open_rest = λ a b ttl s. (refl, refl);
  increment_success_count_ok = λ a s s' n e. ground arith;
  increment_success_count_rest = λ a b s. (refl, refl);
  reset_circuit_breaker_ok = λ a s s'. reset_ok a (s.rows a) s s';
  reset_circuit_breaker_rest = λ a b s. reset_rest a b (s.rows a) s refl;
  log_health_score_change_same = λ a b m n t s. (refl, refl, refl, refl);
  log_circuit_broken_same = λ a b t n s. (refl, refl, refl, refl);
  log_circuit_recovered_same = λ a b m n s. (refl, refl, refl, refl);
  spawn_same = λ t b s. (refl, refl, refl, refl);
}
