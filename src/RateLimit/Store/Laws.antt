-- ===== src/RateLimit/Store/Laws.antt =====
-- internal/data/rate_limit.go, by the laws of RateLimit.Repo.
use quota_lane.Prelude.{ℕ, ◌+◌, ◌≤◌, String, ◌≡◌, ap, Option, none, some, arith, inl, inr}
use quota_lane.Prelude.Int.{ℤ, pos, ◌+ℤ◌}
use quota_lane.Prelude.Effect.{Result, ok, err, Result-cases, M, wrap}
use quota_lane.Redis
use quota_lane.Redis.{Redis, Key, rate, concurrency, View, as_int, Value, int, text}
use quota_lane.RateLimit.Repo.{Counters, IsLawful, to_int32}
use quota_lane.RateLimit.Store.{
  new_rate_limit_repo, get_rate_limit_key, get_concurrency_key, increment_rpm, increment_tpm,
  get_tpm_count, add_concurrency_request, remove_concurrency_request, get_concurrency_count,
}

-- The counters of the accounts, in what Redis stores.
abbrev pub counters : {S : Type 0} → View S → Counters S
counters v = record {
  rpm = λ s a. as_int (v.stored s (get_rate_limit_key a "rpm"));
  tpm = λ s a. as_int (v.stored s (get_rate_limit_key a "tpm"));
  slot = λ s a. v.score s (get_concurrency_key a);
  active = λ s a. v.card s (get_concurrency_key a);
}

-- A call that was wrapped and came back with a value.
unwrapped :
    {S A : Type 0} (note : String) {a : A} (m : M S A) (s s' : S)
    → wrap note m s ≡ (ok a, s')
    → m s ≡ (ok a, s')
unfolding wrap
unwrapped note m s s' e = elim (Result-cases (m s)) [
  | inl (b, p) ↦ ground (arith, p)
  | inr (inl (f, p)) ↦ absurd (ground (arith, p))
  | inr (inr p) ↦ absurd (ground (arith, p))
]

module _ {S : Type 0} (rdb : Redis S) (v : View S) (law : Redis.IsLawful rdb v) where
  increment_rpm_lem :
      (a : ℕ) (s s' : S) (n : ℤ)
      → increment_rpm rdb a s ≡ (ok n, s')
      → ((counters v).rpm s' a ≡ (counters v).rpm s a +ℤ pos 1)
        × (n ≡ to_int32 ((counters v).rpm s' a))
  unfolding increment_rpm
  increment_rpm_lem a s s' n e = elim (Result-cases (rdb.incr (rate a "rpm") s)) [
    | inl (m, p) ↦ ground (
      arith,
      p,
      law.incr_ok (rate a "rpm") s _ m p,
      law.expire_same (rate a "rpm") (rate a "rpm") 60 (rdb.incr (rate a "rpm") s).1,
    )
    | inr (inl (f, p)) ↦ absurd (ground (arith, p))
    | inr (inr p) ↦ absurd (ground (arith, p))
  ]

  get_tpm_count_lem :
      (a : ℕ) (s s' : S) (n : ℤ) → get_tpm_count rdb a s ≡ (ok n, s') → n ≡ (counters v).tpm s a
  unfolding get_tpm_count
  get_tpm_count_lem a s s' n e = elim (Result-cases (rdb.get (rate a "tpm") s)) [
    | inl (x, p) ↦ ground (arith, p, law.get_ok (rate a "tpm") s _ x p)
    | inr (inl (f, p)) ↦ absurd (ground (arith, p))
    | inr (inr p) ↦ absurd (ground (arith, p))
  ]

  increment_tpm_lem :
      (a : ℕ) (d : ℤ) (s s' : S) (n : ℤ)
      → increment_tpm rdb a d s ≡ (ok n, s')
      → ((counters v).tpm s' a ≡ (counters v).tpm s a +ℤ d) × (n ≡ to_int32 ((counters v).tpm s' a))
  unfolding increment_tpm
  increment_tpm_lem a d s s' n e = elim (Result-cases (rdb.get (rate a "tpm") s)) [
    | inl (x, g) ↦ counted (ok x) g
    | inr (inl (f, g)) ↦ counted (err f) g
    | inr (inr g) ↦ absurd (ground (arith, g))
  ]
    where
      s₁ : S
      s₁ = (rdb.get (rate a "tpm") s).1

      counted :
          (r : Result (Option Value))
          → rdb.get (rate a "tpm") s ≡ (r, s₁)
          → ((counters v).tpm s' a ≡ (counters v).tpm s a +ℤ d)
            × (n ≡ to_int32 ((counters v).tpm s' a))
      counted r g = elim (Result-cases (rdb.incr_by (rate a "tpm") d s₁)) [
        | inl (m, p) ↦ ground (
          arith,
          g,
          p,
          law.incr_by_ok (rate a "tpm") d s₁ _ m p,
          law.get_same (rate a "tpm") (rate a "tpm") s,
          law.expire_same (rate a "tpm") (rate a "tpm") 60 (rdb.incr_by (rate a "tpm") d s₁).1,
        )
        | inr (inl (f, p)) ↦ absurd (ground (arith, g, p))
        | inr (inr p) ↦ absurd (ground (arith, g, p))
      ]

  add_ok_lem :
      (a : ℕ) (m : String) (t : ℤ) (s s' : S)
      → add_concurrency_request rdb a m t s ≡ (ok tt, s')
      → (v.score s' (concurrency a) m ≡ some t)
        × (v.card s' (concurrency a) ≤ v.card s (concurrency a) + 1)
  unfolding add_concurrency_request
  add_ok_lem a m t s s' e =
      law.zadd_ok (concurrency a) t m s s' (unwrapped _ (rdb.zadd (concurrency a) t m) s s' e)

  remove_ok_lem :
      (a : ℕ) (m : String) (s s' : S)
      → remove_concurrency_request rdb a m s ≡ (ok tt, s')
      → (v.score s' (concurrency a) m ≡ none)
        × (v.card s' (concurrency a) ≤ v.card s (concurrency a))
  unfolding remove_concurrency_request
  remove_ok_lem a m s s' e =
      law.zrem_ok (concurrency a) m s s' (unwrapped _ (rdb.zrem (concurrency a) m) s s' e)

  count_ok_lem :
      (a : ℕ) (s s' : S) (n : ℤ)
      → get_concurrency_count rdb a s ≡ (ok n, s')
      → n ≡ to_int32 (pos (v.card s (concurrency a)))
  unfolding get_concurrency_count
  count_ok_lem a s s' n e = elim (Result-cases (rdb.zcard (concurrency a) s)) [
    | inl (m, p) ↦ ground (arith, p, law.zcard_ok (concurrency a) s _ m p)
    | inr (inl (f, p)) ↦ absurd (ground (arith, p))
    | inr (inr p) ↦ absurd (ground (arith, p))
  ]

  count_state :
      (a : ℕ) (s : S) → (get_concurrency_count rdb a s).1 ≡ (rdb.zcard (concurrency a) s).1
  unfolding get_concurrency_count
  count_state a s = elim (Result-cases (rdb.zcard (concurrency a) s)) [
    | inl (m, p) ↦ ground (arith, p)
    | inr (inl (f, p)) ↦ ground (arith, p)
    | inr (inr p) ↦ ground (arith, p)
  ]

  get_tpm_count_state : (a : ℕ) (s : S) → (get_tpm_count rdb a s).1 ≡ (rdb.get (rate a "tpm") s).1
  unfolding get_tpm_count
  get_tpm_count_state a s = elim (Result-cases (rdb.get (rate a "tpm") s)) [
    | inl (none, p) ↦ ground (arith, p)
    | inl (some (int (pos n)), p) ↦ ground (arith, p)
    | inl (some (int (ℤ.negsuc n)), p) ↦ ground (arith, p)
    | inl (some (text t), p) ↦ ground (arith, p)
    | inr (inl (f, p)) ↦ ground (arith, p)
    | inr (inr p) ↦ ground (arith, p)
  ]

  -- The repository refines the counters: over a Redis that does what its documentation says, all
  -- that the rate limiter relies on holds of the stored counters and sorted sets.
  pub new_rate_limit_repo-IsLawful : IsLawful (new_rate_limit_repo (some rdb)) (counters v)
  unfolding add_concurrency_request remove_concurrency_request
  new_rate_limit_repo-IsLawful = record {
    increment_rpm_ok = increment_rpm_lem;
    increment_tpm_ok = increment_tpm_lem;
    get_tpm_count_ok = get_tpm_count_lem;
    get_tpm_count_same = λ a b s.
        rw get_tpm_count_state (ap as_int (law.get_same (rate a "tpm") (rate b "tpm") s).0);
    add_ok = add_ok_lem;
    add_others = λ a m j t s. law.zadd_others (concurrency a) t m j s;
    remove_ok = remove_ok_lem;
    remove_others = λ a m j s. law.zrem_others (concurrency a) m j s;
    count_ok = count_ok_lem;
    count_same = λ a s. rw count_state (
      (law.zcard_same (concurrency a) (concurrency a) s).1,
      (law.zcard_same (concurrency a) (concurrency a) s).2,
    );
    distinct-le-active = λ a s ms. law.members_le_card (concurrency a) s ms;
  }
