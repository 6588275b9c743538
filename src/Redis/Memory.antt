-- ===== src/Redis/Memory.antt =====
-- A Redis in memory in which no key expires, an instance of `Redis`.
use quota_lane.Prelude.{
  inl, inr, ◌⊎◌, subst, ℕ, ◌+◌, ◌-◌, ap, fun_ext, ◌≤◌, ◌<◌, String, ◌≡◌, ◌≢◌, refl, ◌∙◌, Bool, true,
  false, ◌&&◌, Option, none, some, List, [], ◌∷◌, arith, ◌==◌, str_eq, eq_iff, if◌then◌else◌,
  length, All, Distinct,
}
use quota_lane.Prelude.Int.{ℤ, pos, ◌+ℤ◌, leb_ℤ}
use quota_lane.Prelude.Effect.{Result, message, ok, err, M}
use quota_lane.Redis.{
  Redis, Key, rate, concurrency, circuit, half_open, success_count, backoff, account_cache,
  group_cache, account_groups, refresh_failure, alert, oauth_session, health_check_failure,
  health_check_alert, Value, int, text, as_int, is_absent, SameAt, View, IsLawful,
}

abbrev pub same_key : Key → Key → Bool
same_key (rate a t) (rate b u) = a == b && str_eq t u
same_key (concurrency a) (concurrency b) = a == b
same_key (circuit a) (circuit b) = a == b
same_key (half_open a) (half_open b) = a == b
same_key (success_count a) (success_count b) = a == b
same_key (backoff a) (backoff b) = a == b
same_key (account_cache a) (account_cache b) = a == b
same_key (group_cache a) (group_cache b) = a == b
same_key (account_groups a) (account_groups b) = a == b
same_key (refresh_failure a) (refresh_failure b) = a == b
same_key (alert a) (alert b) = a == b
same_key (oauth_session t) (oauth_session u) = str_eq t u
same_key (health_check_failure a) (health_check_failure b) = a == b
same_key (health_check_alert a) (health_check_alert b) = a == b
same_key _ _ = false

same_key_refl : (k : Key) → same_key k k ≡ true
same_key_refl (rate a t) = ground (arith, eq_iff t t)
same_key_refl (concurrency a) = ground arith
same_key_refl (circuit a) = ground arith
same_key_refl (half_open a) = ground arith
same_key_refl (success_count a) = ground arith
same_key_refl (backoff a) = ground arith
same_key_refl (account_cache a) = ground arith
same_key_refl (group_cache a) = ground arith
same_key_refl (account_groups a) = ground arith
same_key_refl (refresh_failure a) = ground arith
same_key_refl (alert a) = ground arith
same_key_refl (oauth_session t) = ground (arith, eq_iff t t)
same_key_refl (health_check_failure a) = ground arith
same_key_refl (health_check_alert a) = ground arith

same_key_ne : (j k : Key) → j ≢ k → same_key k j ≡ false
same_key_ne (rate a t) (rate b u) h = ground (arith, eq_iff u t)
same_key_ne (oauth_session t) (oauth_session u) h = ground (arith, eq_iff u t)
same_key_ne j k h = ground arith

pub record Memory : Type 0 where
  pub strings : Key → Option Value
  pub lifetime : Key → Option ℕ
  pub sets : Key → List (String × ℤ)

abbrev pub empty : Memory
empty = record { strings = λ _. none; lifetime = λ _. none; sets = λ _. [] }

abbrev pub put {ℓ} : {A : Type ℓ} → (Key → A) → Key → A → Key → A
put f k x j = if same_key k j then x else f j

-- A sorted set as an association list.
unfoldable pub score_in : String → List (String × ℤ) → Option ℤ
score_in m [] = none
score_in m ((j, t) ∷ l) = if str_eq j m then some t else score_in m l

unfoldable pub insert_in : String → ℤ → List (String × ℤ) → List (String × ℤ)
insert_in m t [] = (m, t) ∷ []
insert_in m t ((j, u) ∷ l) = if str_eq j m then (m, t) ∷ l else (j, u) ∷ insert_in m t l

unfoldable pub remove_in : String → List (String × ℤ) → List (String × ℤ)
remove_in m [] = []
remove_in m ((j, u) ∷ l) = let rest = remove_in m l in if str_eq j m then rest else (j, u) ∷ rest

unfoldable pub remove_range : ℤ → ℤ → List (String × ℤ) → List (String × ℤ)
remove_range lo hi [] = []
remove_range lo hi ((j, u) ∷ l) =
    let rest = remove_range lo hi l in if leb_ℤ lo u && leb_ℤ u hi then rest else (j, u) ∷ rest

score_in-insert_in :
    (j m : String) (t : ℤ) (l : List (String × ℤ))
    → score_in j (insert_in m t l) ≡ (if str_eq m j then some t else score_in j l)
unfolding score_in insert_in
score_in-insert_in j m t [] = refl
score_in-insert_in j m t ((i, u) ∷ l) =
    ground (arith, eq_iff i m, eq_iff i j, eq_iff m j, score_in-insert_in j m t l)

score_in-remove_in :
    (j m : String) (l : List (String × ℤ))
    → score_in j (remove_in m l) ≡ (if str_eq m j then none else score_in j l)
unfolding score_in remove_in
score_in-remove_in j m [] = ground arith
score_in-remove_in j m ((i, u) ∷ l) =
    ground (arith, eq_iff i m, eq_iff i j, eq_iff m j, score_in-remove_in j m l)

length-insert_in :
    (m : String) (t : ℤ) (l : List (String × ℤ)) → length (insert_in m t l) ≤ length l + 1
unfolding insert_in
length-insert_in m t [] = omega arith
length-insert_in m t ((j, u) ∷ l) = ground (arith, length-insert_in m t l)

length-remove_in : (m : String) (l : List (String × ℤ)) → length (remove_in m l) ≤ length l
unfolding remove_in
length-remove_in m [] = omega arith
length-remove_in m ((j, u) ∷ l) = ground (arith, length-remove_in m l)

length-remove_in_mem :
    (m : String) (l : List (String × ℤ)) → score_in m l ≢ none → length (remove_in m l) < length l
unfolding remove_in score_in
length-remove_in_mem m [] h = absurd (h refl)
length-remove_in_mem m ((j, u) ∷ l) h =
    ground (arith, length-remove_in_mem m l, length-remove_in m l)

-- Distinct members of a set are no more than its entries.
members_le_length :
    (l : List (String × ℤ)) (ms : List String)
    → Distinct ms
    → All (λ m. score_in m l ≢ none) ms
    → length ms ≤ length l
members_le_length l [] d h = omega arith
members_le_length l (m ∷ ms) d h =
    omega (arith, length-remove_in_mem m l h.0, members_le_length (remove_in m l) ms d.1 others)
  where
    others : All (λ j. score_in j (remove_in m l) ≢ none) ms
    others = still ms d.0 h.1
      where
        still :
            (js : List String)
            → All (λ j. m ≢ j) js
            → All (λ j. score_in j l ≢ none) js
            → All (λ j. score_in j (remove_in m l) ≢ none) js
        still [] a b = tt
        still (j ∷ js) a b =
            (ground (arith, eq_iff m j, score_in-remove_in j m l), still js a.1 b.1)

abbrev pub bump_by : Key → ℤ → Option Value → M Memory ℤ
bump_by k d (some (text t)) s = (err (message "value is not an integer"), s)
bump_by k d v s =
    (ok (as_int v +ℤ d), record s { strings = put s.strings k (some (int (as_int v +ℤ d))) })

abbrev del_keys : List Key → Memory → Memory
del_keys [] s = s
del_keys (k ∷ ks) s = del_keys ks (record s {
  strings = put s.strings k none;
  lifetime = put s.lifetime k none;
  sets = put s.sets k [];
})

abbrev set_absent : Key → Value → ℕ → Option Value → M Memory Bool
set_absent k x d none s =
    (ok true, record s { strings = put s.strings k (some x); lifetime = put s.lifetime k (some d) })
set_absent k x d (some _) s = (ok false, s)

abbrev present : Option Value → ℕ
present none = 0
present (some _) = 1

abbrev pub memory_redis : Redis Memory
memory_redis = record {
  incr = λ k s. bump_by k (pos 1) (s.strings k) s;
  incr_by = λ k d s. bump_by k d (s.strings k) s;
  expire = λ k d s. (ok tt, record s { lifetime = put s.lifetime k (some d) });
  get = λ k s. (ok (s.strings k), s);
  set = λ k x d s. (
    ok tt,
    record s { strings = put s.strings k (some x); lifetime = put s.lifetime k (some d) },
  );
  set_nx = λ k x d s. set_absent k x d (s.strings k) s;
  exists = λ k s. (ok (present (s.strings k)), s);
  del = λ ks s. (ok tt, del_keys ks s);
  zadd = λ k t m s. (ok tt, record s { sets = put s.sets k (insert_in m t (s.sets k)) });
  zrem = λ k m s. (ok tt, record s { sets = put s.sets k (remove_in m (s.sets k)) });
  zcard = λ k s. (ok (pos (length (s.sets k))), s);
  zrem_range_by_score = λ k lo hi s. (
    ok (pos (length (s.sets k) - length (remove_range lo hi (s.sets k)))),
    record s { sets = put s.sets k (remove_range lo hi (s.sets k)) },
  );
}

abbrev pub memory_view : View Memory
memory_view = record {
  stored = λ s k. s.strings k;
  score = λ s k m. score_in m (s.sets k);
  card = λ s k. length (s.sets k);
}

bump_by_ok :
    (k : Key) (d : ℤ) (v : Option Value) (s s' : Memory) (n : ℤ)
    → bump_by k d v s ≡ (ok n, s')
    → (n ≡ as_int v +ℤ d) × (s'.strings k ≡ some (int n))
bump_by_ok k d none s s' n e = ground (arith, same_key_refl k)
bump_by_ok k d (some (int m)) s s' n e = ground (arith, same_key_refl k)
bump_by_ok k d (some (text t)) s s' n e = absurd (ground arith)

bump_by_frame :
    (k j : Key) (d : ℤ) (v : Option Value) (s : Memory)
    → j ≢ k
    → ((bump_by k d v s).1.strings j ≡ s.strings j) × ((bump_by k d v s).1.sets ≡ s.sets)
bump_by_frame k j d none s h = ground (arith, same_key_ne j k h)
bump_by_frame k j d (some (int m)) s h = ground (arith, same_key_ne j k h)
bump_by_frame k j d (some (text t)) s h = (refl, refl)

put_ne {ℓ} : {A : Type ℓ} (f : Key → A) (k j : Key) (x : A) → j ≢ k → put f k x j ≡ f j
put_ne f k j x h = rw (same_key_ne j k h)

set_absent_ok :
    (k : Key) (x : Value) (d : ℕ) (y : Option Value) (s s' : Memory) (won : Bool)
    → s.strings k ≡ y
    → set_absent k x d y s ≡ (ok won, s')
    → (won ≡ is_absent y) × (is_absent (s'.strings k) ≡ false)
set_absent_ok k x d none s s' won h e = ground (arith, same_key_refl k)
set_absent_ok k x d (some y) s s' won h e = ground arith

set_absent_frame :
    (k j : Key) (x : Value) (d : ℕ) (y : Option Value) (s : Memory)
    → j ≢ k
    → SameAt memory_view s (set_absent k x d y s).1 j
set_absent_frame k j x d none s h = (put_ne s.strings k j (some x) h, refl, refl)
set_absent_frame k j x d (some y) s h = (refl, refl, refl)

del_keys_frame :
    (ks : List Key) (j : Key) (s : Memory)
    → All (λ k. j ≢ k) ks
    → SameAt memory_view s (del_keys ks s) j
del_keys_frame [] j s h = (refl, refl, refl)
del_keys_frame (k ∷ ks) j s (ne, more) =
    let (e, f, g) =
      del_keys_frame ks j
        (record s {
          strings = put s.strings k none;
          lifetime = put s.lifetime k none;
          sets = put s.sets k [];
        })
        more in
    (
      e ∙ put_ne s.strings k j none ne,
      f ∙ fun_ext (λ i. ap (score_in i) (put_ne s.sets k j [] ne)),
      g ∙ ap length (put_ne s.sets k j [] ne),
    )

del_keys_any :
    (ks : List Key) (j : Key) (s : Memory)
    → ((del_keys ks s).strings j ≡ s.strings j) ⊎ ((del_keys ks s).strings j ≡ none)
del_keys_any [] j s = inl refl
del_keys_any (k ∷ ks) j s = ground (
  arith,
  del_keys_any ks j (record s {
    strings = put s.strings k none;
    lifetime = put s.lifetime k none;
    sets = put s.sets k [];
  }),
)

-- A key that is absent stays absent.
del_keys_absent :
    (ks : List Key) (j : Key) (s : Memory) → s.strings j ≡ none → (del_keys ks s).strings j ≡ none
del_keys_absent ks j s h = ground (arith, del_keys_any ks j s)

del_keys-none : (ks : List Key) (s : Memory) → All (λ k. (del_keys ks s).strings k ≡ none) ks
del_keys-none [] s = tt
del_keys-none (k ∷ ks) s =
    (del_keys_absent ks k _ (ground (arith, same_key_refl k)), del_keys-none ks _)

pub memory_redis-IsLawful : IsLawful memory_redis memory_view
memory_redis-IsLawful = record {
  incr_ok = λ k s. bump_by_ok k (pos 1) (s.strings k) s;
  incr_frame = λ k j s h.
      let (e, f) = bump_by_frame k j (pos 1) (s.strings k) s h in
      (e, fun_ext (λ m. ap (λ g. score_in m (g j)) f), ap (λ g. length (g j)) f);
  incr_by_ok = λ k d s. bump_by_ok k d (s.strings k) s;
  incr_by_frame = λ k j d s h.
      let (e, f) = bump_by_frame k j d (s.strings k) s h in
      (e, fun_ext (λ m. ap (λ g. score_in m (g j)) f), ap (λ g. length (g j)) f);
  expire_same = λ k j d s h. (refl, refl, refl);
  get_ok = λ k s s' x e. ground arith;
  get_same = λ k j s. (refl, refl, refl);
  set_ok = λ k x d s s' h e. ground (arith, same_key_refl k);
  set_any = λ k x d s. inr (ground (arith, same_key_refl k));
  set_frame = λ k j x d s h. (put_ne s.strings k j (some x) h, refl, refl);
  set_nx_ok = λ k x d s s' won e. set_absent_ok k x d (s.strings k) s s' won refl e;
  set_nx_frame = λ k j x d s h. set_absent_frame k j x d (s.strings k) s h;
  exists_same = λ k j s. (refl, refl, refl);
  del_ok = λ ks s s' e.
      subst (λ (w : Result (Unit {0}) × Memory). All (λ k. w.1.strings k ≡ none) ks) e
        (del_keys-none ks s);
  del_any = λ ks j s. del_keys_any ks j s;
  del_frame = λ ks j s h. del_keys_frame ks j s h;
  zadd_ok = λ k t m s s' e. (
    ground (arith, same_key_refl k, eq_iff m m, score_in-insert_in m m t (s.sets k)),
    ground (arith, same_key_refl k, length-insert_in m t (s.sets k)),
  );
  zadd_others = λ k t m j s h.
      ground (arith, same_key_refl k, eq_iff m j, score_in-insert_in j m t (s.sets k));
  zadd_frame = λ k j t m s h. (
    refl,
    fun_ext (λ i. ap (score_in i) (put_ne s.sets k j _ h)),
    ap length (put_ne s.sets k j _ h),
  );
  zrem_ok = λ k m s s' e. (
    ground (arith, same_key_refl k, eq_iff m m, score_in-remove_in m m (s.sets k)),
    ground (arith, same_key_refl k, length-remove_in m (s.sets k)),
  );
  zrem_others =
      λ k m j s h. ground (arith, same_key_refl k, eq_iff m j, score_in-remove_in j m (s.sets k));
  zrem_frame = λ k j m s h. (
    refl,
    fun_ext (λ i. ap (score_in i) (put_ne s.sets k j _ h)),
    ap length (put_ne s.sets k j _ h),
  );
  zcard_ok = λ k s s' n e. ground arith;
  zcard_same = λ k j s. (refl, refl, refl);
  members_le_card = λ k s ms d h. members_le_length (s.sets k) ms d h;
}
