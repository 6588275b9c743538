-- ===== src/RateLimit/Repo.antt =====
-- internal/biz/rate_limit_repo.go: the interface that the rate limiter calls, and what it relies
-- on. The state `S` is all that the calls act on.
use quota_lane.Prelude.{
  ℕ, ◌+◌, ◌≤◌, String, ◌≡◌, ◌≢◌, Option, none, some, List, All, Distinct, length, if◌then◌else◌,
}
use quota_lane.Prelude.Int.{ℤ, pos, ◌+ℤ◌, int32, leb_ℤ}
use quota_lane.Prelude.Effect.{M, ok}

pub record RateLimitRepo (S : Type 0) : Type 0 where
  pub increment_rpm : ℕ → M S ℤ
  pub get_rpm_count : ℕ → M S ℤ
  pub increment_tpm : ℕ → ℤ → M S ℤ
  pub get_tpm_count : ℕ → M S ℤ
  pub add_concurrency_request : ℕ → String → ℤ → M S (Unit {0})
  pub remove_concurrency_request : ℕ → String → M S (Unit {0})
  pub get_concurrency_count : ℕ → M S ℤ
  pub cleanup_expired_concurrency : ℕ → ℤ → M S (Unit {0})

-- The counters of an account, the time stamp under which it tracks a request, and the number of
-- requests that it tracks.
pub record Counters (S : Type 0) : Type 0 where
  pub rpm : S → ℕ → ℤ
  pub tpm : S → ℕ → ℤ
  pub slot : S → ℕ → String → Option ℤ
  pub active : S → ℕ → ℕ

-- A 64-bit count as the repository returns it: capped at the largest int32, then converted.
abbrev pub to_int32 : ℤ → ℤ
to_int32 n = int32 (if leb_ℤ n (pos 2147483647) then n else pos 2147483647)

module _ {S : Type 0} (repo : RateLimitRepo S) (c : Counters S) where
  pub record IsLawful : Type 0 where
    pub increment_rpm_ok :
        (a : ℕ) (s s' : S) (n : ℤ)
        → repo.increment_rpm a s ≡ (ok n, s')
        → (c.rpm s' a ≡ c.rpm s a +ℤ pos 1) × (n ≡ to_int32 (c.rpm s' a))
    pub increment_tpm_ok :
        (a : ℕ) (d : ℤ) (s s' : S) (n : ℤ)
        → repo.increment_tpm a d s ≡ (ok n, s')
        → (c.tpm s' a ≡ c.tpm s a +ℤ d) × (n ≡ to_int32 (c.tpm s' a))
    pub get_tpm_count_ok :
        (a : ℕ) (s s' : S) (n : ℤ) → repo.get_tpm_count a s ≡ (ok n, s') → n ≡ c.tpm s a
    pub get_tpm_count_same : (a b : ℕ) (s : S) → c.tpm (repo.get_tpm_count a s).1 b ≡ c.tpm s b
    pub add_ok :
        (a : ℕ) (m : String) (t : ℤ) (s s' : S)
        → repo.add_concurrency_request a m t s ≡ (ok tt, s')
        → (c.slot s' a m ≡ some t) × (c.active s' a ≤ c.active s a + 1)
    pub add_others :
        (a : ℕ) (m j : String) (t : ℤ) (s : S)
        → j ≢ m
        → c.slot (repo.add_concurrency_request a m t s).1 a j ≡ c.slot s a j
    pub remove_ok :
        (a : ℕ) (m : String) (s s' : S)
        → repo.remove_concurrency_request a m s ≡ (ok tt, s')
        → (c.slot s' a m ≡ none) × (c.active s' a ≤ c.active s a)
    pub remove_others :
        (a : ℕ) (m j : String) (s : S)
        → j ≢ m
        → c.slot (repo.remove_concurrency_request a m s).1 a j ≡ c.slot s a j
    pub count_ok :
        (a : ℕ) (s s' : S) (n : ℤ)
        → repo.get_concurrency_count a s ≡ (ok n, s')
        → n ≡ to_int32 (pos (c.active s a))
    pub count_same :
        (a : ℕ) (s : S)
        → (c.slot (repo.get_concurrency_count a s).1 a ≡ c.slot s a)
          × (c.active (repo.get_concurrency_count a s).1 a ≡ c.active s a)
    pub distinct-le-active :
        (a : ℕ) (s : S) (ms : List String)
        → Distinct ms
        → All (λ m. c.slot s a m ≢ none) ms
        → length ms ≤ c.active s a

  -- Redis answers the counting commands of an account from every state in `Up` and stays in `Up`.
  -- A token count outside int32 is an error in the repository, so that it need not be answered.
  pub record IsAvailable (a : ℕ) (Up : S → Type 0) : Type 0 where
    pub increment_rpm_up :
        (s : S)
        → Up s
        → (n : ℤ) × ((repo.increment_rpm a s).0 ≡ ok n) × Up (repo.increment_rpm a s).1
    pub get_tpm_count_up :
        (s : S) (x : ℕ)
        → Up s
        → c.tpm s a ≡ pos x
        → x ≤ 2147483647
        → (n : ℤ) × ((repo.get_tpm_count a s).0 ≡ ok n) × Up (repo.get_tpm_count a s).1
    pub increment_tpm_up :
        (d : ℤ) (s : S)
        → Up s
        → (n : ℤ) × ((repo.increment_tpm a d s).0 ≡ ok n) × Up (repo.increment_tpm a d s).1
