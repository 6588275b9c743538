-- ===== src/Metadata/Laws.antt =====
-- pkg/metadata/metadata.go: what is accepted, and what masking hides.
use quota_lane.Prelude.{
  ℕ, String, subst, some-injective, bytes_eq_iff, ◌≤◌, ◌<◌, ◌≡◌, ◌≢◌, ◌↔◌, inl, inr, refl, sym,
  Bytes, codes, is_empty, Bool, true, false, not, Option, some, List, [], ◌∷◌, map, ltb, length,
  if◌then◌else◌, All, arith, Option-cases,
}
use quota_lane.Prelude.Effect.{Result, ok, err, panic, wrap_result}
use quota_lane.DbErrors.{to_lower}
use quota_lane.Metadata.{
  AccountMetadata, Url, check_tags, check_that, ◌then_check◌, validate, validate_proxy_url,
  mask_proxy_password, is_proxy_scheme, base_or_error,
}

abbrev Passes : Result (Unit {0}) → Type 0
Passes r = r ≡ ok tt

-- A sequence of checks passes exactly if each of them does.
then_check_iff :
    (A B : Type 0) (a b : Result (Unit {0}))
    → Passes a ↔ A
    → Passes b ↔ B
    → Passes (a then_check b) ↔ (A × B)
then_check_iff A B (ok _) b f g = (λ h. (f.0 refl, g.0 h), λ h. g.1 h.1)
then_check_iff A B (err e) b f g =
    (λ h. absurd (ground arith), λ h. absurd (ground (arith, f.1 h.0)))
then_check_iff A B panic b f g = (λ h. absurd (ground arith), λ h. absurd (ground (arith, f.1 h.0)))

check_that_iff :
    (A : Type 0) (b : Bool) (text : String) → (b ≡ true) ↔ A → Passes (check_that b text) ↔ A
check_that_iff A true text f = (λ h. f.0 refl, λ h. refl)
check_that_iff A false text f = (λ h. absurd (ground arith), λ h. absurd (ground (arith, f.1 h)))

at_most_iff : (n k : ℕ) → (not (ltb n k) ≡ true) ↔ (k ≤ n)
at_most_iff n k = ground arith

not_empty_iff : (b : Bytes) → (not (is_empty b) ≡ true) ↔ (0 < length b)
not_empty_iff [] = (λ h. absurd (ground arith), λ h. absurd (omega arith))
not_empty_iff (c ∷ cs) = (λ h. omega arith, λ h. refl)

-- A tag is short and not empty.
abbrev pub IsTag : Bytes → Type 0
IsTag tag = (0 < length tag) × (length tag ≤ 50)

check_tags_iff : (tags : List Bytes) → Passes (check_tags tags) ↔ All IsTag tags
unfolding check_tags
check_tags_iff [] = (λ h. tt, λ h. refl)
check_tags_iff (tag ∷ tags) =
    let (f, g) =
      then_check_iff (length tag ≤ 50) ((0 < length tag) × All IsTag tags) _ _
        (check_that_iff _ _ "tag[%d] too long: max 50 characters, got %d"
          (at_most_iff 50 (length tag)))
        (then_check_iff (0 < length tag) (All IsTag tags) _ _
          (check_that_iff _ _ "tag[%d] is empty" (not_empty_iff tag)) (check_tags_iff tags)) in
    (λ h. (((f h).1.0, (f h).0), (f h).1.1), λ h. g (h.0.1, (h.0.0, h.1)))

wrap_iff : (note : String) (r : Result (Unit {0})) → Passes (wrap_result note r) ↔ Passes r
wrap_iff note (ok _) = (λ h. refl, λ h. refl)
wrap_iff note (err e) = (λ h. absurd (ground arith), λ h. absurd (ground arith))
wrap_iff note panic = (λ h. absurd (ground arith), λ h. absurd (ground arith))

unless_empty_iff :
    (A : Type 0) (b : Bytes) (r : Result (Unit {0}))
    → Passes r ↔ A
    → Passes (if is_empty b then ok tt else r) ↔ (b ≢ [] → A)
unless_empty_iff A [] r f = (λ h ne. absurd (ne refl), λ h. refl)
unless_empty_iff A (c ∷ cs) r f = (λ h ne. f.0 h, λ h. f.1 (h (λ e. cc)))

chain : {A B C : Type 0} → A ↔ B → B ↔ C → A ↔ C
chain f g = (λ h. g.0 (f.0 h), λ h. f.1 (g.1 h))

parsed_iff :
    (P : Url → Type 0) (url : Url) (r : Result (Unit {0}))
    → Passes r ↔ P url
    → Passes r ↔ ((x : Url) × (some url ≡ some x) × P x)
parsed_iff P url r f =
    (λ h. (url, refl, f.0 h), λ h. f.1 (subst P (sym (some-injective url h.0 h.1)) h.2))

module _ (url_parse : Bytes → Option Url) where
  -- A proxy URL has one of four schemes, in any case; a base URL is HTTPS.
  abbrev pub IsProxy : Bytes → Type 0
  IsProxy b =
      (url : Url) × (url_parse b ≡ some url) × (is_proxy_scheme (map to_lower url.scheme) ≡ true)

  abbrev pub IsHttps : Bytes → Type 0
  IsHttps b = (url : Url) × (url_parse b ≡ some url) × (url.scheme ≡ codes "https")

  IsProxy-iff : (b : Bytes) → Passes (validate_proxy_url url_parse b) ↔ IsProxy b
  unfolding validate_proxy_url
  IsProxy-iff b = elim (Option-cases (url_parse b)) [
    | inl e ↦ rw e (λ h. absurd (ground arith), λ h. absurd (ground (arith, h.1)))
    | inr (url, e) ↦ rw e (
        parsed_iff (λ u. is_proxy_scheme (map to_lower u.scheme) ≡ true) url _
          (check_that_iff _ _ "unsupported proxy scheme: %s" (λ h. h, λ h. h)))
  ]

  IsHttps-iff : (b : Bytes) → Passes (base_or_error url_parse (url_parse b)) ↔ IsHttps b
  IsHttps-iff b = elim (Option-cases (url_parse b)) [
    | inl e ↦ rw e (λ h. absurd (ground arith), λ h. absurd (ground (arith, h.1)))
    | inr (url, e) ↦ rw e (
        parsed_iff (λ u. u.scheme ≡ codes "https") url _
          (check_that_iff _ _ "custom_base_url must use HTTPS scheme, got: %s"
            (bytes_eq_iff url.scheme (codes "https"))))
  ]

  -- Metadata is accepted exactly if a proxy URL that is given has one of the four schemes, a base URL that
  -- is given is HTTPS, there are at most 10 tags, each of 1 to 50 bytes, and the notes have at most 500.
  pub validate_iff :
      (m : AccountMetadata)
      → (validate url_parse m ≡ ok tt) ↔ (
          (m.proxy_url ≢ [] → IsProxy m.proxy_url)
          × (m.custom_base_url ≢ [] → IsHttps m.custom_base_url)
          × (length m.tags ≤ 10)
          × All IsTag m.tags
          × (length m.notes ≤ 500))
  unfolding validate
  validate_iff m =
      let (f, g) =
        then_check_iff (m.proxy_url ≢ [] → IsProxy m.proxy_url) _ _ _
          (unless_empty_iff _ m.proxy_url _
            (chain (wrap_iff "invalid proxy_url" _) (IsProxy-iff m.proxy_url)))
          (then_check_iff (m.custom_base_url ≢ [] → IsHttps m.custom_base_url) _ _ _
            (unless_empty_iff _ m.custom_base_url _ (IsHttps-iff m.custom_base_url))
            (then_check_iff (length m.tags ≤ 10) _ _ _
              (check_that_iff _ _ "too many tags: max 10 allowed, got %d" (at_most_iff 10 _))
              (then_check_iff (All IsTag m.tags) (length m.notes ≤ 500) _ _ (check_tags_iff m.tags)
                (check_that_iff _ _ "notes too long: max 500 characters, got %d"
                  (at_most_iff 500 _))))) in
      (
        λ h. ((f h).0, (f h).1.0, (f h).1.1.0, (f h).1.1.1.0, (f h).1.1.1.1),
        λ h. g (h.0, (h.1, (h.2, (h.3, h.4)))),
      )

  -- Two proxy URLs that are read alike but for their passwords, which are not empty, are masked to the
  -- same text: nothing of the password is left.
  pub mask_proxy_password_same :
      (b b' : Bytes) (url : Url) (username : Bytes) (c c' : ℕ) (cs cs' : Bytes)
      → url_parse b
        ≡ some
            (record url { user = some (record { username = username; password = some (c ∷ cs) }) })
      → url_parse b'
        ≡ some (record url {
          user = some (record { username = username; password = some (c' ∷ cs') });
        })
      → mask_proxy_password url_parse b ≡ mask_proxy_password url_parse b'
  unfolding mask_proxy_password
  mask_proxy_password_same b b' url username c c' cs cs' e e' = rw (e, e') refl
