-- ===== src/Account/Usecase/Create.antt =====
-- internal/biz/account.go: what `CreateAccount` stores and shows.
use quota_lane.Prelude.{
  ℕ, ◌≡◌, subst, refl, sym, ap, ◌∙◌, Bytes, Bool, true, Option, [], ◌∷◌, arith, inl, inr,
  Bool-cases,
}
use quota_lane.Prelude.Int.{pos}
use quota_lane.Prelude.Effect.{Result, ok, pure, ◌>>=◌, wrap, attempt, Result-cases}
use quota_lane.Account.{Account, active}
use quota_lane.Account.Proto.{ProtoAccount, validate_metadata_json, masked_proto}
use quota_lane.Account.Repo.{AccountRepo}
use quota_lane.Account.Usecase.{
  CreateAccountRequest, is_supported_provider, new_account, lift, encrypt_credentials, with_api_key,
  with_oauth_data, optional_metadata, create_account,
}
use quota_lane.Cache.{Codec}
use quota_lane.Crypto.{Library, AesCrypto, new_aes_crypto, encrypt, decrypt}
use quota_lane.Crypto.Laws.{IsCipher, decrypt-encrypt}
use quota_lane.Metadata.{AccountMetadata, Url}

module _ {C S : Type 0} (repo : AccountRepo S) (lib : Library C S) (aes : AesCrypto)
    (codec : Codec AccountMetadata) (url_parse : Bytes → Option Url) (is_json : Bytes → Bool)
    (law : IsCipher lib) (key : Bytes) (accepted : new_aes_crypto key ≡ ok aes)
    (up : (n : ℕ) (u : S)
      → (nonce : Bytes) × (lib.random n u ≡ (ok nonce, (lib.random n u).1))) where
  -- The text `t` is read back as `plaintext`.
  abbrev Hides : Bytes → Bytes → Type 0
  Hides t plaintext = (u : S) → decrypt lib aes t u ≡ (ok plaintext, u)

  same_value :
      {A T : Type 0} (a b : A) (s s' : T) → ◌≡◌ {A = Result A × T} (ok a, s) (ok b, s') → a ≡ b
  same_value a b s s' h = cc

  same_state :
      {A T : Type 0} (a b : A) (s s' : T) → ◌≡◌ {A = Result A × T} (ok a, s) (ok b, s') → s ≡ s'
  same_state a b s s' h = ap (λ r. r.1) h

  with_state :
      (plaintext t : Bytes) (s : S)
      → (encrypt lib aes plaintext s).0 ≡ ok t
      → encrypt lib aes plaintext s ≡ (ok t, (encrypt lib aes plaintext s).1)
  with_state plaintext t s e i = (e i, (encrypt lib aes plaintext s).1)

  encrypt_Hides :
      (plaintext t : Bytes) (s s' : S)
      → encrypt_credentials repo lib aes codec url_parse is_json plaintext s ≡ (ok t, s')
      → Hides t plaintext
  unfolding encrypt_credentials attempt
  encrypt_Hides plaintext t s s' h =
      let (t', e, hides) = decrypt-encrypt lib law key aes plaintext s accepted up in
      subst (λ x. Hides x plaintext)
        (same_value t' t (encrypt lib aes plaintext s).1 s' (rw (with_state plaintext t' s e) at h))
        hides

  empty_Hides : Hides [] []
  unfolding decrypt
  empty_Hides u = refl

  -- The API key hides the text, and status, score and OAuth data stay; and the other way round.
  abbrev KeyHides : Bytes → Account → Account → Type 0
  KeyHides text x y =
      Hides y.api_key_encrypted text
      × (y.oauth_data_encrypted ≡ x.oauth_data_encrypted)
      × (y.status ≡ x.status)
      × (y.health_score ≡ x.health_score)

  abbrev DataHides : Bytes → Account → Account → Type 0
  DataHides text x y =
      Hides y.oauth_data_encrypted text
      × (y.api_key_encrypted ≡ x.api_key_encrypted)
      × (y.status ≡ x.status)
      × (y.health_score ≡ x.health_score)

  api_key_Hides :
      (text : Bytes) (x y : Account) (s s' : S)
      → x.api_key_encrypted ≡ []
      → with_api_key repo lib aes codec url_parse is_json text x s ≡ (ok y, s')
      → KeyHides text x y
  api_key_Hides [] x y s s' e h =
      subst (λ z. KeyHides [] x z) (same_value x y s s' h) (rw e empty_Hides, refl, refl, refl)
  api_key_Hides (c ∷ cs) x y s s' e h =
      elim (Result-cases (encrypt_credentials repo lib aes codec url_parse is_json (c ∷ cs) s)) [
        | inl (t, q) ↦
            subst (λ z. KeyHides (c ∷ cs) x z)
              (same_value (record x { api_key_encrypted = t }) y _ s' (rw q at h))
              (encrypt_Hides (c ∷ cs) t s _ q, refl, refl, refl)
        | inr (inl (g, q)) ↦ absurd (ground (arith, rw q at h))
        | inr (inr q) ↦ absurd (ground (arith, rw q at h))
      ]

  oauth_data_Hides :
      (text : Bytes) (x y : Account) (s s' : S)
      → x.oauth_data_encrypted ≡ []
      → with_oauth_data repo lib aes codec url_parse is_json text x s ≡ (ok y, s')
      → DataHides text x y
  unfolding wrap
  oauth_data_Hides [] x y s s' e h =
      subst (λ z. DataHides [] x z) (same_value x y s s' h) (rw e empty_Hides, refl, refl, refl)
  oauth_data_Hides (c ∷ cs) x y s s' e h =
      elim (Result-cases (lift (validate_metadata_json is_json (c ∷ cs)) s)) [
        | inl (_, p) ↦
            elim (Result-cases
              (encrypt_credentials repo lib aes codec url_parse is_json (c ∷ cs) s)) [
                | inl (t, q) ↦
                    subst (λ z. DataHides (c ∷ cs) x z)
                      (same_value (record x { oauth_data_encrypted = t }) y _ s'
                        (rw (ap (λ r. r.0) p, q) at h))
                      (encrypt_Hides (c ∷ cs) t s _ q, refl, refl, refl)
                | inr (inl (g, q)) ↦ absurd (ground (arith, rw (ap (λ r. r.0) p, q) at h))
                | inr (inr q) ↦ absurd (ground (arith, rw (ap (λ r. r.0) p, q) at h))
              ]
        | inr (inl (g, p)) ↦ absurd (ground (arith, rw (ap (λ r. r.0) p) at h))
        | inr (inr p) ↦ absurd (ground (arith, rw (ap (λ r. r.0) p) at h))
      ]

  -- What is stored for a request, and what is shown of it.
  abbrev pub Stored : CreateAccountRequest → ProtoAccount → S → Type 0
  Stored req shown s' =
      (x : Account) × (y : Account) × (u : S) × (repo.create_account x u ≡ (ok y, s'))
      × (shown ≡ masked_proto codec url_parse y)
      × (x.status ≡ active)
      × (x.health_score ≡ pos 100)
      × Hides x.api_key_encrypted req.api_key
      × Hides x.oauth_data_encrypted req.oauth_data

  abbrev Fresh : Account → Type 0
  Fresh x =
      (x.api_key_encrypted ≡ [])
      × (x.oauth_data_encrypted ≡ [])
      × (x.status ≡ active)
      × (x.health_score ≡ pos 100)

  base-Fresh :
      (req : CreateAccountRequest) (metadata : Option Bytes) → Fresh (new_account req metadata)
  unfolding new_account
  base-Fresh req metadata = (refl, refl, refl, refl)

  stored_lem :
      (req : CreateAccountRequest) (base : Account) (shown : ProtoAccount) (s s' : S)
      → Fresh base
      → (with_api_key repo lib aes codec url_parse is_json req.api_key base >>= λ with_key.
            with_oauth_data repo lib aes codec url_parse is_json req.oauth_data with_key
            >>= λ account.
                wrap "failed to create account" (repo.create_account account) >>= λ created.
                pure (masked_proto codec url_parse created))
          s
        ≡ (ok shown, s')
      → Stored req shown s'
  unfolding wrap
  stored_lem req base shown s s' (e1, e2, e3, e4) h =
      elim (Result-cases (with_api_key repo lib aes codec url_parse is_json req.api_key base s)) [
        | inr (inl (g, p)) ↦ absurd (ground (arith, rw p at h))
        | inr (inr p) ↦ absurd (ground (arith, rw p at h))
        | inl (k, p) ↦
            let u = (with_api_key repo lib aes codec url_parse is_json req.api_key base s).1 in
            let (hk, o, st, sc) = api_key_Hides req.api_key base k s u e1 p in
            elim (Result-cases
              (with_oauth_data repo lib aes codec url_parse is_json req.oauth_data k u)) [
                | inr (inl (g, q)) ↦ absurd (ground (arith, rw (p, q) at h))
                | inr (inr q) ↦ absurd (ground (arith, rw (p, q) at h))
                | inl (x, q) ↦
                    let u' =
                      (with_oauth_data repo lib aes codec url_parse is_json req.oauth_data k u).1 in
                    let (hx, a, st', sc') = oauth_data_Hides req.oauth_data k x u u' (o ∙ e2) q in
                    elim (Result-cases (repo.create_account x u')) [
                      | inr (inl (g, r)) ↦ absurd (ground (arith, rw (p, q, r) at h))
                      | inr (inr r) ↦ absurd (ground (arith, rw (p, q, r) at h))
                      | inl (y, r) ↦
                          let last = rw (p, q, r) at h in
                          (
                            x,
                            y,
                            u',
                            r ∙ ap (λ z. (ok y, z)) (same_state _ _ _ _ last),
                            sym (same_value (masked_proto codec url_parse y) shown _ s' last),
                            st' ∙ (st ∙ e3),
                            sc' ∙ (sc ∙ e4),
                            subst (λ b. Hides b req.api_key) (sym a) hk,
                            hx,
                          )
                    ]
              ]
      ]

  -- An account that `create_account` returns is a supported one; the row that it hands to the repository is
  -- active, has 100 points, and holds the API key and the OAuth data of the request encrypted; the answer is
  -- the masked form of the row that the repository returned. The random source answers.
  pub create_account_lem :
      (req : CreateAccountRequest) (shown : ProtoAccount) (s s' : S)
      → create_account repo lib aes codec url_parse is_json req s ≡ (ok shown, s')
      → (is_supported_provider req.provider ≡ true) × Stored req shown s'
  unfolding create_account wrap
  create_account_lem req shown s s' h = elim (Bool-cases (is_supported_provider req.provider)) [
    | inr n ↦ absurd (ground (arith, rw n at h))
    | inl supported ↦
        elim (Result-cases
          (optional_metadata repo lib aes codec url_parse is_json req.metadata s)) [
            | inr (inl (g, p)) ↦ absurd (ground (arith, rw (supported, p) at h))
            | inr (inr p) ↦ absurd (ground (arith, rw (supported, p) at h))
            | inl (metadata, p) ↦ (
              supported,
              stored_lem req (new_account req metadata) shown _ s' (base-Fresh req metadata)
                  (rw (supported, p) at h),
            )
          ]
  ]
