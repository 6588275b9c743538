-- ===== src/Crypto/Laws.antt =====
-- pkg/crypto/aes.go: what is encrypted is decrypted.
use quota_lane.Prelude.{
  ℕ, zero, suc, ◌≡◌, ◌≢◌, refl, sym, ap, ◌∙◌, Bytes, some, [], ◌∷◌, ◌++◌, ltb, false, length, take,
  drop, length-append, arith,
}
use quota_lane.Prelude.Effect.{ok, wrap}
use quota_lane.Crypto.{
  Library, AesCrypto, new_aes_crypto, encrypt, decrypt, open_with, decrypt_decoded,
}

module _ {C S : Type 0} (lib : Library C S) where
  -- The documented behaviour: a key of 32 bytes is accepted, sealing is undone by opening with the same
  -- nonce, Base64 is undone by decoding and gives no empty text, and a read fills the buffer.
  pub record IsCipher : Type 0 where
    pub new_ok :
        (key : Bytes)
        → length key ≡ 32
        → (block : C) × (gcm : C) × (lib.new_cipher key ≡ some block)
          × (lib.new_gcm block ≡ some gcm)
    pub open-seal :
        (gcm : C) (nonce plaintext : Bytes)
        → lib.open_sealed gcm nonce (lib.seal gcm nonce plaintext) ≡ some plaintext
    pub random_ok :
        (n : ℕ) (s s' : S) (nonce : Bytes) → lib.random n s ≡ (ok nonce, s') → length nonce ≡ n
    pub decode-encode : (b : Bytes) → lib.decode_base64 (lib.encode_base64 b) ≡ some b
    pub encode_empty : (b : Bytes) → lib.encode_base64 b ≡ [] → b ≡ []
    pub nonce_size_pos : (gcm : C) → lib.nonce_size gcm ≢ 0

append_empty : (xs ys : Bytes) → xs ++ ys ≡ [] → length xs ≡ 0
append_empty [] ys h = refl
append_empty (x ∷ xs) ys h = absurd (ground arith)

take-append : (n : ℕ) (xs ys : Bytes) → length xs ≡ n → take n (xs ++ ys) ≡ xs
take-append zero [] ys h = refl
take-append zero (x ∷ xs) ys h = absurd (ground arith)
take-append (suc n) [] ys h = absurd (ground arith)
take-append (suc n) (x ∷ xs) ys h = ap (λ t. x ∷ t) (take-append n xs ys (omega arith))

drop-append : (n : ℕ) (xs ys : Bytes) → length xs ≡ n → drop n (xs ++ ys) ≡ ys
drop-append zero [] ys h = refl
drop-append zero (x ∷ xs) ys h = absurd (ground arith)
drop-append (suc n) [] ys h = absurd (ground arith)
drop-append (suc n) (x ∷ xs) ys h = drop-append n xs ys (omega arith)

not_short : (n : ℕ) (xs ys : Bytes) → length xs ≡ n → ltb (length (xs ++ ys)) n ≡ false
not_short n xs ys h = ground (arith, length-append xs ys)

module _ {C S : Type 0} (lib : Library C S) (law : IsCipher lib) where
  -- What stands behind the Base64 text is opened.
  open_lem :
      (gcm : C) (nonce plaintext : Bytes) (s : S)
      → length nonce ≡ lib.nonce_size gcm
      → open_with lib (nonce ++ lib.seal gcm nonce plaintext) gcm s ≡ (ok plaintext, s)
  open_lem gcm nonce plaintext s h =
      rw
        (
          not_short (lib.nonce_size gcm) nonce (lib.seal gcm nonce plaintext) h,
          take-append (lib.nonce_size gcm) nonce (lib.seal gcm nonce plaintext) h,
          drop-append (lib.nonce_size gcm) nonce (lib.seal gcm nonce plaintext) h,
          law.open-seal gcm nonce plaintext,
        )
        refl

  decrypt_empty : (aes : AesCrypto) (s : S) → decrypt lib aes [] s ≡ (ok [], s)
  unfolding decrypt
  decrypt_empty aes s = refl

  decrypt_text :
      (aes : AesCrypto) (b t : Bytes) (s : S)
      → t ≢ []
      → lib.decode_base64 t ≡ some b
      → decrypt lib aes t s ≡ decrypt_decoded lib aes (some b) s
  unfolding decrypt
  decrypt_text aes b [] s ne h = absurd (ne refl)
  decrypt_text aes b (c ∷ cs) s ne h = rw h refl

  key_length : (key : Bytes) (aes : AesCrypto) → new_aes_crypto key ≡ ok aes → length aes.key ≡ 32
  unfolding new_aes_crypto
  key_length key aes h = ground arith

  -- With a key that `new_aes_crypto` accepts and a random source that answers, `encrypt` succeeds on every
  -- text, and `decrypt` takes its result back to the text.
  pub decrypt-encrypt :
      (key : Bytes) (aes : AesCrypto) (plaintext : Bytes) (s : S)
      → new_aes_crypto key ≡ ok aes
      → ((n : ℕ) (u : S) → (nonce : Bytes) × (lib.random n u ≡ (ok nonce, (lib.random n u).1)))
      → (t : Bytes) × ((encrypt lib aes plaintext s).0 ≡ ok t)
        × ((u : S) → decrypt lib aes t u ≡ (ok plaintext, u))
  unfolding encrypt wrap
  decrypt-encrypt key aes [] s h up = ([], refl, λ u. decrypt_empty aes u)
  decrypt-encrypt key aes (c ∷ cs) s h up =
      let (block, gcm, e, f) = law.new_ok aes.key (key_length key aes h) in
      let (nonce, r) = up (lib.nonce_size gcm) s in
      let b = nonce ++ lib.seal gcm nonce (c ∷ cs) in
      let size = law.random_ok (lib.nonce_size gcm) s _ nonce r in
      (
        lib.encode_base64 b,
        rw (e, f, r) refl,
        λ u.
            decrypt_text aes b (lib.encode_base64 b) u
              (λ q. law.nonce_size_pos gcm (sym size ∙ append_empty nonce _ (law.encode_empty b q)))
              (law.decode-encode b)
            ∙ rw (e, f) (open_lem gcm nonce (c ∷ cs) u size),
      )
