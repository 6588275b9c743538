-- ===== src/Crypto.antt =====
-- pkg/crypto/aes.go: AES-256-GCM with a random nonce in front of the ciphertext, as Base64.
pub mod Laws
use quota_lane.Prelude.{
  ℕ, Bytes, Option, none, some, List, [], ◌∷◌, ◌++◌, ltb, ◌==◌, length, take, drop, if◌then◌else◌,
}
use quota_lane.Prelude.Effect.{
  Error, message, wrapped, backend, Result, ok, err, panic, M, pure, fail, panics, ◌>>=◌, wrap,
}

-- `crypto/aes`, `crypto/cipher`, `crypto/rand` and `encoding/base64`. `new_gcm` is `aes.NewCipher` and
-- `cipher.NewGCM` after it, whose errors the code wraps with texts of their own.
pub record Library (C S : Type 0) : Type 0 where
  pub new_cipher : Bytes → Option C
  pub new_gcm : C → Option C
  pub nonce_size : C → ℕ
  pub seal : C → (nonce plaintext : Bytes) → Bytes
  -- `gcm.Open`, `none` when the tag does not fit
  pub open_sealed : C → (nonce sealed : Bytes) → Option Bytes
  -- `io.ReadFull(rand.Reader, nonce)`
  pub random : ℕ → M S Bytes
  pub encode_base64 : Bytes → Bytes
  pub decode_base64 : Bytes → Option Bytes

-- `AESCrypto`
pub record AesCrypto : Type 0 where
  pub key : Bytes

abbrev pub err_invalid_key_size : Error
err_invalid_key_size = message "encryption key must be 32 bytes (256 bits)"

abbrev pub err_invalid_ciphertext : Error
err_invalid_ciphertext = message "invalid ciphertext: too short or malformed"

abbrev pub err_decryption_failed : Error
err_decryption_failed = message "decryption failed: authentication failed"

-- `NewAESCrypto`
unfoldable pub new_aes_crypto : Bytes → Result AesCrypto
new_aes_crypto key =
    if length key == 32
    then ok (record { key = key })
    else err (wrapped "got %d bytes" err_invalid_key_size)

module _ {C S : Type 0} (lib : Library C S) where
  abbrev pub with_gcm : {A : Type 0} → Option C → (C → M S A) → M S A
  with_gcm none f = fail (wrapped "failed to create GCM" (backend "cipher"))
  with_gcm (some gcm) f = f gcm

  abbrev pub with_block : {A : Type 0} → Option C → (C → M S A) → M S A
  with_block none f = fail (wrapped "failed to create AES cipher" (backend "aes"))
  with_block (some block) f = with_gcm (lib.new_gcm block) f

  abbrev pub seal_with : Bytes → C → M S Bytes
  seal_with plaintext gcm = do
    nonce ← wrap "failed to generate nonce" (lib.random (lib.nonce_size gcm))
    pure (lib.encode_base64 (nonce ++ lib.seal gcm nonce plaintext))

  -- `Encrypt`
  unfoldable pub encrypt : AesCrypto → Bytes → M S Bytes
  encrypt aes [] = pure []
  encrypt aes (c ∷ cs) = with_block (lib.new_cipher aes.key) (seal_with (c ∷ cs))

  abbrev pub opened : Option Bytes → M S Bytes
  opened none = fail (wrapped "gcm" err_decryption_failed)
  opened (some plaintext) = pure plaintext

  abbrev pub open_with : Bytes → C → M S Bytes
  open_with decoded gcm =
      let size = lib.nonce_size gcm in
      if ltb (length decoded) size
      then fail err_invalid_ciphertext
      else opened (lib.open_sealed gcm (take size decoded) (drop size decoded))

  abbrev pub decrypt_decoded : AesCrypto → Option Bytes → M S Bytes
  decrypt_decoded aes none = fail (wrapped "failed to decode base64" (backend "base64"))
  decrypt_decoded aes (some decoded) = with_block (lib.new_cipher aes.key) (open_with decoded)

  -- `Decrypt`
  unfoldable pub decrypt : AesCrypto → Bytes → M S Bytes
  decrypt aes [] = pure []
  decrypt aes (c ∷ cs) = decrypt_decoded aes (lib.decode_base64 (c ∷ cs))
