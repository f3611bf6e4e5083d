-- ===== src/Secret.antt =====
-- `CryptoService.decrypt` of runner/src/services/secret/crypto-service.ts. A buffer is a list of bytes.
-- The decoding of hexadecimal digits, the hash and the cipher AES-256-GCM, which throws (`none`) on a
-- wrong tag, are parameters.
mod Laws
mod Tests
use supallm.Common.{
  ℕ, zero, suc, ◌+◌, ◌-◌, String, Option, none, some, List, [], ◌∷◌, Result, ok, error, ◌==◌,
  if◌then◌else◌, ltb, nat_eq, length,
}

pub data CryptoError : Type 0 where
  text_required too_short decryption_failed : CryptoError

unfoldable pub take : ℕ → List ℕ → List ℕ
take n [] = []
take zero (b ∷ bs) = []
take (suc n) (b ∷ bs) = b ∷ take n bs

unfoldable pub drop : ℕ → List ℕ → List ℕ
drop n [] = []
drop zero (b ∷ bs) = b ∷ bs
drop (suc n) (b ∷ bs) = drop n bs

-- `buffer.subarray(start, end)`
unfoldable pub subarray : ℕ → ℕ → List ℕ → List ℕ
unfolding take drop
subarray start stop buffer = take (stop - start) (drop start buffer)

abbrev pub nonce_size : ℕ
nonce_size = 12

abbrev pub auth_tag_size : ℕ
auth_tag_size = 16

unfoldable pub derive_key : (List ℕ → List ℕ) → List ℕ → List ℕ
derive_key sha256 key = if nat_eq (length key) 32 then key else sha256 key

-- `decipher`: by key, nonce, text and tag
unfoldable pub decrypt :
    (String → List ℕ)
    → (List ℕ → List ℕ)
    → (List ℕ → List ℕ → List ℕ → List ℕ → Option String)
    → List ℕ
    → String
    → Result String CryptoError
unfolding subarray derive_key
decrypt from_hex sha256 decipher env_key encrypted_text =
    let ciphertext = from_hex encrypted_text in
    let size = length ciphertext in
    if encrypted_text == ""
    then error text_required
    else if ltb size (nonce_size + auth_tag_size)
    then error too_short
    else elim (decipher (derive_key sha256 env_key) (subarray 0 nonce_size ciphertext)
        (subarray nonce_size (size - auth_tag_size) ciphertext)
        (subarray (size - auth_tag_size) size ciphertext)) [
          | none ↦ error decryption_failed
          | some plaintext ↦ ok plaintext
        ]
