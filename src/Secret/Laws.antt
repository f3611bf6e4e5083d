-- ===== src/Secret/Laws.antt =====
-- The layout of an encrypted text.
use supallm.Common.{
  ℕ, ◌+◌, ◌-◌, String, false, Option, some, List, [], ◌∷◌, ◌++◌, ok, ◌≡◌, refl, ap, ◌∙◌, ◌==◌,
  arith, length, length-append, sym, ltb,
}
use mathlib.Core.List.{append_assoc, append-nil}
use mathlib.Core.Path.{subst}
use supallm.Secret.{take, drop, subarray, derive_key, decrypt}

take-append : (xs ys : List ℕ) → take (length xs) (xs ++ ys) ≡ xs
unfolding take
take-append [] [] = refl
take-append [] (y ∷ ys) = refl
take-append (x ∷ xs) ys = ap (λ l. x ∷ l) (take-append xs ys)

drop-append : (xs ys : List ℕ) → drop (length xs) (xs ++ ys) ≡ ys
unfolding drop
drop-append [] [] = refl
drop-append [] (y ∷ ys) = refl
drop-append (x ∷ xs) ys = drop-append xs ys

-- The part between two others.
subarray-append :
    (xs ys zs : List ℕ) (start stop : ℕ)
    → start ≡ length xs
    → stop ≡ length xs + length ys
    → subarray start stop (xs ++ (ys ++ zs)) ≡ ys
unfolding subarray
subarray-append xs ys zs start stop e f =
    let n : (length xs + length ys) - length xs ≡ length ys = omega arith in
    rw (e, f, n, drop-append xs (ys ++ zs)) (take-append ys zs)

-- A text that is made of a nonce of 12 bytes, the enciphered bytes and a tag of 16 bytes is taken apart
-- into these three, and what the cipher makes of them is the result.
pub decrypt-append :
    (from_hex : String → List ℕ) (sha256 : List ℕ → List ℕ)
    (decipher : List ℕ → List ℕ → List ℕ → List ℕ → Option String) (env_key : List ℕ)
    (encrypted_text plaintext : String) (nonce text tag : List ℕ)
    → (encrypted_text == "") ≡ false
    → from_hex encrypted_text ≡ nonce ++ (text ++ tag)
    → length nonce ≡ 12
    → length tag ≡ 16
    → decipher (derive_key sha256 env_key) nonce text tag ≡ some plaintext
    → decrypt from_hex sha256 decipher env_key encrypted_text ≡ ok plaintext
unfolding decrypt
decrypt-append from_hex sha256 decipher env_key encrypted_text plaintext nonce text tag full made n
      t h =
    let all : length (nonce ++ (text ++ tag)) ≡ 28 + length text =
      omega (arith, n, t, length-append nonce (text ++ tag), length-append text tag) in
    let a : subarray 0 12 (nonce ++ (text ++ tag)) ≡ nonce =
      subarray-append [] nonce (text ++ tag) 0 12 refl (omega (arith, n)) in
    let b : subarray 12 ((28 + length text) - 16) (nonce ++ (text ++ tag)) ≡ text =
      subarray-append nonce text tag 12 ((28 + length text) - 16) (omega (arith, n))
        (omega (arith, n)) in
    let regrouped : nonce ++ (text ++ tag) ≡ (nonce ++ text) ++ (tag ++ []) =
      sym (append_assoc nonce text tag) ∙ ap (λ l. (nonce ++ text) ++ l) (sym (append-nil tag)) in
    let c : subarray ((28 + length text) - 16) (28 + length text) (nonce ++ (text ++ tag)) ≡ tag =
      subst (λ l. subarray ((28 + length text) - 16) (28 + length text) l ≡ tag) (sym regrouped)
        (subarray-append (nonce ++ text) tag [] ((28 + length text) - 16) (28 + length text)
          (omega (arith, n, length-append nonce text))
          (omega (arith, n, t, length-append nonce text))) in
    let long : ltb (28 + length text) 28 ≡ false = ground arith in
    rw (decrypt, full, made, all, long, a, b, c, h)
