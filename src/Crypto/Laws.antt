-- ===== src/Crypto/Laws.antt =====
-- What src/crypto.rs promises of its blobs, from what its crates document.
use mathlib.Core.Path.{ap₂, subst}
use aardbin.Prelude.{
  Bytes, List, Text, [], ap, arith, drop, false, length, length-append, ltb, refl, some, take, ℕ,
  ◌++◌, ◌+◌, ◌∙◌, ◌∷◌, ◌≡◌,
}
use aardbin.Crypto.{Cipher, aad, decrypt, decrypt_json, encrypt}

-- The documented behaviour of the crates: a sealed message opens under the same key, nonce and
-- associated data; the tag has sixteen bytes; JSON reads back what it wrote.
pub record CipherLaws (c : Cipher) : Type 0 where
  pub opens :
      (key nonce tag message : Bytes)
      → c.unseal key nonce tag (c.seal key nonce tag message) ≡ some message
  pub tagged :
      (key nonce tag message : Bytes) → length (c.seal key nonce tag message) ≡ length message + 16
  pub reads : (title content : Text) → c.from_json (c.to_json title content) ≡ some (title, content)

pub take-append {ℓ} : {A : Type ℓ} (xs ys : List A) → take (length xs) (xs ++ ys) ≡ xs
take-append [] ys = refl
take-append (x ∷ xs) ys = ap (λ t. x ∷ t) (take-append xs ys)

pub drop-append {ℓ} : {A : Type ℓ} (xs ys : List A) → drop (length xs) (xs ++ ys) ≡ ys
drop-append [] ys = refl
drop-append (x ∷ xs) ys = drop-append xs ys

take_of_length {ℓ} : {A : Type ℓ} (xs ys : List A) {n : ℕ} → length xs ≡ n → take n (xs ++ ys) ≡ xs
take_of_length xs ys h = subst (λ k. take k (xs ++ ys) ≡ xs) h (take-append xs ys)

drop_of_length {ℓ} : {A : Type ℓ} (xs ys : List A) {n : ℕ} → length xs ≡ n → drop n (xs ++ ys) ≡ ys
drop_of_length xs ys h = subst (λ k. drop k (xs ++ ys) ≡ ys) h (drop-append xs ys)

module _ (c : Cipher) (laws : CipherLaws c) (key : Bytes) where
  blob_long :
      (nonce : Bytes) (title content : Text)
      → length nonce ≡ 12
      → ltb (length (encrypt c key nonce title content)) (12 + 16) ≡ false
  unfolding encrypt
  blob_long nonce title content n =
      let sealed = c.seal key nonce aad (c.to_json title content) in
      ground
        (arith, length-append nonce sealed, laws.tagged key nonce aad (c.to_json title content))

  decrypt_parts :
      (nonce sealed : Bytes)
      → length nonce ≡ 12
      → ltb (length (nonce ++ sealed)) (12 + 16) ≡ false
      → decrypt c key (nonce ++ sealed) ≡ decrypt_json c key (c.unseal key nonce aad sealed)
  unfolding decrypt
  decrypt_parts nonce sealed n long = rw long (
      ap₂ (λ (a b : Bytes). decrypt_json c key (c.unseal key a aad b))
        (take_of_length nonce sealed n) (drop_of_length nonce sealed n))

  -- With a cipher that opens what it seals and a nonce of twelve bytes, what was encrypted is
  -- decrypted again.
  pub decrypt-encrypt :
      (nonce : Bytes) (title content : Text)
      → length nonce ≡ 12
      → decrypt c key (encrypt c key nonce title content) ≡ some (title, content)
  decrypt-encrypt nonce title content n =
      let sealed = c.seal key nonce aad (c.to_json title content) in
      unfold encrypt in
      decrypt_parts nonce sealed n (blob_long nonce title content n)
      ∙ ap (decrypt_json c key) (laws.opens key nonce aad (c.to_json title content))
      ∙ unfold decrypt_json in laws.reads title content
