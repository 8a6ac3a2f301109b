-- ===== src/Crypto.antt =====
-- src/crypto.rs: the blob of a record, nonce || ciphertext || tag. AES-256-GCM and the JSON of the
-- plaintext are other crates' (`aes-gcm`, `serde_json`): parameters of the model.
pub mod Laws
mod Tests
use aardbin.Prelude.{
  Bytes, Option, Text, as_bytes, codes, drop, if◌then◌else◌, length, ltb, none, some, take, ◌++◌,
  ◌+◌,
}

pub record Cipher : Type 0 where
  -- key, nonce, associated data, message
  pub seal : Bytes → Bytes → Bytes → Bytes → Bytes
  pub unseal : Bytes → Bytes → Bytes → Bytes → Option Bytes
  -- the object with the fields `title` and `content`
  pub to_json : Text → Text → Bytes
  pub from_json : Bytes → Option (Text × Text)

abbrev pub aad : Bytes
aad = as_bytes (codes "aardbin-record-v1")

module _ (c : Cipher) (key : Bytes) where
  -- The nonce is what the random source gives.
  unfoldable pub encrypt : Bytes → Text → Text → Bytes
  encrypt nonce title content = nonce ++ c.seal key nonce aad (c.to_json title content)

  decrypt_json : Option Bytes → Option (Text × Text)
  decrypt_json none = none
  decrypt_json (some json) = c.from_json json

  -- `none` is `DecryptError`.
  unfoldable pub decrypt : Bytes → Option (Text × Text)
  unfolding decrypt_json
  decrypt blob =
      if ltb (length blob) (12 + 16)
      then none
      else decrypt_json (c.unseal key (take 12 blob) aad (drop 12 blob))
