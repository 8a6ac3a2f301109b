-- ===== src/Crypto/Tests.antt =====
-- The round trip of src/crypto.rs at a concrete cipher.
use aardbin.Prelude.{[], codes, none, refl, some, ◌≡◌}
use aardbin.Crypto.{decrypt, encrypt}
use aardbin.Crypto.Laws.{decrypt-encrypt}
use aardbin.Fixtures.{clear_cipher, clear_cipher-CipherLaws, twelve}

decrypt-encrypt_example :
    decrypt clear_cipher [] (encrypt clear_cipher [] twelve (codes "t") (codes "body"))
    ≡ some (codes "t", codes "body")
decrypt-encrypt_example =
    decrypt-encrypt clear_cipher clear_cipher-CipherLaws [] twelve (codes "t") (codes "body") refl

truncated_fails : decrypt clear_cipher [] twelve ≡ none
unfolding decrypt
truncated_fails = refl
