-- ===== src/Prelude/Utf8.antt =====
-- UTF-8: the bytes of a text (`as_bytes`), and their number (`len`).
use Prim.Native.Nat.{ℕ, ◌+◌, ◌/◌, ◌%◌, ◌≤◌, ◌<◌}
use mathlib.Core.List.{List, [], ◌∷◌, ◌++◌}
use native.Mathlib.Omega.{arith}
use aardbin.Prelude.Tests.{ltb, if◌then◌else◌}
use aardbin.Prelude.Lists.{length, length-append, All, All-append}
use aardbin.Prelude.Str.{Text}

abbrev pub Bytes : Type 0
Bytes = List ℕ

unfoldable pub utf8_char : ℕ → Bytes
utf8_char c =
    if ltb c 0x80
    then c ∷ []
    else if ltb c 0x800
    then (0xc0 + c / 64) ∷ (0x80 + c % 64) ∷ []
    else if ltb c 0x10000
    then (0xe0 + c / 4096) ∷ (0x80 + c / 64 % 64) ∷ (0x80 + c % 64) ∷ []
    else (0xf0 + c / 262144) ∷ (0x80 + c / 4096 % 64) ∷ (0x80 + c / 64 % 64) ∷ (0x80 + c % 64) ∷ []

unfoldable pub as_bytes : Text → Bytes
as_bytes [] = []
as_bytes (c ∷ s) = utf8_char c ++ as_bytes s

-- A `char` is below 0x110000.
abbrev pub IsText : Text → Type 0
IsText = All (λ c. c < 0x110000)

abbrev pub IsBytes : Bytes → Type 0
IsBytes = All (λ b. b < 256)

utf8_char-IsBytes : (c : ℕ) → c < 0x110000 → IsBytes (utf8_char c)
unfolding utf8_char
utf8_char-IsBytes c h = ground arith

pub as_bytes-IsBytes : (s : Text) → IsText s → IsBytes (as_bytes s)
unfolding as_bytes
as_bytes-IsBytes [] h = tt
as_bytes-IsBytes (c ∷ s) h =
    All-append (λ b. b < 256) (utf8_char c) (as_bytes s) (utf8_char-IsBytes c h.0)
      (as_bytes-IsBytes s h.1)

utf8_char-length : (c : ℕ) → 1 ≤ length (utf8_char c)
unfolding utf8_char
utf8_char-length c = ground arith

-- A text has no more characters than bytes.
pub length-le-as_bytes : (s : Text) → length s ≤ length (as_bytes s)
unfolding as_bytes
length-le-as_bytes [] = omega arith
length-le-as_bytes (c ∷ s) =
    omega
      (arith, length-append (utf8_char c) (as_bytes s), utf8_char-length c, length-le-as_bytes s)
