-- ===== src/Files/Disposition.antt =====
-- The Content-Disposition header of src/files.rs: what a client reads back, and what cannot get in.
use aardbin.Prelude.{
  All, All-append, Bool-cases, Bytes, IsBytes, IsText, Text, [], ap, arith, as_bytes,
  as_bytes-IsBytes, codes, if◌then◌else◌, inl, inr, leb, refl, ℕ, ◌%◌, ◌*◌, ◌++◌, ◌+◌, ◌-◌, ◌/◌,
  ◌<◌, ◌==◌, ◌||◌, ◌∙◌, ◌∷◌, ◌≡◌, ◌≢◌, ◌≤◌,
}
use aardbin.Files.{
  content_disposition, encode_byte, encode_bytes, fallback, fallback_char, fallback_chars,
  hex_digit, is_alnum, is_mark,
}

abbrev hex_value : ℕ → ℕ
hex_value c = if leb b'A' c then c - b'A' + 10 else c - b'0'

-- Percent decoding, as RFC 5987 has it: the next character is plain, or a digit of an escape.
data Place : Type 0 where
  ready high : Place
  low : ℕ → Place

decode_from : Place → Text → Bytes
decode_from p [] = []
decode_from ready (c ∷ s) =
    let escape = decode_from high s in
    let plain = decode_from ready s in if c == b'%' then escape else c ∷ plain
decode_from high (c ∷ s) = decode_from (low (hex_value c)) s
decode_from (low h) (c ∷ s) = (h * 16 + hex_value c) ∷ decode_from ready s

pub percent_decode : Text → Bytes
unfolding decode_from
percent_decode s = decode_from ready s

hex_value-hex_digit : (n : ℕ) → n < 16 → hex_value (hex_digit n) ≡ n
hex_value-hex_digit n h = ground arith

decode-escape :
    (b : ℕ) (s : Text)
    → b < 256
    → decode_from ready (b'%' ∷ hex_digit (b / 16) ∷ hex_digit (b % 16) ∷ s)
      ≡ b ∷ decode_from ready s
unfolding decode_from
decode-escape b s h =
    ap (λ (n : ℕ). n ∷ decode_from ready s)
      (omega (
        arith,
        hex_value-hex_digit (b / 16) (omega arith),
        hex_value-hex_digit (b % 16) (omega arith),
      ))

decode-plain : (b : ℕ) (s : Text) → b ≢ b'%' → decode_from ready (b ∷ s) ≡ b ∷ decode_from ready s
unfolding decode_from
decode-plain b s h = ground arith

decode-encode_byte :
    (b : ℕ) (s : Text) → b < 256 → decode_from ready (encode_byte b ++ s) ≡ b ∷ decode_from ready s
decode-encode_byte b s h = elim (Bool-cases (is_alnum b || is_mark b)) [
  | inl e ↦ unfold encode_byte in rw e (decode-plain b s (ground arith))
  | inr e ↦ elim (Bool-cases (b == b' ')) [
    | inl space ↦ unfold encode_byte decode_from in rw (e, space) (ground arith)
    | inr other ↦ unfold encode_byte in rw (e, other) (decode-escape b s h)
  ]
]

decode-encode_bytes : (bs : Bytes) → IsBytes bs → decode_from ready (encode_bytes bs) ≡ bs
unfolding encode_bytes
decode-encode_bytes [] h = unfold decode_from in refl
decode-encode_bytes (b ∷ bs) h =
    decode-encode_byte b (encode_bytes bs) h.0
    ∙ ap (λ (t : Bytes). b ∷ t) (decode-encode_bytes bs h.1)

-- The extended parameter `filename*` decodes to the bytes of the file name, for every text.
pub percent_decode-encode_bytes :
    (name : Text) → IsText name → percent_decode (encode_bytes (as_bytes name)) ≡ as_bytes name
unfolding percent_decode
percent_decode-encode_bytes name h = decode-encode_bytes (as_bytes name) (as_bytes-IsBytes name h)

-- Printable ASCII but the quote and the backslash.
abbrev pub IsQuotable : ℕ → Type 0
IsQuotable c = (32 ≤ c) × (c ≤ 126) × (c ≢ b'"') × (c ≢ 92)

fallback_char-IsQuotable : (c : ℕ) → IsQuotable (fallback_char c)
unfolding fallback_char
fallback_char-IsQuotable c = ground arith

fallback_chars-IsQuotable : (s : Text) → All IsQuotable (fallback_chars s)
unfolding fallback_chars
fallback_chars-IsQuotable [] = tt
fallback_chars-IsQuotable (c ∷ s) = (fallback_char-IsQuotable c, fallback_chars-IsQuotable s)

fallback-IsQuotable : (s : Text) → All IsQuotable (fallback s)
unfolding fallback
fallback-IsQuotable [] = omega arith
fallback-IsQuotable (c ∷ s) = fallback_chars-IsQuotable (c ∷ s)

encode_byte-IsQuotable : (b : ℕ) → b < 256 → All IsQuotable (encode_byte b)
encode_byte-IsQuotable b h = elim (Bool-cases (is_alnum b || is_mark b)) [
  | inl e ↦ unfold encode_byte in rw e (ground arith)
  | inr e ↦ elim (Bool-cases (b == b' ')) [
    | inl space ↦ unfold encode_byte in rw (e, space) (omega arith)
    | inr other ↦ unfold encode_byte in rw (e, other) (ground arith)
  ]
]

encode_bytes-IsQuotable : (bs : Bytes) → IsBytes bs → All IsQuotable (encode_bytes bs)
unfolding encode_bytes
encode_bytes-IsQuotable [] h = tt
encode_bytes-IsQuotable (b ∷ bs) h =
    All-append IsQuotable (encode_byte b) (encode_bytes bs) (encode_byte-IsQuotable b h.0)
      (encode_bytes-IsQuotable bs h.1)

-- Whatever the file name, the header is the kind, a quoted fallback and an encoded name; neither
-- part holds a quote, a backslash, a control character or a character outside ASCII, and the
-- encoded name decodes to the bytes of the file name.
pub content_disposition_safe :
    (kind name : Text)
    → IsText name
    → (quoted : Text) × (encoded : Text) × (content_disposition kind name
        ≡ kind
          ++ (codes "; filename="
              ++ b'"' ∷ (quoted ++ b'"' ∷ (codes "; filename*=UTF-8''" ++ encoded))))
      × All IsQuotable quoted
      × All IsQuotable encoded
      × (percent_decode encoded ≡ as_bytes name)
unfolding content_disposition
content_disposition_safe kind name h = (
  fallback name,
  encode_bytes (as_bytes name),
  refl,
  fallback-IsQuotable name,
  encode_bytes-IsQuotable (as_bytes name) (as_bytes-IsBytes name h),
  percent_decode-encode_bytes name h,
)
