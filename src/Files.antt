-- ===== src/Files.antt =====
-- src/files.rs: the attachment store (two directories) and the texts made for a download.
pub mod Disposition
mod Tests
use aardbin.Prelude.{
  Bool, Bytes, List, Option, Text, [], as_bytes, codes, if◌then◌else◌, is_digit, leb, ltb, none,
  one_of, some, ℕ, ℤ, pos, negsuc, suc, ◌%◌, ◌&&◌, ◌*◌, ◌++◌, ◌+◌, ◌-◌, ◌/◌, ◌==◌, ◌||◌, ◌∷◌,
}
use aardbin.Prelude.Decimal.{show_u64}
use aardbin.Prelude.Dict.{Dict, find, put, remove}

-- `data/tmp` and `data/attachments`: the bytes of each file by its name.
pub record Disk : Type 0 where
  pub tmp : Dict Bytes
  pub stored : Dict Bytes

-- `File::create` in `tmp`
unfoldable pub create_tmp : Text → Disk → Disk
create_tmp id d = record d { tmp = put id [] d.tmp }

abbrev pub bytes_or_empty : Option Bytes → Bytes
bytes_or_empty none = []
bytes_or_empty (some b) = b

-- `write_all` on the open temp file
unfoldable pub append_tmp : Text → Bytes → Disk → Disk
append_tmp id chunk d = record d { tmp = put id (bytes_or_empty (find id d.tmp) ++ chunk) d.tmp }

-- `rename` from `tmp` to `attachments`
unfoldable pub rename_tmp : Text → Disk → Disk
rename_tmp id d = elim (find id d.tmp) [
  | none ↦ d
  | some content ↦ record { tmp = remove id d.tmp; stored = put id content d.stored }
]

unfoldable pub remove_tmp : Text → Disk → Disk
remove_tmp id d = record d { tmp = remove id d.tmp }

unfoldable pub remove_stored : Text → Disk → Disk
remove_stored id d = record d { stored = remove id d.stored }

abbrev pub is_alnum : ℕ → Bool
is_alnum c = leb b'a' c && leb c b'z' || (leb b'A' c && leb c b'Z' || is_digit c)

abbrev pub is_mark : ℕ → Bool
is_mark c = c == b'.' || (c == b'-' || c == b'_')

-- the arms of the first `match`
unfoldable pub fallback_char : ℕ → ℕ
fallback_char c = if is_alnum c || (is_mark c || c == b' ') then c else b'_'

unfoldable pub fallback_chars : Text → Text
unfolding fallback_char
fallback_chars [] = []
fallback_chars (c ∷ s) = fallback_char c ∷ fallback_chars s

unfoldable pub fallback : Text → Text
unfolding fallback_chars
fallback [] = codes "file"
fallback (c ∷ s) = fallback_chars (c ∷ s)

abbrev pub hex_digit : ℕ → ℕ
hex_digit n = if ltb n 10 then b'0' + n else b'A' + (n - 10)

-- the arms of the second `match`; `%{byte:02X}`
unfoldable pub encode_byte : ℕ → Text
encode_byte b =
    if is_alnum b || is_mark b
    then b ∷ []
    else if b == b' '
    then codes "%20"
    else b'%' ∷ hex_digit (b / 16) ∷ hex_digit (b % 16) ∷ []

unfoldable pub encode_bytes : Bytes → Text
encode_bytes [] = []
encode_bytes (b ∷ bs) = encode_byte b ++ encode_bytes bs

unfoldable pub content_disposition : Text → Text → Text
unfolding fallback encode_bytes
content_disposition kind original_filename =
    kind
    ++ (codes "; filename="
        ++ b'"'
          ∷ (fallback original_filename
              ++ b'"' ∷ (codes "; filename*=UTF-8''" ++ encode_bytes (as_bytes original_filename))))

abbrev pub inline_whitelist : List Text
inline_whitelist =
    codes "image/png" ∷ codes "image/jpeg" ∷ codes "image/gif" ∷ codes "image/webp" ∷ []

-- `mime_guess::from_path(...).first_or_octet_stream()` is another crate's.
unfoldable pub guess_mime : (Text → Text) → Text → Option Text → Text
guess_mime from_path filename none = from_path filename
guess_mime from_path filename (some []) = from_path filename
guess_mime from_path filename (some (c ∷ t)) = c ∷ t

-- `n / d` to the nearest whole number, halves to the even one. A quotient by a power of two is
-- exact in an `f64` below 2^53, and Rust prints the exact value rounded so.
unfoldable pub round_div : ℕ → ℕ → ℕ
round_div n d =
    if ltb (2 * (n % d)) d
    then n / d
    else if ltb d (2 * (n % d))
    then n / d + 1
    else n / d + n / d % 2

unfoldable pub human_size : ℤ → Text
unfolding round_div
human_size (negsuc n) = b'-' ∷ (show_u64 (suc n) ++ codes " B")
human_size (pos bytes) =
    if leb (1024 * 1024) bytes
    then show_u64 (round_div (bytes * 10) (1024 * 1024) / 10)
      ++ b'.' ∷ (b'0' + round_div (bytes * 10) (1024 * 1024) % 10) ∷ codes " MB"
    else if leb 1024 bytes
    then show_u64 (round_div bytes 1024) ++ codes " KB"
    else show_u64 bytes ++ codes " B"
