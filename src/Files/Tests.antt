-- ===== src/Files/Tests.antt =====
-- The tests of src/files.rs, and its theorems at file names.
use aardbin.Prelude.{pos, All, Text, arith, as_bytes, codes, refl, utf8_char, ◌*◌, ◌++◌, ◌∷◌, ◌≡◌}
use aardbin.Prelude.Decimal.{show_from, show_u64}
use aardbin.Files.{content_disposition, encode_byte, human_size}
use aardbin.Files.Disposition.{IsQuotable, content_disposition_safe, percent_decode}

disposition_ascii :
    content_disposition (codes "attachment") (codes "config.txt")
    ≡ codes "attachment; filename=\"config.txt\"; filename*=UTF-8''config.txt"
unfolding content_disposition as_bytes utf8_char encode_byte
disposition_ascii = refl

human_sizes :
    (human_size (pos 512) ≡ codes "512 B")
    × (human_size (pos 2048) ≡ codes "2 KB")
    × (human_size (pos (5 * 1024 * 1024)) ≡ codes "5.0 MB")
unfolding human_size show_u64 show_from
human_sizes = (refl, refl, refl)

-- Just under a mebibyte the rounded number of kibibytes is 1024.
human_size_boundary : human_size (pos 1048575) ≡ codes "1024 KB"
unfolding human_size show_u64 show_from
human_size_boundary = refl

abbrev screenshot : Text
screenshot = codes "截\".png"

content_disposition_safe_example :
    (quoted : Text) × (encoded : Text) × (content_disposition (codes "inline") screenshot
      ≡ codes "inline"
        ++ (codes "; filename="
            ++ b'"' ∷ (quoted ++ b'"' ∷ (codes "; filename*=UTF-8''" ++ encoded))))
    × All IsQuotable quoted
    × All IsQuotable encoded
    × (percent_decode encoded ≡ as_bytes screenshot)
content_disposition_safe_example =
    content_disposition_safe (codes "inline") screenshot (omega arith)
