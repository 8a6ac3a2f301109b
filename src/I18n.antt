-- ===== src/I18n.antt =====
-- src/i18n.rs: the choice of a language, and the translation tables.
pub mod Tables
pub mod Choice
mod Tests
use aardbin.Prelude.{
  List, Option, Text, [], codes, cut, if◌then◌else◌, none, one_of, some, split, starts_with,
  strip_prefix, to_ascii_lowercase, trim, ◌∷◌,
}
use aardbin.Prelude.Dict.{Dict, find}
use aardbin.I18n.Tables.{en_table, zh_table}

pub data Lang : Type 0 where
  en zh : Lang

abbrev pub as_str : Lang → Text
as_str en = codes "en"
as_str zh = codes "zh"

abbrev pub html_attr : Lang → Text
html_attr en = codes "en"
html_attr zh = codes "zh-CN"

abbrev pub table : Lang → Dict Text
table en = en_table
table zh = zh_table

abbrev pub value_or : Option Text → Text → Text
value_or none d = d
value_or (some v) d = v

-- The warnings in the log are left out.
unfoldable pub t : Lang → Text → Text
t en key = value_or (find key (table en)) key
t zh key = value_or (find key (table zh)) (value_or (find key (table en)) key)

-- the `match` on the trimmed cookie
unfoldable pub cookie_lang : Text → Option Lang
cookie_lang c =
    if one_of c (codes "zh" ∷ codes "zh-CN" ∷ codes "zh-cn" ∷ [])
    then some zh
    else if one_of c (codes "en" ∷ codes "en-US" ∷ codes "en-us" ∷ [])
    then some en
    else none

-- `part.split(';').next().unwrap_or("").trim().to_ascii_lowercase()`
unfoldable pub language_tag : Text → Text
language_tag part = to_ascii_lowercase (trim (cut b';' part).0)

unfoldable pub accept_lang : List Text → Lang
unfolding starts_with language_tag
accept_lang [] = en
accept_lang (part ∷ parts) =
    if starts_with (codes "zh") (language_tag part)
    then zh
    else if starts_with (codes "en") (language_tag part)
    then en
    else accept_lang parts

abbrev pub resolve_accept : Option Text → Lang
resolve_accept none = en
resolve_accept (some al) = accept_lang (split b',' al)

abbrev pub or_else {ℓ} : {A : Type ℓ} → Option A → A → A
or_else none d = d
or_else (some a) d = a

unfoldable pub resolve : Option Text → Option Text → Lang
unfolding cookie_lang accept_lang
resolve none accept = resolve_accept accept
resolve (some c) accept = or_else (cookie_lang (trim c)) (resolve_accept accept)

lang_in : List Text → Option Text
lang_in [] = none
lang_in (pair ∷ pairs) = elim (strip_prefix (codes "aardbin_lang=") (trim pair)) [
  | some val ↦ some val
  | none ↦ lang_in pairs
]

unfoldable pub extract_lang_cookie : Option Text → Option Text
unfolding lang_in strip_prefix
extract_lang_cookie none = none
extract_lang_cookie (some header) = lang_in (split b';' header)
