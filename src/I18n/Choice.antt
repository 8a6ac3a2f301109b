-- ===== src/I18n/Choice.antt =====
-- Which language src/i18n.rs chooses, and which text it gives.
use aardbin.Prelude.{
  All, Bool, Bool-cases, List, Option, Option-cases, Text, [], ap, arith, codes, false,
  if◌then◌else◌, inl, inr, none, one_of, refl, some, split, strip_prefix, sym, text_eq, text_eq_sym,
  trim, true, ◌++◌, ◌∙◌, ◌∷◌, ◌≡◌,
}
use aardbin.Prelude.Dict.{Dict, find}
use aardbin.I18n.Tables.{en_table, zh_table}
use aardbin.I18n.{Lang, en, extract_lang_cookie, lang_in, t, table, value_or, zh}
use aardbin.Cookies.{
  Cookie, IsCookie, cookie_pairs, cookie_pairs-show_cookies, show_all, show_cookies,
  strip_prefix-show_cookie, trim_all,
}

keys_of : Dict Text → List Text
keys_of [] = []
keys_of ((k, v) ∷ m) = k ∷ keys_of m

abbrev pub is_there {ℓ} : {A : Type ℓ} → Option A → Bool
is_there none = false
is_there (some a) = true

find_keys : (k : Text) (m : Dict Text) → is_there (find k m) ≡ one_of k (keys_of m)
unfolding find keys_of
find_keys k [] = refl
find_keys k ((j, v) ∷ m) = ground (arith, find_keys k m, text_eq_sym j k)

same_keys : keys_of en_table ≡ keys_of zh_table
unfolding keys_of en_table zh_table
same_keys = refl

there_value_or : (o : Option Text) (d : Text) → is_there o ≡ true → o ≡ some (value_or o d)
there_value_or none d h = absurd (ground (arith, h))
there_value_or (some v) d h = refl

absent_value_or : (o : Option Text) (d : Text) → is_there o ≡ false → value_or o d ≡ d
absent_value_or none d h = refl
absent_value_or (some v) d h = absurd (ground (arith, h))

-- A key has a text in one language exactly if it has one in the other. So the fallback from
-- Chinese to English is never taken: in either language a key that the tables know gets the text
-- of that language's own table, and one that they do not know gets itself.
pub t_own :
    (lang : Lang) (key : Text)
    → (is_there (find key en_table) ≡ is_there (find key zh_table))
      × (is_there (find key (table lang)) ≡ true → find key (table lang) ≡ some (t lang key))
      × (is_there (find key (table lang)) ≡ false → t lang key ≡ key)
unfolding t
t_own lang key =
    let same : is_there (find key en_table) ≡ is_there (find key zh_table) =
      find_keys key en_table ∙ ap (λ ks. one_of key ks) same_keys ∙ sym (find_keys key zh_table) in
    (same, own lang, missing lang same)
  where
    own : (l : Lang) → is_there (find key (table l)) ≡ true → find key (table l) ≡ some (t l key)
    own en h = there_value_or (find key en_table) key h
    own zh h = there_value_or (find key zh_table) (value_or (find key en_table) key) h

    missing :
        (l : Lang)
        → is_there (find key en_table) ≡ is_there (find key zh_table)
        → is_there (find key (table l)) ≡ false
        → t l key ≡ key
    missing en same h = absent_value_or (find key en_table) key h
    missing zh same h =
        absent_value_or (find key zh_table) (value_or (find key en_table) key) h
        ∙ absent_value_or (find key en_table) key (same ∙ h)

abbrev pub lang_name : Text
lang_name = codes "aardbin_lang"

-- The value of the first cookie of the name.
abbrev pub first_lang : List Cookie → Option Text
first_lang [] = none
first_lang ((name, value) ∷ cs) = if text_eq lang_name name then some value else first_lang cs

-- the loop on pieces that are trimmed already
trimmed_lang : List Text → Option Text
trimmed_lang [] = none
trimmed_lang (pair ∷ pairs) = elim (strip_prefix (lang_name ++ b'=' ∷ []) pair) [
  | some val ↦ some val
  | none ↦ trimmed_lang pairs
]

lang_in-trim : (pairs : List Text) → lang_in pairs ≡ trimmed_lang (trim_all pairs)
unfolding lang_in trimmed_lang
lang_in-trim [] = refl
lang_in-trim (pair ∷ pairs) =
    elim (Option-cases (strip_prefix (lang_name ++ b'=' ∷ []) (trim pair))) [
      | inl h ↦ rw (h, lang_in, trimmed_lang) (lang_in-trim pairs)
      | inr (val, h) ↦ rw (h, lang_in, trimmed_lang) refl
    ]

trimmed_lang-show_all :
    (cs : List Cookie) → All IsCookie cs → trimmed_lang (show_all cs) ≡ first_lang cs
unfolding trimmed_lang
trimmed_lang-show_all [] h = refl
trimmed_lang-show_all (c ∷ cs) (h, hs) =
    let named = strip_prefix-show_cookie lang_name c (omega arith) h.1 in
    let rest = trimmed_lang-show_all cs hs in
    elim (Bool-cases (text_eq lang_name c.0)) [
      | inl e ↦
          rw (named ∙ ap (λ (b : Bool). if b then some c.1 else none) e, trimmed_lang) (rw e refl)
      | inr e ↦
          rw (named ∙ ap (λ (b : Bool). if b then some c.1 else none) e, trimmed_lang) (rw e rest)
    ]

-- The language cookie that is read of a header of well-formed cookies is the first of that name
-- that the client wrote.
pub extract_lang_cookie-show_cookies :
    (c : Cookie) (cs : List Cookie)
    → All IsCookie (c ∷ cs)
    → extract_lang_cookie (some (show_cookies (c ∷ cs))) ≡ first_lang (c ∷ cs)
unfolding extract_lang_cookie
extract_lang_cookie-show_cookies c cs h =
    lang_in-trim (split b';' (show_cookies (c ∷ cs)))
    ∙ ap trimmed_lang {x = trim_all (split b';' (show_cookies (c ∷ cs)))} {y = show_all (c ∷ cs)}
        (unfold cookie_pairs in cookie_pairs-show_cookies c cs h)
    ∙ trimmed_lang-show_all (c ∷ cs) h
