-- ===== src/Login/Language.antt =====
-- The language that `detect_lang` of src/routes.rs finds behind `post_lang`.
use mathlib.Core.Option
use aardbin.Prelude.Dict.{find}
use aardbin.Prelude.Decimal.{show_u64}
use aardbin.Prelude.{
  Bool, Option, cut, false, true, ◌++◌, All, List, Text, ap, arith, codes, ◌*◌, if◌then◌else◌, refl,
  some, text_eq, ◌∙◌, ◌∷◌, ◌≡◌,
}
use aardbin.Cookies.{Cookie, IsCookie, show_cookies}
use aardbin.Http.{Headers, find_header, header_text, visible}
use aardbin.I18n.{Lang, as_str, cookie_lang, en, extract_lang_cookie, resolve, zh}
use aardbin.I18n.Choice.{extract_lang_cookie-show_cookies, lang_name}
use aardbin.Login.{detect_lang, post_lang}

-- the language that a form value asks for
abbrev pub chosen : Text → Lang
chosen form = if text_eq form (codes "zh") then zh else en

-- what stands before the first semicolon of the cookie
value_sent :
    (b : Bool) (rest value : Text) (attributes : Option Text)
    → cut b';' (codes "aardbin_lang=" ++ ((if b then codes "zh" else codes "en") ++ b';' ∷ rest))
      ≡ (lang_name ++ b'=' ∷ value, attributes)
    → value ≡ as_str (if b then zh else en)
value_sent true rest value attributes h = cc h
value_sent false rest value attributes h = cc h

-- `post_lang` answers with a cookie. A client that keeps its name and value, which stand before the
-- first semicolon, and sends them first among well-formed cookies, gets the language of the form
-- value that it has posted: Chinese for `zh`, English for any other; whatever its Accept-Language
-- says.
pub detect_lang-chosen :
    (form : Text) (before : Headers) (value : Text) (attributes : Option Text) (cs : List Cookie)
    (hs : Headers)
    → All IsCookie cs
    → Option.map (cut b';') (find (codes "set-cookie") (post_lang before form).headers)
      ≡ some (lang_name ++ b'=' ∷ value, attributes)
    → detect_lang ((codes "cookie", visible (show_cookies ((lang_name, value) ∷ cs))) ∷ hs)
      ≡ chosen form
unfolding detect_lang header_text find_header resolve cookie_lang post_lang find
detect_lang-chosen form before value attributes cs hs good set =
    let same : value ≡ as_str (chosen form) =
      value_sent (text_eq form (codes "zh"))
        (codes " Path=/; SameSite=Lax; Max-Age=" ++ show_u64 (365 * 86400)) value attributes
        (cc set) in
    ap (λ v. detect_lang ((codes "cookie", visible (show_cookies ((lang_name, v) ∷ cs))) ∷ hs)) same
    ∙ chosen_lang (chosen form)
  where
    chosen_lang :
        (l : Lang)
        → detect_lang ((codes "cookie", visible (show_cookies ((lang_name, as_str l) ∷ cs))) ∷ hs)
          ≡ l
    chosen_lang en =
        ap (λ o. resolve o (header_text (codes "accept-language") hs))
          {x = extract_lang_cookie (some (show_cookies ((lang_name, codes "en") ∷ cs)))}
          {y = some (codes "en")}
          (extract_lang_cookie-show_cookies (lang_name, codes "en") cs (ground arith, good))
        ∙ refl
    chosen_lang zh =
        ap (λ o. resolve o (header_text (codes "accept-language") hs))
          {x = extract_lang_cookie (some (show_cookies ((lang_name, codes "zh") ∷ cs)))}
          {y = some (codes "zh")}
          (extract_lang_cookie-show_cookies (lang_name, codes "zh") cs (ground arith, good))
        ∙ refl
