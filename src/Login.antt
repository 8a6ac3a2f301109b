-- ===== src/Login.antt =====
-- The login handlers of src/routes.rs. `now` is the time of day in seconds, for the cookie, and
-- `checked_at`
-- and `failed_at` are readings of the limiter's monotonic clock, in nanoseconds.
pub mod Lockouts
pub mod Sessions
pub mod Language
mod Tests
use aardbin.Prelude.{
  Bool, Option, Text, [], as_bytes, codes, if◌then◌else◌, length, none, some, strip_prefix, suc,
  text_eq, zero, ℕ, ◌*◌, ◌++◌, ◌+◌, ◌-◌, ◌/◌, ◌==◌, ◌∷◌,
}
use aardbin.Prelude.Decimal.{show_u64}
use aardbin.Http.{Headers, Response, header_text, internal, redirect}
use aardbin.Views.{login_page}
use aardbin.I18n.{Lang, as_str, extract_lang_cookie, resolve, t}
use aardbin.App.{Env, World}
use aardbin.Ratelimit.{
  IpAddr, Verdict, allowed, as_secs, check, locked, record_failure, record_success,
}
use aardbin.Session.{clear_set_cookie, issue_set_cookie}

-- `i18n::resolve` on the two headers
unfoldable pub detect_lang : Headers → Lang
detect_lang hs =
    resolve (extract_lang_cookie (header_text (codes "cookie") hs))
      (header_text (codes "accept-language") hs)

abbrev pub html : Text → Response
html page = record { status = 200; headers = []; body = page }

-- a page, or the error of the template engine
unfoldable pub rendered : Option Text → Response
rendered none = internal
rendered (some page) = html page

abbrev pub login_error : Lang → Option Text → Option Text
login_error lang none = none
login_error lang (some x) = some (t lang (codes "login.error"))

unfoldable pub get_login : Env → Headers → Option Text → World → Response × World
get_login e hs error w =
    let lang = detect_lang hs in
    (rendered (e.render lang (login_page (as_str lang) (login_error lang error))), w)

-- `replace`: every occurrence of a pattern that is not empty, from the left; `skip` characters of
-- the occurrence that was just replaced are left to drop.
unfoldable pub replace_from : Text → Text → ℕ → Text → Text
replace_from pattern by skip [] = []
replace_from pattern by (suc skip) (c ∷ s) = replace_from pattern by skip s
replace_from pattern by zero (c ∷ s) =
    let after = replace_from pattern by (length pattern - 1) s in
    let rest = replace_from pattern by zero s in
    elim (strip_prefix pattern (c ∷ s)) [ none ↦ c ∷ rest | some tail ↦ by ++ after ]

unfoldable pub replace : Text → Text → Text → Text
unfolding replace_from
replace pattern by s = replace_from pattern by 0 s

-- `div_ceil(60)` of the remaining seconds
abbrev pub minutes_of : ℕ → ℕ
minutes_of remaining = (as_secs remaining + 59) / 60

abbrev pub plural_of : ℕ → Text
plural_of minutes = if minutes == 1 then [] else codes "s"

unfoldable pub locked_message : Lang → ℕ → Text
unfolding replace
locked_message lang remaining =
    let minutes = minutes_of remaining in
    replace (codes "{plural}") (plural_of minutes)
      (replace (codes "{minutes}") (show_u64 minutes) (t lang (codes "rate.too_many")))

abbrev pub too_many_attempts : Env → Lang → ℕ → Response
too_many_attempts e lang remaining = record {
  status = 429;
  headers = (codes "retry-after", show_u64 (as_secs remaining)) ∷ [];
  body = elim (e.render lang (login_page (as_str lang) (some (locked_message lang remaining)))) [
    | none ↦ codes "Too many attempts"
    | some page ↦ page
  ];
}

abbrev pub login_failed : Response
login_failed = redirect (codes "/login?error=1")

abbrev pub logged_in : Env → ℕ → Response
logged_in e now = record {
  status = 303;
  headers =
      (codes "location", codes "/")
      ∷ (codes "set-cookie", issue_set_cookie e.digest e.sessions now)
      ∷ [];
  body = [];
}

-- `ct_eq` on the bytes
abbrev pub key_matches : Env → Text → Bool
key_matches e key = text_eq (as_bytes key) (as_bytes e.cfg.access_key)

unfoldable pub checked_login :
    Env → IpAddr → ℕ → ℕ → Headers → Text → World → Verdict → Response × World
checked_login e ip failed_at now hs key w (locked remaining) =
    (too_many_attempts e (detect_lang hs) remaining, w)
checked_login e ip failed_at now hs key w allowed =
    if key_matches e key
    then (logged_in e now, record w { failures = record_success ip w.failures })
    else (login_failed, record w { failures = record_failure ip failed_at w.failures })

-- The limiter reads the clock in `check`, and in `record_failure` again.
unfoldable pub post_login : Env → IpAddr → ℕ → ℕ → ℕ → Headers → Text → World → Response × World
unfolding checked_login
post_login e ip checked_at failed_at now hs key w =
    let checked = check ip checked_at w.failures in
    checked_login e ip failed_at now hs key (record w { failures = checked.1 }) checked.0

unfoldable pub post_logout : Env → World → Response × World
post_logout e w = (
  record {
    status = 303;
    headers =
        (codes "location", codes "/login")
        ∷ (codes "set-cookie", clear_set_cookie e.digest e.sessions)
        ∷ [];
    body = [];
  },
  w,
)

abbrev pub lang_cookie : Text → Text
lang_cookie lang =
    codes "aardbin_lang="
    ++ ((if text_eq lang (codes "zh") then codes "zh" else codes "en")
        ++ (codes "; Path=/; SameSite=Lax; Max-Age=" ++ show_u64 (365 * 86400)))

unfoldable pub post_lang : Headers → Text → Response
post_lang hs lang = record {
  status = 303;
  headers =
      (codes "location", elim (header_text (codes "referer") hs) [ none ↦ codes "/" | some r ↦ r ])
      ∷ (codes "set-cookie", lang_cookie lang)
      ∷ [];
  body = [];
}
