-- ===== src/Session/Tests.antt =====
-- Tokens of src/session.rs with a concrete digest, and the theorems at them.
use aardbin.Prelude.{
  [], arith, as_bytes, codes, false, ltb, refl, some, true, utf8_char, ◌+◌, ◌∷◌, ◌≡◌,
}
use aardbin.Prelude.Decimal.{parse_u64, show_from, show_u64}
use aardbin.Cookies.{Cookie, show_cookies}
use aardbin.Session.{SessionManager, expiry_at, extract_valid_session, issue, mac_for, validate}
use aardbin.Session.Token.{validate-issue}
use aardbin.Session.Header.{extract_valid_session-show_cookies, first_session}
use aardbin.Fixtures.{plain_digest}

abbrev manager : SessionManager
manager = record { key = 1 ∷ 2 ∷ []; ttl = 3600; cookie_secure = true }

issued : issue plain_digest manager 1000 ≡ codes "v1.4600.av1.4600"
unfolding issue expiry_at mac_for show_u64 show_from as_bytes utf8_char
issued = refl

validate-issue_example :
    validate plain_digest manager 1500 (issue plain_digest manager 1000)
    ≡ ltb 1500 (1000 + manager.ttl)
validate-issue_example = validate-issue plain_digest manager 1000 1500 (omega arith)

-- The sign that `parse::<u64>` allows gives a second spelling of a token.
plus_accepted : validate plain_digest manager 5 (codes "v1.+9.av1.9") ≡ true
unfolding validate parse_u64 mac_for show_u64 show_from as_bytes utf8_char
plus_accepted = refl

garbage_rejected : validate plain_digest manager 5 (codes "v2.9.av1.9") ≡ false
unfolding validate
garbage_rejected = refl

abbrev session_cookie : Cookie
session_cookie = (codes "aardbin_session", codes "v1.9.av1.9")

abbrev other_cookie : Cookie
other_cookie = (codes "other", codes "x")

extract_valid_session-show_cookies_example :
    extract_valid_session plain_digest
      (some (show_cookies (other_cookie ∷ session_cookie ∷ [])))
      manager
      5
    ≡ first_session plain_digest manager 5 (other_cookie ∷ session_cookie ∷ [])
extract_valid_session-show_cookies_example =
    extract_valid_session-show_cookies plain_digest manager 5 other_cookie (session_cookie ∷ [])
      (ground arith)
