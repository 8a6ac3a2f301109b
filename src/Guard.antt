-- ===== src/Guard.antt =====
-- src/guard.rs: the middleware. What it passes a request on to is a function of the shared state.
mod Tests
pub mod Origins
use aardbin.Prelude.{
  Bool, List, Option, Text, [], codes, false, if◌then◌else◌, none, one_of, some, strip_prefix,
  text_eq, to_ascii_lowercase, true, ℕ, ◌==◌, ◌∷◌,
}
use aardbin.Http.{
  HeaderValue, Headers, Method, Request, Response, find_header, header_text, opaque, post, redirect,
  to_str, visible,
}
use aardbin.App.{Env, World}
use aardbin.Session.{extract_valid_session}

abbrev pub to_login : Response
to_login = redirect (codes "/login")

abbrev pub session_expired : Response
session_expired = record {
  status = 401;
  headers = (codes "hx-redirect", codes "/login") ∷ [];
  body = codes "session expired";
}

-- a header with the given text as its value
abbrev pub has_value : Option Text → Text → Bool
has_value none v = false
has_value (some s) v = text_eq s v

unfoldable pub require_auth :
    Env → ℕ → Request → (World → Response × World) → World → Response × World
require_auth e now req next w =
    if extract_valid_session e.digest (header_text (codes "cookie") req.headers) e.sessions now
    then next w
    else if has_value (header_text (codes "hx-request") req.headers) (codes "true")
    then (session_expired, w)
    else (to_login, w)

abbrev pub forbidden : Text → Response
forbidden why = record { status = 403; headers = []; body = why }

abbrev pub same_site : List Text
same_site = codes "same-origin" ∷ codes "same-site" ∷ codes "none" ∷ []

-- `None` passes; a value that is no text is rejected.
unfoldable pub site_ok : Option HeaderValue → Bool
site_ok none = true
site_ok (some opaque) = false
site_ok (some (visible v)) = one_of v same_site

abbrev pub separator : Text
separator = codes "://"

-- The text before the first `://`, and the text after it if there is one.
unfoldable pub cut_scheme : Text → Text × Option Text
unfolding strip_prefix
cut_scheme [] = ([], none)
cut_scheme (c ∷ s) =
    let rest = cut_scheme s in
    elim (strip_prefix separator (c ∷ s)) [
      | some after ↦ ([], some after)
      | none ↦ (c ∷ rest.0, rest.1)
    ]

-- `trim_end_matches('/')`
abbrev pub trim_slashes : Text → Text
trim_slashes [] = []
trim_slashes (c ∷ s) = elim (trim_slashes s) [
  | [] ↦ if c == b'/' then [] else c ∷ []
  | d ∷ r ↦ c ∷ d ∷ r
]

-- `split("://").nth(1)`, trimmed and in lower case
unfoldable pub origin_host : Text → Option Text
unfolding cut_scheme
origin_host origin = elim (cut_scheme origin).1 [
  | none ↦ none
  | some after ↦ some (to_ascii_lowercase (trim_slashes (cut_scheme after).0))
]

abbrev pub same_host : Option Text → Option Text → Bool
same_host (some o) (some h) = text_eq o (to_ascii_lowercase h)
same_host _ _ = false

abbrev pub host_of : Option Text → Option Text
host_of none = none
host_of (some origin) = origin_host origin

-- No Origin passes; one must name the host of the Host header.
unfoldable pub origin_ok : Headers → Bool
unfolding origin_host
origin_ok hs = elim (find_header (codes "origin") hs) [
  | none ↦ true
  | some v ↦ same_host (host_of (to_str (some v))) (header_text (codes "host") hs)
]

abbrev pub is_post : Method → Bool
is_post post = true
is_post _ = false

unfoldable pub origin_guard : Request → (World → Response × World) → World → Response × World
unfolding site_ok origin_ok
origin_guard req next w =
    if is_post req.method
    then if site_ok (find_header (codes "sec-fetch-site") req.headers)
      then if origin_ok req.headers then next w else (forbidden (codes "origin mismatch"), w)
      else (forbidden (codes "cross-site request rejected"), w)
    else next w
