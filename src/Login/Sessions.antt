-- ===== src/Login/Sessions.antt =====
-- From a login of src/routes.rs to a page behind the guard of src/guard.rs.
use aardbin.Prelude.{All, List, arith, codes, text_eq_refl, ℕ, ◌+◌, ◌<◌, ◌∷◌, ◌≡◌, ◌≤◌, ◌⊎◌}
use aardbin.Prelude.Decimal.{u64_mod}
use aardbin.Cookies.{Cookie, IsCookie, show_cookies}
use aardbin.Http.{Headers, Method, Request, Response, find_header, header_text, visible}
use aardbin.App.{Env, World}
use aardbin.Session.{cookie_name, issue}
use aardbin.Session.Token.{validate-issue}
use aardbin.Session.Header.{extract_valid_session-show_cookies}
use aardbin.Guard.{require_auth, session_expired, to_login}

-- A request whose Cookie header is the text that a client makes of the cookies it holds.
abbrev pub with_cookies : Cookie → List Cookie → Headers → Headers
with_cookies c cs hs = (codes "cookie", visible (show_cookies (c ∷ cs))) ∷ hs

module _ (e : Env) (issued later : ℕ) (method : Method) (hs : Headers) where
  abbrev pub request_with : List Cookie → Request
  request_with cs = record {
    method = method;
    headers = with_cookies (cookie_name, issue e.digest e.sessions issued) cs hs;
  }

  -- The cookie that a login at `issued` sets, sent first among well-formed cookies, passes the
  -- guard exactly until the lifetime of the session is over, if the sum of the two is a `u64`:
  -- until then the request goes on to its handler, and from then on the handler does not run, the
  -- state stays, and the answer is the redirect of a page or of HTMX.
  pub require_auth-issue :
      (cs : List Cookie) (next : World → Response × World) (w : World)
      → issued + e.sessions.ttl < u64_mod
      → All IsCookie ((cookie_name, issue e.digest e.sessions issued) ∷ cs)
      → (later < issued + e.sessions.ttl → require_auth e later (request_with cs) next w ≡ next w)
        × (issued + e.sessions.ttl ≤ later
            → ((require_auth e later (request_with cs) next w).1 ≡ w)
              × (((require_auth e later (request_with cs) next w).0 ≡ to_login)
                  ⊎ ((require_auth e later (request_with cs) next w).0 ≡ session_expired)))
  unfolding require_auth header_text find_header
  require_auth-issue cs next w small cookies =
      let read =
        extract_valid_session-show_cookies e.digest e.sessions later
          (cookie_name, issue e.digest e.sessions issued) cs cookies in
      let valid = validate-issue e.digest e.sessions issued later small in
      (
        λ lt. ground (arith, read, valid, text_eq_refl cookie_name),
        λ le. ground (arith, read, valid, text_eq_refl cookie_name),
      )
