-- ===== src/Router/Keeping.antt =====
-- What the layers and the extractors in front of a handler keep, where the handler keeps it.
use aardbin.Prelude.{
  Bool, Bool-cases, List, Option, Option-cases, Text, [], codes, false, if◌then◌else◌, inl, inr,
  none, some, true, ℕ, ◌∷◌,
}
use aardbin.Http.{Headers, Request, Response, find_header, header_text}
use aardbin.App.{Env, World}
use aardbin.Guard.{has_value, is_post, origin_guard, origin_ok, require_auth, site_ok}
use aardbin.Api.{api_auth, api_verdict, bearer, checked_token, with_auth}
use aardbin.Ratelimit.{Failures, IpAddr, Verdict, allowed, check, locked}
use aardbin.Session.{extract_valid_session}
use aardbin.Router.{Arrival}
use aardbin.Router.Table.{extract, with_id, with_ids}
use aardbin.Login.{checked_login, key_matches, post_login}

-- `R` relates the state before a request to the state after it; counting a failed login keeps it.
pub record IsStable (R : World → World → Type 0) : Type 0 where
  pub trans : (u v w : World) → R u v → R v w → R u w
  pub counted : (w : World) (f : Failures) → R w (record w { failures = f })

-- The action leads from any state to one that `R` relates to it.
abbrev pub Keeps : (World → World → Type 0) → (World → Response × World) → Type 0
Keeps R m = (w : World) → R w (m w).1

module _ {R : World → World → Type 0} (st : IsStable R) where
  pub idle : (w : World) → R w w
  idle w = st.counted w w.failures

  pub Keeps-extract :
      {A : Type 0} (a : Arrival) (o : Option A) (next : A → World → Response × World)
      → ((x : A) → Keeps R (next x))
      → Keeps R (extract a o next)
  unfolding extract
  Keeps-extract a none next h = idle
  Keeps-extract a (some x) next h = h x

  pub Keeps-with_id :
      (a : Arrival) (found : List Text) (next : Text → World → Response × World)
      → ((id : Text) → Keeps R (next id))
      → Keeps R (with_id a found next)
  unfolding with_id
  Keeps-with_id a [] next h = idle
  Keeps-with_id a (id ∷ found) next h = Keeps-extract a (a.decode id) next h

  pub Keeps-with_ids :
      (a : Arrival) (found : List Text) (next : Text → Text → World → Response × World)
      → ((x y : Text) → Keeps R (next x y))
      → Keeps R (with_ids a found next)
  unfolding with_ids
  Keeps-with_ids a [] next h = idle
  Keeps-with_ids a (id ∷ found) next h =
      Keeps-extract a (a.decode id) _ (λ x. Keeps-with_id a found (next x) (λ y. h x y))

  if_Keeps :
      (b : Bool) (w : World) (m n : Response × World)
      → R w m.1
      → R w n.1
      → R w (if b then m else n).1
  if_Keeps true w m n hm hn = hm
  if_Keeps false w m n hm hn = hn

  pub Keeps-origin_guard :
      (req : Request) (next : World → Response × World)
      → Keeps R next
      → Keeps R (origin_guard req next)
  unfolding origin_guard
  Keeps-origin_guard req next h w =
      if_Keeps (is_post req.method) w _ _
        (if_Keeps (site_ok (find_header (codes "sec-fetch-site") req.headers)) w _ _
          (if_Keeps (origin_ok req.headers) w _ _ (h w) (idle w)) (idle w))
        (h w)

  module _ (e : Env) where
    pub Keeps-require_auth :
        (now : ℕ) (req : Request) (next : World → Response × World)
        → Keeps R next
        → Keeps R (require_auth e now req next)
    unfolding require_auth
    Keeps-require_auth now req next h w =
        if_Keeps
          (extract_valid_session e.digest (header_text (codes "cookie") req.headers) e.sessions now)
          w _ _ (h w)
          (if_Keeps (has_value (header_text (codes "hx-request") req.headers) (codes "true")) w _ _
            (idle w) (idle w))

    token_Keeps :
        (ip : IpAddr) (failed_at : ℕ) (header : Option Text) (w : World)
        → R w (checked_token e ip failed_at header w).1
    unfolding checked_token
    token_Keeps ip failed_at none w = idle w
    token_Keeps ip failed_at (some header) w = elim (Option-cases (bearer e (some header))) [
      | inl odd ↦ rw (odd, checked_token) (idle w)
      | inr (token, given) ↦ elim (Bool-cases (key_matches e token)) [
        | inl right ↦ rw (given, right, checked_token) (idle w)
        | inr wrong ↦ rw (given, wrong, checked_token) (st.counted w _)
      ]
    ]

    verdict_Keeps :
        (ip : IpAddr) (failed_at : ℕ) (header : Option Text) (w : World) (v : Verdict)
        → R w (api_verdict e ip failed_at header w v).1
    unfolding api_verdict
    verdict_Keeps ip failed_at header w (locked r) = idle w
    verdict_Keeps ip failed_at header w allowed = token_Keeps ip failed_at header w

    auth_Keeps :
        (ip : IpAddr) (checked_at failed_at : ℕ) (hs : Headers) (w : World)
        → R w (api_auth e ip checked_at failed_at hs w).1
    unfolding api_auth
    auth_Keeps ip checked_at failed_at hs w =
        let checked = check ip checked_at w.failures in
        st.trans _ _ _ (st.counted w checked.1) (
          verdict_Keeps ip failed_at (header_text (codes "authorization") hs)
            (record w { failures = checked.1 }) checked.0)

    pub Keeps-with_auth :
        (ip : IpAddr) (checked_at failed_at : ℕ) (hs : Headers) (handler : World → Response × World)
        → Keeps R handler
        → Keeps R (with_auth e ip checked_at failed_at hs handler)
    unfolding with_auth
    Keeps-with_auth ip checked_at failed_at hs handler h w =
        let seen = auth_Keeps ip checked_at failed_at hs w in
        elim (Option-cases (api_auth e ip checked_at failed_at hs w).0) [
          | inl passed ↦
              rw (with_auth, passed)
                (st.trans _ _ _ seen (h (api_auth e ip checked_at failed_at hs w).1))
          | inr (resp, rejected) ↦ rw (with_auth, rejected) seen
        ]

    login_Keeps :
        (ip : IpAddr) (failed_at now : ℕ) (hs : Headers) (key : Text) (w : World) (v : Verdict)
        → R w (checked_login e ip failed_at now hs key w v).1
    unfolding checked_login
    login_Keeps ip failed_at now hs key w (locked r) = idle w
    login_Keeps ip failed_at now hs key w allowed =
        if_Keeps (key_matches e key) w _ _ (st.counted w _) (st.counted w _)

    pub Keeps-post_login :
        (ip : IpAddr) (checked_at failed_at now : ℕ) (hs : Headers) (key : Text)
        → Keeps R (post_login e ip checked_at failed_at now hs key)
    unfolding post_login
    Keeps-post_login ip checked_at failed_at now hs key w =
        let checked = check ip checked_at w.failures in
        st.trans _ _ _ (st.counted w checked.1)
          (login_Keeps ip failed_at now hs key (record w { failures = checked.1 }) checked.0)
