-- ===== src/Router/Sealed.antt =====
-- What a request without a session and without the key can do to the server of src/main.rs.
use mathlib.Core.Path.{subst}
use aardbin.Prelude.{
  All, Bool-cases, List, Option, Option-cases, Text, [], ap, as_bytes, codes, false, if◌then◌else◌,
  inl, inr, none, refl, some, strip_prefix_sound, sym, text_eq_iff, ◌++◌, ◌∙◌, ◌∷◌, ◌≡◌,
}
use aardbin.Http.{Headers, Response, find_header, header_text}
use aardbin.App.{Env, World}
use aardbin.Login.{
  checked_login, detect_lang, get_login, key_matches, logged_in, login_failed, post_login,
  post_logout, too_many_attempts,
}
use aardbin.Api.{api_auth, api_verdict, bearer, checked_token, json_error, locked_out, with_auth}
use aardbin.Api.Auth.{HasKey}
use aardbin.Ratelimit.{Failures, Verdict, allowed, check, locked, record_failure, record_success}
use aardbin.Session.{extract_valid_session}
use aardbin.Router.{Arrival, Handler, route_layer}
use aardbin.Router.Table.{answers, app, authenticated, extract, open_routes, protected, request_of}
use aardbin.Guard.{
  forbidden, has_value, is_post, origin_guard, origin_ok, require_auth, session_expired, site_ok,
  to_login,
}
use aardbin.Router.Choice.{
  AllRoutes, AllRoutes-append, dispatch-AllRoutes, route_each, route_layer-AllRoutes,
}

-- The response and the failures that are counted come of the failures counted before, and of
-- nothing else; all else stays.
abbrev pub IsSealed : (World → Response × World) → Type 0
IsSealed m =
    (g : Failures → Response × Failures) × ((w : World)
      → m w ≡ ((g w.failures).0, record w { failures = (g w.failures).1 }))

pub record HasNoCredentials (e : Env) (a : Arrival) : Type 0 where
  pub no_session :
      extract_valid_session e.digest (header_text (codes "cookie") a.headers) e.sessions a.now
      ≡ false
  pub no_key : ¬ HasKey e (header_text (codes "authorization") a.headers)

IsSealed-const : (resp : Response) → IsSealed (λ w. (resp, w))
IsSealed-const resp = (λ f. (resp, f), λ w. refl)

IsSealed-extract :
    {A : Type 0} (a : Arrival) (o : Option A) (next : A → World → Response × World)
    → ((x : A) → IsSealed (next x))
    → IsSealed (extract a o next)
unfolding extract
IsSealed-extract a none next h = IsSealed-const a.rejection
IsSealed-extract a (some x) next h = h x

module _ (e : Env) (a : Arrival) where
  token_part : Option Text → Failures → Response × Failures
  token_part none f = (json_error e 401 (codes "missing Authorization header"), f)
  token_part (some header) f = elim (bearer e (some header)) [
    | none ↦ (json_error e 401 (codes "invalid Authorization format"), f)
    | some token ↦
        (json_error e 401 (codes "invalid access key"), record_failure a.peer a.failed_at f)
  ]

  verdict_part : Option Text → Verdict → Failures → Response × Failures
  verdict_part header (locked r) f = (locked_out e r, f)
  verdict_part header allowed f = token_part header f

  token_sealed :
      (header : Option Text) (w : World)
      → ¬ HasKey e header
      → checked_token e a.peer a.failed_at header w ≡ (
        some (token_part header w.failures).0,
        record w { failures = (token_part header w.failures).1 },
      )
  unfolding checked_token token_part bearer
  token_sealed none w bad = refl
  token_sealed (some header) w bad = elim (Option-cases (bearer e (some header))) [
    | inl odd ↦ rw (odd, checked_token, token_part) refl
    | inr (token, given) ↦ elim (Bool-cases (key_matches e token)) [
      | inl right ↦ absurd (
          bad (record {
            token = token;
            sent = ap some (strip_prefix_sound (codes "Bearer ") header token given);
            right = (text_eq_iff (as_bytes token) (as_bytes e.cfg.access_key)).0 right;
          }))
      | inr wrong ↦ rw (given, wrong, checked_token, token_part) refl
    ]
  ]

  verdict_sealed :
      (header : Option Text) (w : World) (v : Verdict)
      → ¬ HasKey e header
      → api_verdict e a.peer a.failed_at header w v ≡ (
        some (verdict_part header v w.failures).0,
        record w { failures = (verdict_part header v w.failures).1 },
      )
  unfolding api_verdict verdict_part
  verdict_sealed header w (locked r) bad = refl
  verdict_sealed header w allowed bad = token_sealed header w bad

  auth_part : Failures → Response × Failures
  auth_part f =
      let checked = check a.peer a.checked_at f in
      verdict_part (header_text (codes "authorization") a.headers) checked.0 checked.1

  auth_sealed :
      ¬ HasKey e (header_text (codes "authorization") a.headers)
      → (w : World)
      → api_auth e a.peer a.checked_at a.failed_at a.headers w
        ≡ (some (auth_part w.failures).0, record w { failures = (auth_part w.failures).1 })
  unfolding api_auth auth_part
  auth_sealed bad w =
      let checked = check a.peer a.checked_at w.failures in
      verdict_sealed (header_text (codes "authorization") a.headers)
        (record w { failures = checked.1 }) checked.0 bad

  IsSealed-with_auth :
      ¬ HasKey e (header_text (codes "authorization") a.headers)
      → (handler : World → Response × World)
      → IsSealed (with_auth e a.peer a.checked_at a.failed_at a.headers handler)
  unfolding with_auth
  IsSealed-with_auth bad handler = (
    auth_part,
    λ w. ap (λ r. elim r.0 [ none ↦ handler r.1 | some resp ↦ (resp, r.1) ]) (auth_sealed bad w),
  )

  IsSealed-require_auth :
      extract_valid_session e.digest (header_text (codes "cookie") a.headers) e.sessions a.now
        ≡ false
      → (handler : Handler) (found : List Text) → IsSealed (authenticated e handler a found)
  unfolding require_auth
  IsSealed-require_auth closed handler found =
      elim (Bool-cases (has_value (header_text (codes "hx-request") a.headers) (codes "true"))) [
        | inl htmx ↦ (λ f. (session_expired, f), λ w. rw (closed, htmx, require_auth) refl)
        | inr page ↦ (λ f. (to_login, f), λ w. rw (closed, page, require_auth) refl)
      ]

  login_part : Headers → Text → Verdict → Failures → Response × Failures
  login_part hs key (locked r) f = (too_many_attempts e (detect_lang hs) r, f)
  login_part hs key allowed f =
      if key_matches e key
      then (logged_in e a.now, record_success a.peer f)
      else (login_failed, record_failure a.peer a.failed_at f)

  login_sealed :
      (key : Text) (w : World) (v : Verdict)
      → checked_login e a.peer a.failed_at a.now a.headers key w v ≡ (
        (login_part a.headers key v w.failures).0,
        record w { failures = (login_part a.headers key v w.failures).1 },
      )
  unfolding checked_login login_part
  login_sealed key w (locked r) = refl
  login_sealed key w allowed = elim (Bool-cases (key_matches e key)) [
    | inl right ↦ rw (right, checked_login, login_part) refl
    | inr wrong ↦ rw (wrong, checked_login, login_part) refl
  ]

  IsSealed-post_login :
      (key : Text) → IsSealed (post_login e a.peer a.checked_at a.failed_at a.now a.headers key)
  unfolding post_login
  IsSealed-post_login key = (
    λ f. let checked = check a.peer a.checked_at f in login_part a.headers key checked.0 checked.1,
    λ w.
        let checked = check a.peer a.checked_at w.failures in
        login_sealed key (record w { failures = checked.1 }) checked.0,
  )

  IsSealed-get_login : (error : Option Text) → IsSealed (get_login e a.headers error)
  unfolding get_login
  IsSealed-get_login error = (_, λ w. refl)

  IsSealed-post_logout : IsSealed (post_logout e)
  unfolding post_logout
  IsSealed-post_logout = (_, λ w. refl)

  guarded :
      (next : World → Response × World)
      → IsSealed next
      → IsSealed (origin_guard (request_of a) next)
  unfolding origin_guard
  guarded next (g, eq) = elim (Bool-cases (is_post a.method)) [
    | inr safe ↦ (g, λ w. rw (safe, origin_guard) (eq w))
    | inl posted ↦ elim (Bool-cases (site_ok (find_header (codes "sec-fetch-site") a.headers))) [
      | inr cross ↦ (
        (λ f. (forbidden (codes "cross-site request rejected"), f)),
        λ w. rw (posted, cross, origin_guard) refl,
      )
      | inl near ↦ elim (Bool-cases (origin_ok a.headers)) [
        | inr far ↦ (
          (λ f. (forbidden (codes "origin mismatch"), f)),
          λ w. rw (posted, near, far, origin_guard) refl,
        )
        | inl same ↦ (g, λ w. rw (posted, near, same, origin_guard) (eq w))
      ]
    ]
  ]

  module _ (outside : HasNoCredentials e a) where
    open_routes-IsSealed : AllRoutes a IsSealed (open_routes e)
    unfolding open_routes
    open_routes-IsSealed =
        let refuses = IsSealed-const a.not_allowed in
        let each = route_each a IsSealed refuses in
        let api = IsSealed-with_auth outside.no_key in
        (
          each _ (λ found. IsSealed-const _) tt tt,
          (
            each _ (λ found. IsSealed-extract a a.error_query _ (λ error. IsSealed-get_login error))
                (λ found. IsSealed-extract a a.login_form _ IsSealed-post_login) tt,
            (
              each _ tt (λ found. IsSealed-post_logout) tt,
              (
                each _ tt (λ found. IsSealed-extract a a.lang_form _ (λ lang. IsSealed-const _)) tt,
                (
                  each _ (λ found. api _) (λ found. api _) tt,
                  (
                    each _ (λ found. api _) tt (λ found. api _),
                    (each _ (λ found. api _) tt tt, (each _ (λ found. IsSealed-const _) tt tt, tt)),
                  ),
                ),
              ),
            ),
          ),
        )

    app-IsSealed : IsSealed (app e a)
    unfolding app origin_guard
    app-IsSealed =
        let routed =
          dispatch-AllRoutes a IsSealed (IsSealed-const a.not_found)
            (open_routes e ++ route_layer (authenticated e) (protected e))
            (AllRoutes-append a IsSealed (open_routes e)
              (route_layer (authenticated e) (protected e)) open_routes-IsSealed
              (route_layer-AllRoutes a IsSealed (authenticated e) (IsSealed-const a.not_allowed)
                (IsSealed-require_auth outside.no_session) (protected e))) in
        guarded _ routed

-- What lies outside the failures is as it was.
pub record IsKept (w w' : World) : Type 0 where
  pub tables : w'.tables ≡ w.tables
  pub disk : w'.disk ≡ w.disk
  pub sent : w'.sent ≡ w.sent
  pub drawn : w'.drawn ≡ w.drawn
  pub faults : w'.faults ≡ w.faults

module _ (e : Env) where
  -- Requests in turn are sealed as one is.
  sealed_list :
      (arrivals : List Arrival)
      → All (HasNoCredentials e) arrivals
      → (g : Failures → List Response × Failures) × ((w : World)
          → answers e arrivals w ≡ ((g w.failures).0, record w { failures = (g w.failures).1 }))
  unfolding answers
  sealed_list [] h = (λ f. ([], f), λ w. refl)
  sealed_list (a ∷ arrivals) (here, h) =
      let (one, first) = app-IsSealed e a here in
      let (more, later) = sealed_list arrivals h in
      (
        λ f. ((one f).0 ∷ (more (one f).1).0, (more (one f).1).1),
        λ w.
            let w' : World = record w { failures = (one w.failures).1 } in
            ap (λ r. (r.0 ∷ (answers e arrivals r.1).0, (answers e arrivals r.1).1)) (first w)
            ∙ ap (λ r. ((one w.failures).0 ∷ r.0, r.1)) (later w'),
      )

-- Any sequence of requests, to whatever paths, that carry neither a valid session nor the access
-- key as a Bearer token (a login form with the key is no such request: it gets a session, and shows
-- nothing else) leaves the records, the attachments, the files and the broadcasts as they were. And
-- it reads nothing of them: on two servers that have counted the same failed logins, all the
-- answers are the same, whatever the servers store.
pub answers-IsKept :
    (e : Env) (arrivals : List Arrival) (w w' : World)
    → All (HasNoCredentials e) arrivals
    → w.failures ≡ w'.failures
    → IsKept w (answers e arrivals w).1 × ((answers e arrivals w).0 ≡ (answers e arrivals w').0)
answers-IsKept e arrivals w w' h same =
    let (g, eq) = sealed_list e arrivals h in
    (
      subst (λ r. IsKept w r.1) (sym (eq w))
          (record { tables = refl; disk = refl; sent = refl; drawn = refl; faults = refl }),
      ap (λ r. r.0) (eq w) ∙ ap (λ f. (g f).0) same ∙ sym (ap (λ r. r.0) (eq w')),
    )
