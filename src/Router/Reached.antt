-- ===== src/Router/Reached.antt =====
-- How the requests of a client with the key come to the handlers of src/api.rs.
use aardbin.Prelude.{
  All, Bool-cases, List, Text, [], ap, arith, as_bytes, codes, none, refl, some, strip_prefix, take,
  text_eq_refl, true, ℕ, ◌++◌, ◌∙◌, ◌∷◌, ◌≡◌,
}
use aardbin.Http.{Method, Response, find_header, header_text}
use aardbin.App.{Env, World}
use aardbin.Guard.{is_post, origin_guard, origin_ok, site_ok}
use aardbin.Login.{key_matches}
use aardbin.Api.{
  api_auth, api_create_record, api_get_record, api_verdict, bearer, checked_token, with_auth,
}
use aardbin.Ratelimit.{allowed, check}
use aardbin.Router.{Arrival, Route, chosen, dispatch, match, route_layer, run}
use aardbin.Router.Table.{app, authenticated, extract, open_routes, protected, request_of, with_id}
use aardbin.Router.Choice.{dispatch_first}
use aardbin.Form.{Multipart}

-- The state once the limiter has let the address through.
abbrev pub let_in : Arrival → World → World
let_in a w = record w { failures = (check a.peer a.checked_at w.failures).1 }

-- A request with the access key, from an address that is not locked out.
pub record IsWelcome (e : Env) (a : Arrival) (w : World) : Type 0 where
  pub header :
      header_text (codes "authorization") a.headers ≡ some (codes "Bearer " ++ e.cfg.access_key)
  pub unlocked : (check a.peer a.checked_at w.failures).0 ≡ allowed

module _ (e : Env) (a : Arrival) (w : World) where
  token_passes :
      (v : World)
      → checked_token e a.peer a.failed_at (some (codes "Bearer " ++ e.cfg.access_key)) v
        ≡ (none, v)
  unfolding checked_token bearer strip_prefix
  token_passes v =
      let key : key_matches e e.cfg.access_key ≡ true = text_eq_refl (as_bytes e.cfg.access_key) in
      rw (key, checked_token) refl

  auth_passes :
      IsWelcome e a w → api_auth e a.peer a.checked_at a.failed_at a.headers w ≡ (none, let_in a w)
  unfolding api_auth api_verdict
  auth_passes welcome =
      rw (welcome.unlocked, welcome.header, api_verdict) (token_passes (let_in a w))

  pub with_auth_passes :
      (handler : World → Response × World)
      → IsWelcome e a w
      → with_auth e a.peer a.checked_at a.failed_at a.headers handler w ≡ handler (let_in a w)
  unfolding with_auth
  with_auth_passes handler welcome =
      ap (λ r. elim r.0 [ none ↦ handler r.1 | some resp ↦ (resp, r.1) ]) (auth_passes welcome)

  -- Without the headers that a browser adds, `origin_guard` lets any request through.
  pub guard_passes :
      (next : World → Response × World)
      → find_header (codes "sec-fetch-site") a.headers ≡ none
      → find_header (codes "origin") a.headers ≡ none
      → origin_guard (request_of a) next w ≡ next w
  unfolding origin_guard site_ok origin_ok
  guard_passes next site origin = ground (arith, site, origin, Bool-cases (is_post a.method))

  -- the list of routes behind the API's `/api/records`
  pub reached :
      (skipped later : List Route) (r : Route) (found : List Text) (method : Method)
      → open_routes e ++ route_layer (authenticated e) (protected e) ≡ skipped ++ r ∷ later
      → All (λ s. match s.pattern a.path ≡ none) skipped
      → match r.pattern a.path ≡ some found
      → find_header (codes "sec-fetch-site") a.headers ≡ none
      → find_header (codes "origin") a.headers ≡ none
      → a.method ≡ method
      → app e a w ≡ run a found (chosen method r.methods) w
  unfolding app
  reached skipped later r found method table misses hit site origin same =
      guard_passes (dispatch (open_routes e ++ route_layer (authenticated e) (protected e)) a) site
        origin
      ∙ ap (λ rs. dispatch rs a w) table
      ∙ ap (λ f. f w) (dispatch_first a skipped r later found misses hit)
      ∙ ap (λ m. run a found (chosen m r.methods) w) same

  pub app-get :
      (c : ℕ) (s : Text)
      → find_header (codes "sec-fetch-site") a.headers ≡ none
      → find_header (codes "origin") a.headers ≡ none
      → a.method ≡ Method.get
      → a.path ≡ codes "api" ∷ codes "records" ∷ (c ∷ s) ∷ []
      → a.decode (c ∷ s) ≡ some (c ∷ s)
      → IsWelcome e a w
      → app e a w ≡ api_get_record e (c ∷ s) (let_in a w)
  unfolding open_routes match run with_id extract
  app-get c s site origin method path plain welcome =
      reached (take 5 (open_routes e)) _ _ ((c ∷ s) ∷ []) Method.get refl
        (rw path (refl, (refl, (refl, (refl, (refl, tt)))))) (rw path refl) site origin method
      ∙ with_auth_passes (with_id a ((c ∷ s) ∷ []) (api_get_record e)) welcome
      ∙ rw plain refl

  pub app-post :
      (form : Multipart)
      → find_header (codes "sec-fetch-site") a.headers ≡ none
      → find_header (codes "origin") a.headers ≡ none
      → a.method ≡ Method.post
      → a.path ≡ codes "api" ∷ codes "records" ∷ []
      → a.multipart ≡ some form
      → IsWelcome e a w
      → app e a w ≡ api_create_record e form a.headers a.now (let_in a w)
  unfolding open_routes match run extract
  app-post form site origin method path sent welcome =
      reached (take 4 (open_routes e)) _ _ [] Method.post refl
        (rw path (refl, (refl, (refl, (refl, tt))))) (rw path refl) site origin method
      ∙ with_auth_passes (extract a a.multipart (λ f. api_create_record e f a.headers a.now))
          welcome
      ∙ rw sent refl
