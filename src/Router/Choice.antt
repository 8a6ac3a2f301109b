-- ===== src/Router/Choice.antt =====
-- Which handler of the table of src/main.rs answers a request.
use mathlib.Core.Path.{subst, fun_ext}
use aardbin.Prelude.{
  All, List, Option, Option-cases, Text, [], all, inl, inr, none, refl, some, sym, ◌++◌, ◌∙◌, ◌∷◌,
  ◌≡◌,
}
use aardbin.Http.{Method, Response}
use aardbin.App.{World}
use aardbin.Router.{
  Arrival, Handler, Methods, Route, chosen, dispatch, layered, match, route_layer, run,
}

-- the answer where no pattern fits
abbrev pub missed : Arrival → World → Response × World
missed a w = (a.not_found, w)

-- a route without a handler for the method
abbrev pub refused : Arrival → World → Response × World
refused a w = (a.not_allowed, w)

module _ (a : Arrival) where
  dispatch_miss :
      (r : Route) (rs : List Route)
      → match r.pattern a.path ≡ none
      → dispatch (r ∷ rs) a ≡ dispatch rs a
  unfolding dispatch
  dispatch_miss r rs h = fun_ext λ w. rw (h, dispatch) refl

  dispatch_hit :
      (r : Route) (rs : List Route) (found : List Text)
      → match r.pattern a.path ≡ some found
      → dispatch (r ∷ rs) a ≡ run a found (chosen a.method r.methods)
  unfolding dispatch
  dispatch_hit r rs found h = fun_ext λ w. rw (h, dispatch) refl

  dispatch_nil : dispatch [] a ≡ missed a
  unfolding dispatch
  dispatch_nil = fun_ext λ w. refl

  -- The first route that fits answers, by its handler for the method.
  pub dispatch_first :
      (skipped : List Route) (r : Route) (later : List Route) (found : List Text)
      → All (λ s. match s.pattern a.path ≡ none) skipped
      → match r.pattern a.path ≡ some found
      → dispatch (skipped ++ r ∷ later) a ≡ run a found (chosen a.method r.methods)
  dispatch_first [] r later found h hit = dispatch_hit r later found hit
  dispatch_first (s ∷ skipped) r later found (miss, h) hit =
      dispatch_miss s (skipped ++ r ∷ later) miss ∙ dispatch_first skipped r later found h hit

module _ (a : Arrival) (P : (World → Response × World) → Type 0) where
  -- `P` holds of what each route does, whatever its pattern has captured.
  abbrev pub AllRoutes : List Route → Type 0
  AllRoutes = All (λ r. (found : List Text) → P (run a found (chosen a.method r.methods)))

  pub AllRoutes-append : (rs ss : List Route) → AllRoutes rs → AllRoutes ss → AllRoutes (rs ++ ss)
  AllRoutes-append [] ss hr hs = hs
  AllRoutes-append (r ∷ rs) ss (here, hr) hs = (here, AllRoutes-append rs ss hr hs)

  pub dispatch-AllRoutes : P (missed a) → (rs : List Route) → AllRoutes rs → P (dispatch rs a)
  dispatch-AllRoutes none_fits [] all = subst P (sym (dispatch_nil a)) none_fits
  dispatch-AllRoutes none_fits (r ∷ rs) (here, all) = elim (Option-cases (match r.pattern a.path)) [
    | inl miss ↦ subst P (sym (dispatch_miss a r rs miss)) (dispatch-AllRoutes none_fits rs all)
    | inr (found, hit) ↦ subst P (sym (dispatch_hit a r rs found hit)) (here found)
  ]

  -- What holds of each handler of a route, and of the answer where it has none.
  abbrev pub Handlers : Option Handler → Type 0
  Handlers none = Unit
  Handlers (some handler) = (found : List Text) → P (handler a found)

  pub run_each :
      P (refused a) → (o : Option Handler) → Handlers o → (found : List Text) → P (run a found o)
  unfolding run
  run_each refuses none all found = subst P (fun_ext λ w. refl) refuses
  run_each refuses (some handler) all found = subst P (fun_ext λ w. refl) (all found)

  pub route_each :
      P (refused a)
      → (ms : Methods) → Handlers ms.on_get
      → Handlers ms.on_post
      → Handlers ms.on_delete
      → (found : List Text) → P (run a found (chosen a.method ms))
  route_each refuses ms gets posts deletes found = choose a.method
    where
      choose : (method : Method) → P (run a found (chosen method ms))
      choose Method.get = run_each refuses ms.on_get gets found
      choose Method.head = run_each refuses ms.on_get gets found
      choose Method.post = run_each refuses ms.on_post posts found
      choose Method.delete = run_each refuses ms.on_delete deletes found
      choose Method.put = run_each refuses none tt found
      choose Method.other = run_each refuses none tt found

  -- A layer that establishes `P` on its own establishes it of each route.
  pub route_layer-AllRoutes :
      (f : Handler → Handler)
      → P (refused a)
      → ((handler : Handler) (found : List Text) → P (f handler a found))
      → (rs : List Route) → AllRoutes (route_layer f rs)
  route_layer-AllRoutes f refuses each [] = tt
  route_layer-AllRoutes f refuses each (r ∷ rs) = (
    route_each refuses _ (covered r.methods.on_get) (covered r.methods.on_post)
        (covered r.methods.on_delete),
    route_layer-AllRoutes f refuses each rs,
  )
    where
      covered : (o : Option Handler) → Handlers (layered f o)
      covered none = tt
      covered (some handler) = each handler
