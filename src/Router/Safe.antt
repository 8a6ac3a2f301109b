-- ===== src/Router/Safe.antt =====
-- What the requests of each method may change, over the whole table of src/main.rs.
use mathlib.Core.Path.{subst}
use aardbin.Prelude.{List, Option, Text, inl, inr, refl, sym, ◌≡◌, ◌⊎◌}
use aardbin.Http.{Method, Response}
use aardbin.App.{Env, World, db_call, reading}
use aardbin.Router.{Arrival, Methods, chosen, route_layer, run}
use aardbin.Router.Table.{app, authenticated, open_routes, protected, request_of}
use aardbin.Router.Choice.{AllRoutes, AllRoutes-append, Handlers, dispatch-AllRoutes, run_each}
use aardbin.Router.Readers.{
  IsRead, IsRead-trans, api_get_record-IsRead, api_list_records-IsRead, copy_record-IsRead,
  download-IsRead, edit_form-IsRead, index-IsRead, nothing, reading-IsRead, records_partial-IsRead,
}
use aardbin.Router.Keeping.{
  IsStable, Keeps, Keeps-extract, Keeps-origin_guard, Keeps-require_auth, Keeps-with_auth,
  Keeps-with_id, idle,
}
use aardbin.Db
use aardbin.Db.{AttachmentRow}
use aardbin.Guard.{require_auth}
use aardbin.Login.{get_login}
use aardbin.Records.{new_form}
use aardbin.Records.Downloads.{download_attachment}
use aardbin.Api.{api_download_attachment, with_auth}

IsRead-IsStable : IsStable IsRead
IsRead-IsStable = record {
  trans = λ u v w. IsRead-trans;
  counted = λ w f. record { tables = refl; disk = refl; sent = refl; drawn = refl };
}

module _ (e : Env) (a : Arrival) where
  pub new_form-IsRead : Keeps IsRead (new_form e a.headers)
  unfolding new_form
  new_form-IsRead w = nothing

  pub get_login-IsRead : (error : Option Text) → Keeps IsRead (get_login e a.headers error)
  unfolding get_login
  get_login-IsRead error w = nothing

  pub download_attachment-IsRead :
      (inline : Option Text) (id : Text) → Keeps IsRead (download_attachment inline id)
  unfolding download_attachment
  download_attachment-IsRead inline id w =
      IsRead-trans (reading-IsRead (Db.get_attachment id) w)
        (download-IsRead _ _ _ inline id (db_call (reading (Db.get_attachment id)) w))

  pub api_download-IsRead :
      (inline : Option Text) (id : Text) → Keeps IsRead (api_download_attachment e inline id)
  unfolding api_download_attachment
  api_download-IsRead inline id w =
      IsRead-trans (reading-IsRead (Db.get_attachment id) w)
        (download-IsRead _ _ _ inline id (db_call (reading (Db.get_attachment id)) w))

module _ (e : Env) (a : Arrival) (safe : (a.method ≡ Method.get) ⊎ (a.method ≡ Method.head)) where
  -- For these methods it is enough to look at the handler of `get`.
  get_each :
      (ms : Methods)
      → Handlers a (Keeps IsRead) ms.on_get
      → (found : List Text) → Keeps IsRead (run a found (chosen a.method ms))
  get_each ms gets found =
      let got = run_each a (Keeps IsRead) (idle IsRead-IsStable) ms.on_get gets found in
      elim safe [
        | inl is_get ↦ subst (λ m. Keeps IsRead (run a found (chosen m ms))) (sym is_get) got
        | inr is_head ↦ subst (λ m. Keeps IsRead (run a found (chosen m ms))) (sym is_head) got
      ]

  protected-Keeps : AllRoutes a (Keeps IsRead) (route_layer (authenticated e) (protected e))
  unfolding protected
  protected-Keeps =
      let st = IsRead-IsStable in
      let behind : (next : World → Response × World)
          → Keeps IsRead next
          → Keeps IsRead (require_auth e a.now (request_of a) next) =
        Keeps-require_auth st e a.now (request_of a) in
      let by_id = λ (found : List Text). Keeps-with_id st a found in
      (
        get_each _ (λ found. behind _ (index-IsRead e a.headers)),
        (
          get_each _ (λ found. behind _ (
              Keeps-extract st a a.page_query _ (λ page. records_partial-IsRead e a.headers page))),
          (
            get_each _ (λ found. behind _ (new_form-IsRead e a)),
            (
              get_each _
                  (λ found. behind _ (by_id found _ (λ id. edit_form-IsRead e id a.headers))),
              (
                get_each _ tt,
                (
                  get_each _ tt,
                  (
                    get_each _ (λ found. behind _ (by_id found _ (copy_record-IsRead e))),
                    (
                      get_each _ tt,
                      (
                        get_each _ (λ found. behind _ (
                            by_id found _ (λ id.
                              Keeps-extract st a a.inline_query _
                                (λ inline. download_attachment-IsRead e a inline id)))),
                        (get_each _ (λ found. behind _ (idle st)), tt),
                      ),
                    ),
                  ),
                ),
              ),
            ),
          ),
        ),
      )

  open_routes-Keeps : AllRoutes a (Keeps IsRead) (open_routes e)
  unfolding open_routes
  open_routes-Keeps =
      let st = IsRead-IsStable in
      let api : (next : World → Response × World)
          → Keeps IsRead next
          → Keeps IsRead (with_auth e a.peer a.checked_at a.failed_at a.headers next) =
        Keeps-with_auth st e a.peer a.checked_at a.failed_at a.headers in
      let by_id = λ (found : List Text). Keeps-with_id st a found in
      (
        get_each _ (λ found. idle st),
        (
          get_each _ (λ found. Keeps-extract st a a.error_query _ (get_login-IsRead e a)),
          (
            get_each _ tt,
            (
              get_each _ tt,
              (
                get_each _ (λ found.
                    api _
                      (Keeps-extract st a a.list_query _ (λ q. api_list_records-IsRead e q.0 q.1))),
                (
                  get_each _ (λ found. api _ (by_id found _ (api_get_record-IsRead e))),
                  (
                    get_each _ (λ found. api _ (
                        by_id found _ (λ id.
                          Keeps-extract st a a.inline_query _
                            (λ inline. api_download-IsRead e a inline id)))),
                    (get_each _ (λ found. idle st), tt),
                  ),
                ),
              ),
            ),
          ),
        ),
      )

-- A GET or HEAD request, to whatever path, with or without a session or a key, stores and removes
-- nothing: the records, the attachments, the files and the broadcasts are as before. What a page or
-- a link of another site can make a browser send by GET changes nothing.
pub app-IsRead :
    (e : Env) (a : Arrival) (w : World)
    → (a.method ≡ Method.get) ⊎ (a.method ≡ Method.head)
    → IsRead w (app e a w).1
unfolding app
app-IsRead e a w safe =
    let st = IsRead-IsStable in
    Keeps-origin_guard st (request_of a) _
      (dispatch-AllRoutes a (Keeps IsRead) (idle st) _ (
        AllRoutes-append a (Keeps IsRead) (open_routes e)
          (route_layer (authenticated e) (protected e)) (open_routes-Keeps e a safe)
          (protected-Keeps e a safe)))
      w
