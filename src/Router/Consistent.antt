-- ===== src/Router/Consistent.antt =====
-- Every request of src/main.rs, of any method and to any path, and the constraints of the tables.
use aardbin.Prelude.{All, List, Text, [], refl, ◌∷◌}
use aardbin.Http.{Response, internal}
use aardbin.App.{Env, World, db_call, reading, writing}
use aardbin.Guard.{require_auth}
use aardbin.Login.{detect_lang, post_logout}
use aardbin.Form.{Multipart}
use aardbin.Records.{content_length, create_record, saved, update_record}
use aardbin.Records.Removal.{delete_attachment, delete_record, deleted}
use aardbin.Api.{api_create_record, api_delete_record, with_auth}
use aardbin.Server.Statements.{
  Reach-eq, Reach-trans, Serves, delete_call-Serves, parsed_form-Serves, reading-Serves,
  update_found-Serves, writing-Serves,
}
use aardbin.Server.Constraints.{deleted-Serves, removed-Serves}
use aardbin.Router.{Arrival, route_layer}
use aardbin.Router.Table.{answers, app, authenticated, open_routes, protected, request_of}
use aardbin.Router.Choice.{AllRoutes, AllRoutes-append, dispatch-AllRoutes, route_each}
use aardbin.Router.Readers.{
  IsRead, api_get_record-IsRead, api_list_records-IsRead, copy_record-IsRead, edit_form-IsRead,
  index-IsRead, records_partial-IsRead,
}
use aardbin.Router.Keeping.{
  IsStable, Keeps, Keeps-extract, Keeps-origin_guard, Keeps-post_login, Keeps-require_auth,
  Keeps-with_auth, Keeps-with_id, Keeps-with_ids, idle,
}
use aardbin.Router.Safe.{
  api_download-IsRead, download_attachment-IsRead, get_login-IsRead, new_form-IsRead,
}
use aardbin.Db
use aardbin.Db.{AttachmentRow, Tables}
use aardbin.Db.Integrity.{IsConsistent}
use aardbin.Db.Steps
use aardbin.Db.Steps.{Reach, here, Reach-IsConsistent}

Serves-IsStable : IsStable Serves
Serves-IsStable = record { trans = λ u v w. Reach-trans; counted = λ w f. here }

read : {w w' : World} → IsRead w w' → Serves w w'
read h = Reach-eq here h.tables

abbrev pub IsSound : Arrival → Type 0
IsSound a = (w : World) → Serves w (a.during w)

module _ (e : Env) (a : Arrival) where
  removing :
      (id : Text) (done absent failure : Response) (w : World)
      → Serves w (deleted done absent failure (db_call (writing (Db.delete_record id)) w)).1
  removing id done absent failure w =
      Reach-trans (delete_call-Serves id w)
        (deleted-Serves done absent failure (db_call (writing (Db.delete_record id)) w))

  create_record-Serves : (form : Multipart) → Keeps Serves (create_record e form a.headers a.now)
  unfolding create_record
  create_record-Serves form w =
      parsed_form-Serves e internal (λ id. saved) form (content_length a.headers) a.now w

  api_create_record-Serves :
      (form : Multipart) → Keeps Serves (api_create_record e form a.headers a.now)
  unfolding api_create_record
  api_create_record-Serves form w = parsed_form-Serves e _ _ form (content_length a.headers) a.now w

  update_record-Serves :
      IsSound a
      → (id : Text) (form : Multipart)
      → Keeps Serves (update_record e a.during id form a.headers a.now)
  unfolding update_record
  update_record-Serves sound id form w = Reach-trans (reading-Serves (Db.get_record id) w) (
      update_found-Serves e a.during id form a.headers a.now
        (db_call (reading (Db.get_record id)) w) sound)

  delete_record-Serves : (id : Text) → Keeps Serves (delete_record id)
  unfolding delete_record
  delete_record-Serves id = removing id _ _ _

  api_delete_record-Serves : (id : Text) → Keeps Serves (api_delete_record e id)
  unfolding api_delete_record
  api_delete_record-Serves id = removing id _ _ _

  delete_attachment-Serves :
      (record_id id : Text) → Keeps Serves (delete_attachment e a.headers record_id id a.now)
  unfolding delete_attachment
  delete_attachment-Serves record_id id w =
      Reach-trans
        (writing-Serves (Db.delete_attachment record_id id) w (Steps.detached record_id id refl))
        (removed-Serves e (detect_lang a.headers) record_id id a.now
          (db_call (writing (Db.delete_attachment record_id id)) w))

  post_logout-Serves : Keeps Serves (post_logout e)
  unfolding post_logout
  post_logout-Serves w = here

  protected-Serves :
      IsSound a → AllRoutes a (Keeps Serves) (route_layer (authenticated e) (protected e))
  unfolding protected
  protected-Serves sound =
      let st = Serves-IsStable in
      let each = route_each a (Keeps Serves) (idle st) in
      let behind : (next : World → Response × World)
          → Keeps Serves next
          → Keeps Serves (require_auth e a.now (request_of a) next) =
        Keeps-require_auth st e a.now (request_of a) in
      let by_id = λ (found : List Text). Keeps-with_id st a found in
      (
        each _ (λ found. behind _ (λ w. read (index-IsRead e a.headers w))) tt tt,
        (
          each _
              (λ found. behind _ (
                Keeps-extract st a a.page_query _
                  (λ page. λ w. read (records_partial-IsRead e a.headers page w))))
              (λ found. behind _ (Keeps-extract st a a.multipart _ create_record-Serves)) tt,
          (
            each _ (λ found. behind _ (λ w. read (new_form-IsRead e a w))) tt tt,
            (
              each _
                  (λ found.
                    behind _ (by_id found _ (λ id. λ w. read (edit_form-IsRead e id a.headers w))))
                  tt tt,
              (
                each _ tt
                    (λ found. behind _ (
                      by_id found _
                        (λ id. Keeps-extract st a a.multipart _ (update_record-Serves sound id))))
                    tt,
                (
                  each _ tt (λ found. behind _ (by_id found _ delete_record-Serves)) tt,
                  (
                    each _
                        (λ found.
                          behind _ (by_id found _ (λ id. λ w. read (copy_record-IsRead e id w))))
                        tt tt,
                    (
                      each _ tt
                          (λ found. behind _ (Keeps-with_ids st a found _ delete_attachment-Serves))
                          tt,
                      (
                        each _
                            (λ found. behind _ (
                              by_id found _ (λ id. Keeps-extract st a a.inline_query _ (λ inline.
                                λ w. read (download_attachment-IsRead e a inline id w)))))
                            tt tt,
                        (each _ (λ found. behind _ (idle st)) tt tt, tt),
                      ),
                    ),
                  ),
                ),
              ),
            ),
          ),
        ),
      )

  open_routes-Serves : AllRoutes a (Keeps Serves) (open_routes e)
  unfolding open_routes
  open_routes-Serves =
      let st = Serves-IsStable in
      let each = route_each a (Keeps Serves) (idle st) in
      let api : (next : World → Response × World)
          → Keeps Serves next
          → Keeps Serves (with_auth e a.peer a.checked_at a.failed_at a.headers next) =
        Keeps-with_auth st e a.peer a.checked_at a.failed_at a.headers in
      let by_id = λ (found : List Text). Keeps-with_id st a found in
      (
        each _ (λ found. idle st) tt tt,
        (
          each _
              (λ found.
                Keeps-extract st a a.error_query _
                  (λ error. λ w. read (get_login-IsRead e a error w)))
              (λ found.
                Keeps-extract st a a.login_form _
                  (Keeps-post_login st e a.peer a.checked_at a.failed_at a.now a.headers))
              tt,
          (
            each _ tt (λ found. post_logout-Serves) tt,
            (
              each _ tt (λ found. Keeps-extract st a a.lang_form _ (λ lang. idle st)) tt,
              (
                each _
                    (λ found. api _ (
                      Keeps-extract st a a.list_query _
                        (λ q. λ w. read (api_list_records-IsRead e q.0 q.1 w))))
                    (λ found. api _ (Keeps-extract st a a.multipart _ api_create_record-Serves)) tt,
                (
                  each _
                      (λ found.
                        api _ (by_id found _ (λ id. λ w. read (api_get_record-IsRead e id w))))
                      tt (λ found. api _ (by_id found _ api_delete_record-Serves)),
                  (
                    each _
                        (λ found. api _ (
                          by_id found _ (λ id.
                            Keeps-extract st a a.inline_query _
                              (λ inline. λ w. read (api_download-IsRead e a inline id w)))))
                        tt tt,
                    (each _ (λ found. idle st) tt tt, tt),
                  ),
                ),
              ),
            ),
          ),
        ),
      )

  app-Serves : IsSound a → Keeps Serves (app e a)
  unfolding app
  app-Serves sound =
      let st = Serves-IsStable in
      Keeps-origin_guard st (request_of a) _ (
        dispatch-AllRoutes a (Keeps Serves) (idle st) _ (
          AllRoutes-append a (Keeps Serves) (open_routes e)
            (route_layer (authenticated e) (protected e)) open_routes-Serves
            (protected-Serves sound)))

-- From consistent tables, any requests in turn, of any method, to any path and with any contents,
-- whatever calls on the database or on files fail, lead to tables in which the ids of records and of
-- attachments are distinct and every attachment has its record, if what runs while the form of an
-- update arrives changes the tables by the statements of src/db.rs alone, as each request does.
pub answers-IsConsistent :
    (e : Env) (arrivals : List Arrival) (w : World)
    → All IsSound arrivals
    → IsConsistent w.tables
    → IsConsistent (answers e arrivals w).1.tables
unfolding answers
answers-IsConsistent e [] w h good = good
answers-IsConsistent e (a ∷ arrivals) w (sound, h) good =
    answers-IsConsistent e arrivals (app e a w).1 h
      (Reach-IsConsistent (app-Serves e a sound w) good)
