-- ===== src/Router/Table.antt =====
-- The table of routes of src/main.rs, and the application under its layers.
use aardbin.Prelude.{List, Option, Text, [], codes, none, some, ◌++◌, ◌∷◌}
use aardbin.Http.{Request, Response}
use aardbin.App.{Env, World}
use aardbin.Listing.{index, records_partial}
use aardbin.Router.{
  Arrival, Handler, Methods, Route, Segment, dispatch, lit, param, rest, route_layer,
}
use aardbin.Guard.{origin_guard, require_auth}
use aardbin.Login.{get_login, html, post_lang, post_login, post_logout}
use aardbin.Records.{create_record, edit_form, new_form, update_record}
use aardbin.Records.Downloads.{copy_record, download_attachment}
use aardbin.Records.Removal.{delete_attachment, delete_record}
use aardbin.Api.{
  api_create_record, api_delete_record, api_download_attachment, api_get_record, with_auth,
}
use aardbin.Api.Lists.{api_list_records}

-- an extractor in front of a handler
unfoldable pub extract :
    {A : Type 0} → Arrival → Option A → (A → World → Response × World) → World → Response × World
extract a none next w = (a.rejection, w)
extract a (some x) next w = next x w

unfoldable pub with_id :
    Arrival → List Text → (Text → World → Response × World) → World → Response × World
unfolding extract
with_id a [] next w = (a.rejection, w)
with_id a (id ∷ found) next w = extract a (a.decode id) next w

unfoldable pub with_ids :
    Arrival → List Text → (Text → Text → World → Response × World) → World → Response × World
unfolding extract with_id
with_ids a [] next w = (a.rejection, w)
with_ids a (id ∷ found) next w = extract a (a.decode id) (λ x. with_id a found (next x)) w

-- A panic of the handler closes the connection: no response comes, for which this stands.
abbrev pub no_response : Response
no_response = record { status = 0; headers = []; body = [] }

abbrev pub or_closed : Option Response × World → Response × World
or_closed (none, w) = (no_response, w)
or_closed (some resp, w) = (resp, w)

abbrev pub event_stream : Response
event_stream = record {
  status = 200;
  headers =
      (codes "content-type", codes "text/event-stream")
      ∷ (codes "cache-control", codes "no-cache")
      ∷ [];
  body = [];
}

abbrev pub no_methods : Methods
no_methods = record { on_get = none; on_post = none; on_delete = none }

abbrev pub on : List Segment → Methods → Route
on pattern methods = record { pattern = pattern; methods = methods }

abbrev pub getting : Handler → Methods
getting handler = record no_methods { on_get = some handler }

abbrev pub posting : Handler → Methods
posting handler = record no_methods { on_post = some handler }

abbrev pub request_of : Arrival → Request
request_of a = record { method = a.method; headers = a.headers }

module _ (e : Env) where
  -- the handlers behind their extractors
  abbrev on_index : Handler
  on_index a found w = or_closed (index e a.headers w)

  abbrev on_records_partial : Handler
  on_records_partial a found =
      extract a a.page_query (λ page w. or_closed (records_partial e a.headers page w))

  abbrev on_create_record : Handler
  on_create_record a found = extract a a.multipart (λ form. create_record e form a.headers a.now)

  abbrev on_new_form : Handler
  on_new_form a found = new_form e a.headers

  abbrev on_edit_form : Handler
  on_edit_form a found = with_id a found (λ id. edit_form e id a.headers)

  abbrev on_update_record : Handler
  on_update_record a found =
      with_id a found
        (λ id. extract a a.multipart (λ form. update_record e a.during id form a.headers a.now))

  abbrev on_delete_record : Handler
  on_delete_record a found = with_id a found delete_record

  abbrev on_copy_record : Handler
  on_copy_record a found = with_id a found (copy_record e)

  abbrev on_delete_attachment : Handler
  on_delete_attachment a found =
      with_ids a found (λ record_id id. delete_attachment e a.headers record_id id a.now)

  abbrev on_download : Handler
  on_download a found =
      with_id a found (λ id. extract a a.inline_query (λ inline. download_attachment inline id))

  abbrev on_events : Handler
  on_events a found w = (event_stream, w)

  abbrev on_healthz : Handler
  on_healthz a found w = (html (codes "ok"), w)

  abbrev on_get_login : Handler
  on_get_login a found = extract a a.error_query (λ error. get_login e a.headers error)

  abbrev on_post_login : Handler
  on_post_login a found =
      extract a a.login_form
        (λ key. post_login e a.peer a.checked_at a.failed_at a.now a.headers key)

  abbrev on_post_logout : Handler
  on_post_logout a found = post_logout e

  abbrev on_post_lang : Handler
  on_post_lang a found = extract a a.lang_form (λ lang w. (post_lang a.headers lang, w))

  abbrev on_static : Handler
  on_static a found w = (a.static_file, w)

  -- `ApiAuth` is the first extractor of each handler of the API.
  abbrev api : Arrival → (World → Response × World) → World → Response × World
  api a = with_auth e a.peer a.checked_at a.failed_at a.headers

  abbrev on_api_list : Handler
  on_api_list a found = api a (extract a a.list_query (λ q. api_list_records e q.0 q.1))

  abbrev on_api_create : Handler
  on_api_create a found =
      api a (extract a a.multipart (λ form. api_create_record e form a.headers a.now))

  abbrev on_api_get : Handler
  on_api_get a found = api a (with_id a found (api_get_record e))

  abbrev on_api_delete : Handler
  on_api_delete a found = api a (with_id a found (api_delete_record e))

  abbrev on_api_download : Handler
  on_api_download a found = api a (
      with_id a found
        (λ id. extract a a.inline_query (λ inline. api_download_attachment e inline id)))

  abbrev pub authenticated : Handler → Handler
  authenticated handler a found = require_auth e a.now (request_of a) (handler a found)

  -- the routes of the pages, in the order of the source
  unfoldable pub protected : List Route
  protected =
      on [] (getting on_index)
      ∷ on (lit (codes "records") ∷ [])
          (record (getting on_records_partial) { on_post = some on_create_record })
      ∷ on (lit (codes "records") ∷ lit (codes "new") ∷ []) (getting on_new_form)
      ∷ on (lit (codes "records") ∷ param ∷ lit (codes "edit") ∷ []) (getting on_edit_form)
      ∷ on (lit (codes "records") ∷ param ∷ []) (posting on_update_record)
      ∷ on (lit (codes "records") ∷ param ∷ lit (codes "delete") ∷ []) (posting on_delete_record)
      ∷ on (lit (codes "records") ∷ param ∷ lit (codes "copy") ∷ []) (getting on_copy_record)
      ∷ on
          (lit (codes "records")
            ∷ param
            ∷ lit (codes "attachments")
            ∷ param
            ∷ lit (codes "delete")
            ∷ [])
          (posting on_delete_attachment)
      ∷ on (lit (codes "attachments") ∷ param ∷ []) (getting on_download)
      ∷ on (lit (codes "events") ∷ []) (getting on_events)
      ∷ []

  unfoldable pub open_routes : List Route
  open_routes =
      on (lit (codes "healthz") ∷ []) (getting on_healthz)
      ∷ on (lit (codes "login") ∷ [])
          (record (getting on_get_login) { on_post = some on_post_login })
      ∷ on (lit (codes "logout") ∷ []) (posting on_post_logout)
      ∷ on (lit (codes "lang") ∷ []) (posting on_post_lang)
      ∷ on (lit (codes "api") ∷ lit (codes "records") ∷ [])
          (record (getting on_api_list) { on_post = some on_api_create })
      ∷ on (lit (codes "api") ∷ lit (codes "records") ∷ param ∷ [])
          (record (getting on_api_get) { on_delete = some on_api_delete })
      ∷ on (lit (codes "api") ∷ lit (codes "attachments") ∷ param ∷ []) (getting on_api_download)
      ∷ on (lit (codes "static") ∷ rest ∷ []) (getting on_static)
      ∷ []

  -- `app`: all routes under `origin_guard`, those of the pages under `require_auth` too
  unfoldable pub app : Arrival → World → Response × World
  unfolding protected open_routes
  app a =
      origin_guard (request_of a) (dispatch (open_routes ++ route_layer authenticated protected) a)

  -- requests in turn, with their answers
  unfoldable pub answers : List Arrival → World → List Response × World
  unfolding app
  answers [] w = ([], w)
  answers (a ∷ arrivals) w =
      let (resp, w') = app a w in let (later, end) = answers arrivals w' in (resp ∷ later, end)
