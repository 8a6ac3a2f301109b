-- ===== src/Router/Tests.antt =====
-- Requests to the application of src/main.rs on a small server, and the theorems at them.
use aardbin.Prelude.{
  List, Text, [], arith, as_bytes, codes, inl, none, refl, some, utf8_char, ℕ, ◌∷◌, ◌≡◌,
}
use aardbin.Http.{Method, Response, find_header, header_text}
use aardbin.App.{World}
use aardbin.Session.{extract_valid_session}
use aardbin.Fixtures.{server, small_form, store, store-IsConsistent}
use aardbin.Router.{Arrival, dispatch}
use aardbin.Router.Table.{answers, app, extract}
use aardbin.Router.Sealed.{HasNoCredentials, IsKept, answers-IsKept}
use aardbin.Router.Readers.{IsRead}
use aardbin.Router.Safe.{app-IsRead}
use aardbin.Router.Consistent.{answers-IsConsistent}
use aardbin.Db.Steps.{here}
use aardbin.Db.Integrity.{IsConsistent}
use aardbin.Guard.{origin_guard, require_auth}
use aardbin.Api.{with_auth}
use aardbin.Login.{post_login}
use aardbin.Ratelimit.{check, drain_old, entry, put_entry, record_failure, verdict}

abbrev plain : ℕ → Response
plain status = record { status = status; headers = []; body = [] }

abbrev ap_status : List Response → List ℕ
ap_status [] = []
ap_status (r ∷ rs) = r.status ∷ ap_status rs

-- a request that every extractor accepts
abbrev arrival : Method → List Text → Arrival
arrival method path = record {
  method = method;
  path = path;
  headers = [];
  peer = codes "10.0.0.9";
  checked_at = 1;
  failed_at = 2;
  now = 3;
  decode = some;
  error_query = some none;
  page_query = some none;
  list_query = some (none, none);
  inline_query = some none;
  login_form = some (codes "guess");
  lang_form = some (codes "en");
  multipart = some small_form;
  rejection = plain 400;
  not_found = plain 404;
  not_allowed = plain 405;
  static_file = plain 200;
  during = λ w. w;
}

abbrev outsider : List Arrival
outsider =
    arrival Method.post (codes "login" ∷ [])
    ∷ arrival Method.post (codes "records" ∷ codes "r1" ∷ codes "delete" ∷ [])
    ∷ arrival Method.delete (codes "api" ∷ codes "records" ∷ codes "r1" ∷ [])
    ∷ []

-- a server with nothing in it
abbrev empty_store : World
empty_store = record store { tables = record { records = []; attachments = [] } }

statuses : ap_status (answers server outsider store).0 ≡ 303 ∷ 303 ∷ 401 ∷ []
unfolding answers origin_guard find_header dispatch extract require_auth with_auth post_login check
    verdict drain_old entry as_bytes utf8_char extract_valid_session header_text record_failure
    put_entry
statuses = refl

outside : (method : Method) (path : List Text) → HasNoCredentials server (arrival method path)
unfolding extract_valid_session header_text find_header
outside method path = record { no_session = refl; no_key = λ h. ground (arith, h.sent) }

answers-IsKept_example :
    IsKept store (answers server outsider store).1
    × ((answers server outsider store).0 ≡ (answers server outsider empty_store).0)
answers-IsKept_example =
    answers-IsKept server outsider store empty_store (outside _ _, (outside _ _, (outside _ _, tt)))
      refl

abbrev peek : Arrival
peek = arrival Method.get (codes "api" ∷ codes "records" ∷ codes "r1" ∷ [])

app-IsRead_example : IsRead store (app server peek store).1
app-IsRead_example = app-IsRead server peek store (inl refl)

answers-IsConsistent_example : IsConsistent (answers server outsider store).1.tables
answers-IsConsistent_example =
    answers-IsConsistent server outsider store ((λ w. here), ((λ w. here), ((λ w. here), tt)))
      store-IsConsistent
