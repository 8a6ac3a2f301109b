-- ===== src/Api.antt =====
-- src/api.rs: the JSON endpoints. `ApiAuth` runs before a handler, which sees only the requests
-- that it lets through.
pub mod Lists
pub mod Auth
pub mod Trip
pub mod Posted
mod Tests
use aardbin.Prelude.{
  List, Option, Text, [], codes, if◌then◌else◌, map, none, not, some, strip_prefix, ℕ, ◌++◌, ◌∷◌,
}
use aardbin.Prelude.Decimal.{show_u64}
use aardbin.Http.{Headers, Response, header_text}
use aardbin.Views.{ApiAttachmentMeta, Json, created_json, deleted_json, error_json, record_json}
use aardbin.I18n.{en}
use aardbin.Render.{display_title}
use aardbin.Ratelimit.{IpAddr, Verdict, allowed, as_secs, check, locked, record_failure}
use aardbin.Form.{Multipart, parse_record_form}
use aardbin.App.{Env, World, db_call, reading, writing}
use aardbin.Login.{key_matches}
use aardbin.Records.{content_length, decrypt_row, save_parsed}
use aardbin.Records.Removal.{delete_record, deleted}
use aardbin.Records.Downloads.{download}
use aardbin.Db
use aardbin.Db.{AttachmentRow, RecordRow}

module _ (e : Env) where
  unfoldable pub json_error : ℕ → Text → Response
  json_error status msg = record {
    status = status;
    headers = (codes "content-type", codes "application/json") ∷ [];
    body = e.to_json (error_json msg);
  }

  -- `Json(...)`
  abbrev pub json : ℕ → Json → Response
  json status value = record {
    status = status;
    headers = (codes "content-type", codes "application/json") ∷ [];
    body = e.to_json value;
  }

  unfoldable pub locked_out : ℕ → Response
  locked_out remaining = record {
    status = 429;
    headers = (codes "retry-after", show_u64 (as_secs remaining)) ∷ [];
    body = e.to_json (
        error_json (
          codes "Too many attempts. Try again in "
          ++ (show_u64 (as_secs remaining) ++ codes " seconds.")));
  }

  -- the Bearer token of the Authorization header
  unfoldable pub bearer : Option Text → Option Text
  bearer none = none
  bearer (some header) = strip_prefix (codes "Bearer ") header

  unfoldable pub checked_token : IpAddr → ℕ → Option Text → World → Option Response × World
  unfolding json_error bearer strip_prefix
  checked_token ip failed_at none w =
      (some (json_error 401 (codes "missing Authorization header")), w)
  checked_token ip failed_at (some header) w = elim (bearer (some header)) [
    | none ↦ (some (json_error 401 (codes "invalid Authorization format")), w)
    | some token ↦ if key_matches e token then (none, w) else (
      some (json_error 401 (codes "invalid access key")),
      record w { failures = record_failure ip failed_at w.failures },
    )
  ]

  unfoldable pub api_verdict : IpAddr → ℕ → Option Text → World → Verdict → Option Response × World
  unfolding checked_token locked_out
  api_verdict ip failed_at header w (locked remaining) = (some (locked_out remaining), w)
  api_verdict ip failed_at header w allowed = checked_token ip failed_at header w

  -- `ApiAuth`: `none` lets the request through, a response rejects it. The address of the peer is
  -- always there under the server of src/main.rs.
  unfoldable pub api_auth : IpAddr → ℕ → ℕ → Headers → World → Option Response × World
  unfolding api_verdict
  api_auth ip checked_at failed_at hs w =
      let checked = check ip checked_at w.failures in
      api_verdict ip failed_at (header_text (codes "authorization") hs)
        (record w { failures = checked.1 }) checked.0

  -- the extractor, then the handler
  unfoldable pub with_auth :
      IpAddr → ℕ → ℕ → Headers → (World → Response × World) → World → Response × World
  unfolding api_auth
  with_auth ip checked_at failed_at hs handler w =
      let (rejected, w') = api_auth ip checked_at failed_at hs w in
      elim rejected [ none ↦ handler w' | some resp ↦ (resp, w') ]

  abbrev pub api_attachment : AttachmentRow → ApiAttachmentMeta
  api_attachment a = record {
    id = a.id;
    original_filename = a.original_filename;
    size_bytes = a.size_bytes;
    mime_type = a.mime_type;
  }

  unfoldable pub decrypt_record : RecordRow → List AttachmentRow → Option (Text × Text) → Response
  unfolding json_error
  decrypt_record row attachments none = json_error 422 (codes "undecryptable")
  decrypt_record row attachments (some (title, content)) = json 200 (
      record_json (record {
        id = row.id;
        title = (display_title title content en).0;
        content = content;
        untitled = (display_title title content en).1;
        updated_at = row.updated_at;
        created_at = row.created_at;
        attachments = map api_attachment attachments;
      }))

  unfoldable pub api_create_record : Multipart → Headers → ℕ → World → Response × World
  unfolding json_error
  api_create_record form hs now w =
      save_parsed e (json_error 500 (codes "internal error")) (λ id. json 201 (created_json id)) now
        (parse_record_form e form (content_length hs) w)

  unfoldable pub get_listed : RecordRow → Option (List AttachmentRow) × World → Response × World
  unfolding json_error decrypt_record
  get_listed row (none, w) = (json_error 500 (codes "internal error"), w)
  get_listed row (some attachments, w) = (decrypt_record row attachments (decrypt_row e row), w)

  unfoldable pub get_found : Text → Option (Option RecordRow) × World → Response × World
  unfolding json_error get_listed
  get_found id (none, w) = (json_error 500 (codes "internal error"), w)
  get_found id (some none, w) = (json_error 404 (codes "record not found"), w)
  get_found id (some (some row), w) = get_listed row (db_call (reading (Db.list_attachments id)) w)

  unfoldable pub api_get_record : Text → World → Response × World
  unfolding get_found
  api_get_record id w = get_found id (db_call (reading (Db.get_record id)) w)

  unfoldable pub api_delete_record : Text → World → Response × World
  unfolding json_error
  api_delete_record id w =
      deleted (json 200 deleted_json) (json_error 404 (codes "record not found"))
        (json_error 500 (codes "internal error")) (db_call (writing (Db.delete_record id)) w)

  unfoldable pub api_download_attachment : Option Text → Text → World → Response × World
  unfolding json_error
  api_download_attachment inline id w =
      download (json_error 404 (codes "attachment not found"))
        (json_error 404 (codes "attachment file missing")) (json_error 500 (codes "internal error"))
        inline id (db_call (reading (Db.get_attachment id)) w)
