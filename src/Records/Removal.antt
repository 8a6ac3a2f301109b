-- ===== src/Records/Removal.antt =====
-- `delete_record` and `delete_attachment` of src/routes.rs.
use aardbin.Prelude.{List, Option, Text, [], codes, map, none, some, ℕ}
use aardbin.Http.{Headers, Response, err_response, internal}
use aardbin.Views.{attachment_view, attachments_part}
use aardbin.I18n.{Lang, as_str}
use aardbin.App.{Env, World, db_call, delete_file, delete_files, reading, send_event, writing}
use aardbin.Login.{detect_lang, rendered}
use aardbin.Records.{record_not_found}
use aardbin.Db
use aardbin.Db.{AttachmentRow, Tables}

abbrev pub attachment_not_found : Response
attachment_not_found = err_response 404 (codes "attachment not found")

-- What the call on the database gives; `done`, `absent` and `failed` are the responses, which
-- src/api.rs gives in JSON.
unfoldable pub deleted :
    Response → Response → Response → Option (Option (List Text)) × World → Response × World
deleted done absent failed (none, w) = (failed, w)
deleted done absent failed (some none, w) = (absent, w)
deleted done absent failed (some (some ids), w) = (done, send_event (delete_files ids w))

abbrev pub bare_ok : Response
bare_ok = record { status = 200; headers = []; body = [] }

unfoldable pub delete_record : Text → World → Response × World
unfolding deleted
delete_record id w =
    deleted bare_ok record_not_found internal (db_call (writing (Db.delete_record id)) w)

module _ (e : Env) where
  -- the list of the record's attachments that are left
  unfoldable pub relisted : Lang → Option (List AttachmentRow) × World → Response × World
  relisted lang (none, w) = (internal, w)
  relisted lang (some attachments, w) = (
    rendered (e.render lang (attachments_part (as_str lang) (map attachment_view attachments))),
    w,
  )

  unfoldable pub touched : Lang → Text → Option (Unit {0}) × World → Response × World
  unfolding relisted
  touched lang record_id (none, w) = (internal, w)
  touched lang record_id (some done, w) =
      relisted lang (db_call (reading (Db.list_attachments record_id)) (send_event w))

  unfoldable pub removed :
      Lang → Text → Text → ℕ → Option (Option AttachmentRow) × World → Response × World
  unfolding touched
  removed lang record_id id now (none, w) = (internal, w)
  removed lang record_id id now (some none, w) = (attachment_not_found, w)
  removed lang record_id id now (some (some row), w) =
      touched lang record_id
        (db_call (writing (λ t. (tt, Db.touch_record record_id now t))) (delete_file id w))

  unfoldable pub delete_attachment : Headers → Text → Text → ℕ → World → Response × World
  unfolding removed
  delete_attachment hs record_id id now w =
      removed (detect_lang hs) record_id id now
        (db_call (writing (Db.delete_attachment record_id id)) w)
