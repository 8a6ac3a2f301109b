-- ===== src/Records.antt =====
-- The handlers of src/routes.rs that create, change, show and delete records and attachments.
-- `now` is the time of day in seconds.
pub mod Removal
pub mod Removed
pub mod Creation
pub mod Saved
pub mod Attached
pub mod Created
pub mod Posted
pub mod Updates
pub mod Downloads
pub mod Inline
mod Tests
use aardbin.Prelude.{
  Bool, List, Option, Text, [], as_i64, codes, false, if◌then◌else◌, map, none, not, some, true, ℕ,
  ◌++◌, ◌+◌, ◌∷◌,
}
use aardbin.Prelude.Decimal.{parse_u64}
use aardbin.Http.{Headers, Response, err_response, header_text, internal}
use aardbin.Views.{FormView, attachment_view, form_page}
use aardbin.I18n.{Lang, as_str}
use aardbin.Files.{human_size}
use aardbin.Config.{Config, max_attachments_per_record}
use aardbin.Crypto.{decrypt, encrypt}
use aardbin.App.{
  Env, Result, World, constrained, db_call, delete_file, err, ok, reading, send_event, writing,
}
use aardbin.Form.{Multipart, ParsedRecordForm, PendingUpload, cleanup_uploads, parse_record_form}
use aardbin.Login.{detect_lang, rendered}
use aardbin.Db
use aardbin.Db.{AttachmentRow, RecordRow, Tables, is_some}

-- `.parse::<u64>().ok()` of the header
unfoldable pub content_length : Headers → Option ℕ
content_length hs = elim (header_text (codes "content-length") hs) [
  | none ↦ none
  | some v ↦ parse_u64 v
]

abbrev pub row_of : Text → ℕ → PendingUpload → AttachmentRow
row_of record_id ts u = record {
  id = u.id;
  record_id = record_id;
  original_filename = u.original_filename;
  size_bytes = u.size;
  mime_type = u.mime_type;
  created_at = ts;
}

-- `true` is `Ok(())`. The first insert that fails ends the loop, with the file of its upload.
unfoldable pub insert_uploads : Text → List PendingUpload → ℕ → World → Bool × World
insert_uploads record_id [] ts w = (true, w)
insert_uploads record_id (u ∷ us) ts w =
    let attempt = db_call (constrained (Db.insert_attachment (row_of record_id ts u))) w in
    let more = insert_uploads record_id us ts attempt.1 in
    if is_some attempt.0 then more else (false, delete_file u.id attempt.1)

-- HX-Redirect to the list
abbrev pub saved : Response
saved = record { status = 204; headers = (codes "hx-redirect", codes "/") ∷ []; body = [] }

abbrev pub record_not_found : Response
record_not_found = err_response 404 (codes "record not found")

module _ (e : Env) where
  abbrev pub decrypt_row : RecordRow → Option (Text × Text)
  decrypt_row row = decrypt e.cipher e.cfg.crypto_key row.blob

  -- the result of `insert_uploads`
  unfoldable pub inserted : Text → Bool × World → Option Text × World
  inserted id (true, w) = (some id, send_event w)
  inserted id (false, w) = (none, (db_call (writing (Db.delete_record id)) w).1)

  -- A parsed form becomes a record with attachments: its id, or `none` for an internal error.
  unfoldable pub save_new : ParsedRecordForm → ℕ → World → Option Text × World
  save_new form now w =
      let id = e.uuid w.drawn in
      let blob =
        encrypt e.cipher e.cfg.crypto_key (e.nonce (w.drawn + 1)) form.title form.content in
      let created =
        db_call (constrained (Db.create_record id blob now)) (record w { drawn = w.drawn + 2 }) in
      if is_some created.0
      then inserted id (insert_uploads id form.uploads now created.1)
      else (none, cleanup_uploads form.uploads created.1)

  abbrev pub answer {ℓ} : {A : Type ℓ} → Response → (A → Response) → Option A → Response
  answer failed done none = failed
  answer failed done (some a) = done a

  -- `failed` and `done` are the responses, which src/api.rs gives in JSON
  unfoldable pub save_parsed :
      Response → (Text → Response) → ℕ → Result ParsedRecordForm × World → Response × World
  unfolding save_new
  save_parsed failed done now (err resp, w) = (resp, w)
  save_parsed failed done now (ok form, w) =
      let r = save_new form now w in (answer failed done r.0, r.1)

  unfoldable pub create_record : Multipart → Headers → ℕ → World → Response × World
  unfolding save_parsed content_length
  create_record form hs now w =
      save_parsed internal (λ id. saved) now (parse_record_form e form (content_length hs) w)

  -- the result of `insert_uploads`; on an error the old blob and its time are written back
  unfoldable pub updated : RecordRow → Text → Bool × World → Response × World
  updated row id (true, w) = (saved, send_event w)
  updated row id (false, w) =
      (internal, (db_call (writing (Db.update_record id row.blob row.updated_at)) w).1)

  -- the three arms of `match s.db.update_record(...)`
  unfoldable pub overwritten :
      RecordRow → Text → ParsedRecordForm → ℕ → Option Bool × World → Response × World
  unfolding updated insert_uploads
  overwritten row id form now (none, w) = (internal, cleanup_uploads form.uploads w)
  overwritten row id form now (some false, w) = (record_not_found, w)
  overwritten row id form now (some true, w) = updated row id (insert_uploads id form.uploads now w)

  unfoldable pub update_parsed :
      RecordRow → Text → ℕ → Result ParsedRecordForm × World → Response × World
  unfolding overwritten
  update_parsed row id now (err resp, w) = (resp, w)
  update_parsed row id now (ok form, w) =
      let blob = encrypt e.cipher e.cfg.crypto_key (e.nonce w.drawn) form.title form.content in
      overwritten row id form now
        (db_call (writing (Db.update_record id blob now)) (record w { drawn = w.drawn + 1 }))

  abbrev pub locked_record : Response
  locked_record = err_response 422 (codes "Unable to decrypt this record; refusing to overwrite.")

  -- What `get_record` gives. `others` is what other requests do to the tables while the form is
  -- received.
  unfoldable pub update_found :
      (World → World)
      → Text
      → Multipart
      → Headers
      → ℕ
      → Option (Option RecordRow) × World
      → Response × World
  unfolding update_parsed content_length
  update_found others id form hs now (none, w) = (internal, w)
  update_found others id form hs now (some none, w) = (record_not_found, w)
  update_found others id form hs now (some (some row), w) =
      let parsed = parse_record_form e form (content_length hs) w in
      if is_some (decrypt_row row)
      then update_parsed row id now (parsed.0, others parsed.1)
      else (locked_record, w)

  unfoldable pub update_record :
      (World → World) → Text → Multipart → Headers → ℕ → World → Response × World
  unfolding update_found
  update_record others id form hs now w =
      update_found others id form hs now (db_call (reading (Db.get_record id)) w)

  abbrev pub limits_of : FormView → FormView
  limits_of view = record view {
    max_attachment_human = human_size (as_i64 e.cfg.max_attachment_bytes);
    max_attachment_bytes = e.cfg.max_attachment_bytes;
    max_attachments = max_attachments_per_record;
  }

  abbrev pub empty_view : Lang → FormView
  empty_view lang = record {
    lang = as_str lang;
    mode = codes "new";
    action = codes "/records";
    id = [];
    title = [];
    content = [];
    attachments = [];
    max_attachment_human = human_size (as_i64 e.cfg.max_attachment_bytes);
    max_attachment_bytes = e.cfg.max_attachment_bytes;
    max_attachments = max_attachments_per_record;
  }

  unfoldable pub new_form : Headers → World → Response × World
  new_form hs w =
      let lang = detect_lang hs in (rendered (e.render lang (form_page (empty_view lang))), w)

  abbrev edit_view : Lang → Text → Text × Text → List AttachmentRow → FormView
  edit_view lang id text attachments = record (empty_view lang) {
    mode = codes "edit";
    action = codes "/records/" ++ id;
    id = id;
    title = text.0;
    content = text.1;
    attachments = map attachment_view attachments;
  }

  -- what `list_attachments` gives
  unfoldable pub edit_listed :
      Lang → Text → Text × Text → Option (List AttachmentRow) × World → Response × World
  edit_listed lang id text (none, w) = (internal, w)
  edit_listed lang id text (some attachments, w) =
      (rendered (e.render lang (form_page (edit_view lang id text attachments))), w)

  -- what `decrypt` gives
  unfoldable pub edit_decrypted : Lang → Text → Option (Text × Text) → World → Response × World
  unfolding edit_listed
  edit_decrypted lang id none w =
      (err_response 422 (codes "Unable to decrypt this record; editing is disabled."), w)
  edit_decrypted lang id (some text) w =
      edit_listed lang id text (db_call (reading (Db.list_attachments id)) w)

  unfoldable pub edit_found : Lang → Text → Option (Option RecordRow) × World → Response × World
  unfolding edit_decrypted
  edit_found lang id (none, w) = (internal, w)
  edit_found lang id (some none, w) = (record_not_found, w)
  edit_found lang id (some (some row), w) = edit_decrypted lang id (decrypt_row row) w

  unfoldable pub edit_form : Text → Headers → World → Response × World
  unfolding edit_found
  edit_form id hs w = edit_found (detect_lang hs) id (db_call (reading (Db.get_record id)) w)
