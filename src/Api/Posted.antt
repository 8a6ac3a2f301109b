-- ===== src/Api/Posted.antt =====
-- A record that is posted to src/api.rs as a title, a content and files, and read back.
use mathlib.Core.List.{Perm, map-map}
use mathlib.Core.Path.{subst}
use aardbin.Prelude.{Text, [], ap, length, map, none, refl, sym, trim, ℕ, ◌∙◌, ◌≡◌}
use aardbin.Views.{ApiAttachmentMeta, ApiRecord, created_json, record_json}
use aardbin.I18n.{en}
use aardbin.Render.Titles.{IsCut, truncate_chars-IsCut}
use aardbin.Render.{display_title, truncate_chars}
use aardbin.App.{Env, World, ok}
use aardbin.Form.{Multipart, ParsedRecordForm, parse_record_form}
use aardbin.Form.Fields.{AllFiles, IsRead, file_names, page_form, page_form-IsRead}
use aardbin.Form.Untouched.{parse_record_form-SameRest}
use aardbin.Records.{content_length}
use aardbin.Records.Attached.{list_attachments-attached, row_names}
use aardbin.Records.Creation.{attached}
use aardbin.Records.Saved.{IsSaved}
use aardbin.Api.{api_attachment, api_create_record, api_get_record, json}
use aardbin.Api.Trip.{api_get_record-create, record_of}
use aardbin.Db
use aardbin.Db.{get_record, is_some}
use aardbin.Db.Integrity.{IsConsistent}
use aardbin.Http.{Headers}
use aardbin.Crypto.Laws.{CipherLaws}

-- The record as it was posted: its title as it is displayed, its content, and each file by its name.
pub record IsPosted (title content : Text) (files : Multipart) (id : Text) (r : ApiRecord)
    : Type 0 where
  pub named : r.id ≡ id
  pub titled : (t : Text) × IsCut (trim title) 200 t × (r.title ≡ (display_title t content en).0)
  pub content_kept : r.content ≡ content
  pub files_listed :
      Perm (map (λ (m : ApiAttachmentMeta). m.original_filename) r.attachments) (file_names files)

module _ (e : Env) (now : ℕ) where
  posted :
      (title content : Text) (files : Multipart) (f : ParsedRecordForm) (id : Text) (w v : World)
      → IsConsistent w.tables
      → get_record id w.tables ≡ none
      → IsRead e title content files f
      → (w' : World) → IsSaved e f now w id w'
      → v.tables ≡ w'.tables
      → IsPosted title content files id (record_of e now id f (Db.list_attachments id v.tables))
  unfolding get_record
  posted title content files f id w v good free read w' s same = record {
    named = refl;
    titled = (
      truncate_chars (trim title) 200,
      truncate_chars-IsCut (trim title) 200,
      ap (λ t. (display_title t f.content en).0) read.title_read
          ∙ ap (λ c. (display_title (truncate_chars (trim title) 200) c en).0) read.content_read,
    );
    content_kept = read.content_read;
    files_listed =
        subst (λ l. Perm l (file_names files))
          (sym (
            map-map (λ (m : ApiAttachmentMeta). m.original_filename) (api_attachment e)
              (Db.list_attachments id v.tables)))
          (subst (Perm (row_names (Db.list_attachments id v.tables))) read.names_read (
            list_attachments-attached id now f.uploads w.tables v.tables good (ap is_some free) (
              ap (λ (t : Db.Tables). t.attachments) same
              ∙ s.attachments
              ∙ ap (λ i. attached i now f.uploads w.tables.attachments) (sym s.named))));
  }

  -- Let the cipher open what it seals, with nonces of twelve bytes, and the tables be consistent. If a
  -- form of a title, a content and any number of files is accepted and `POST /api/records` answers
  -- 201, then the answer names a record by an identifier that no record had. As long as the tables
  -- stay as they are and reads succeed, `GET /api/records/{id}` answers 200 with that identifier, the
  -- content exactly as it was posted, the title as it is displayed once it is trimmed and, beyond 200
  -- characters, cut to them and an ellipsis, and one attachment by the name of each file that was posted, in some order, and no
  -- other.
  pub api_get_record-IsPosted :
      (title content : Text) (files : Multipart) (hs : Headers) (w : World) (f : ParsedRecordForm)
      → CipherLaws e.cipher
      → ((i : ℕ) → length (e.nonce i) ≡ 12)
      → IsConsistent w.tables
      → AllFiles files
      → (parse_record_form e (page_form title content files) (content_length hs) w).0 ≡ ok f
      → (api_create_record e (page_form title content files) hs now w).0.status ≡ 201
      → (id : Text) × (get_record id w.tables ≡ none)
        × ((api_create_record e (page_form title content files) hs now w).0
            ≡ json e 201 (created_json id))
        × ((v : World)
            → v.tables ≡ (api_create_record e (page_form title content files) hs now w).1.tables
            → v.faults.db ≡ []
            → (r : ApiRecord) × ((api_get_record e id v).0 ≡ json e 200 (record_json r))
              × IsPosted title content files id r)
  api_get_record-IsPosted title content files hs w f laws twelve good all parsed made =
      let form = page_form title content files in
      let u = (parse_record_form e form (content_length hs) w).1 in
      let (id, _, s, next, answer, later) =
        api_get_record-create e now form hs w f laws twelve parsed made in
      let same = (parse_record_form-SameRest e form (content_length hs) w).tables in
      let read = page_form-IsRead e title content files (content_length hs) w f all parsed in
      (
        id,
        ap (get_record id) (sym same) ∙ s.was_free,
        answer,
        λ v tables calm. (
          record_of e now id f (Db.list_attachments id v.tables),
          later v tables calm,
          posted title content files f id u v (subst IsConsistent (sym same) good) s.was_free read _
              s (tables ∙ ap (λ x. x.tables) next),
        ),
      )
