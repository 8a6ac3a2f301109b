-- ===== src/Api/Trip.antt =====
-- A record that `api_create_record` of src/api.rs has made, read back by `api_get_record`.
use aardbin.Prelude.{
  List, Option, Text, [], ap, arith, codes, length, map, none, refl, some, sym, text_eq_iff, ℕ, ◌+◌,
  ◌∙◌, ◌≡◌,
}
use aardbin.Views.{ApiRecord, created_json, record_json}
use aardbin.I18n.{en}
use aardbin.Render.{display_title}
use aardbin.App.{Env, Result, World, db_call, err, ok, reading, rest_faults}
use aardbin.Form.{Multipart, ParsedRecordForm, parse_record_form}
use aardbin.Records.{answer, content_length, decrypt_row, save_new, save_parsed}
use aardbin.Records.Saved.{IsSaved, fresh_id, found_first, new_row, save_new-IsSaved, sealed_form}
use aardbin.Api.{
  api_attachment, api_create_record, api_get_record, decrypt_record, get_found, get_listed, json,
  json_error,
}
use aardbin.Db
use aardbin.Db.{AttachmentRow, RecordRow, Tables, get_record}
use aardbin.Http.{Headers, Response}
use aardbin.Crypto.Laws.{CipherLaws}

-- A read that does not fail.
read_lem :
    {A : Type 0} (f : Tables → A) (v : World)
    → v.faults.db ≡ []
    → (v' : World) × (db_call (reading f) v ≡ (some (f v.tables), v'))
      × (v'.tables ≡ v.tables)
      × (v'.faults.db ≡ [])
unfolding db_call
read_lem f v calm = (
  record v { faults = record (v.faults) { db = rest_faults v.faults.db } },
  rw (calm, db_call) refl,
  refl,
  rw calm refl,
)

module _ (e : Env) (now : ℕ) where
  -- what the API shows of a record made of a form
  abbrev pub record_of : Text → ParsedRecordForm → List AttachmentRow → ApiRecord
  record_of id f attachments = record {
    id = id;
    title = (display_title f.title f.content en).0;
    content = f.content;
    untitled = (display_title f.title f.content en).1;
    updated_at = now;
    created_at = now;
    attachments = map (api_attachment e) attachments;
  }

  get_lem :
      (id : Text) (row : RecordRow) (title content : Text) (v : World)
      → v.faults.db ≡ []
      → get_record id v.tables ≡ some row
      → decrypt_row e row ≡ some (title, content)
      → (api_get_record e id v).0
        ≡ decrypt_record e row (Db.list_attachments id v.tables) (some (title, content))
  unfolding api_get_record get_found get_listed
  get_lem id row title content v calm there opens =
      let (v1, read, same, calm1) = read_lem (get_record id) v calm in
      let (v2, listed, _, _) = read_lem (Db.list_attachments id) v1 calm1 in
      rw (read, there, get_found, listed, get_listed, opens) (rw same refl)

  shown_lem :
      (w : World) (f : ParsedRecordForm) (id : Text)
      → (s : IsSaved e f now w id (save_new e f now w).1) → (v : World)
      → v.tables ≡ (save_new e f now w).1.tables
      → v.faults.db ≡ []
      → (api_get_record e id v).0
        ≡ json e 200 (record_json (record_of id f (Db.list_attachments id v.tables)))
  unfolding decrypt_record
  shown_lem w f id s v tables calm =
      let row = new_row (fresh_id e f now w) (sealed_form e f now w) now in
      let (r, there, opens) = s.readable in
      let found : get_record id v.tables ≡ some row =
        found_first e f now w id v.tables row w.tables.records
          (ap (λ (t : Tables). t.records) tables ∙ s.one_row)
          ((text_eq_iff (fresh_id e f now w) id).1 (sym s.named)) in
      let same : r ≡ row = ground (arith, there, found, ap (get_record id) tables) in
      get_lem id row f.title f.content v calm found (ap (decrypt_row e) (sym same) ∙ opens)
      ∙ ap (λ i. json e 200 (record_json (record_of i f (Db.list_attachments id v.tables))))
          (sym s.named)

  -- Only a save that succeeds is answered with 201.
  created_only :
      (o : Option Text)
      → (answer e
          (json_error e 500 (codes "internal error"))
          (λ id. json e 201 (created_json id))
          o).status
        ≡ 201
      → (id : Text) × (o ≡ some id)
  unfolding json_error
  created_only none h = absurd (ground (arith, h))
  created_only (some id) h = (id, refl)

  saved_eq :
      (f : ParsedRecordForm) (r : Result ParsedRecordForm × World) (failed : Response)
      (made : Text → Response)
      → r.0 ≡ ok f
      → save_parsed e failed made now r
        ≡ (answer e failed made (save_new e f now r.1).0, (save_new e f now r.1).1)
  unfolding save_parsed
  saved_eq f (err resp, v) failed made h = absurd (ground (arith, h))
  saved_eq f (ok g, v) failed made h =
      let same : g ≡ f = ground (arith, h) in
      ap (λ x. (answer e failed made (save_new e x now v).0, (save_new e x now v).1)) same

  -- A form that is parsed and answered with 201 has become a record, which is named in the answer
  -- and read back as it was parsed, while the tables stay as they are and reads succeed.
  pub api_get_record-create :
      (form : Multipart) (hs : Headers) (w : World) (f : ParsedRecordForm)
      → CipherLaws e.cipher
      → ((i : ℕ) → length (e.nonce i) ≡ 12)
      → (parse_record_form e form (content_length hs) w).0 ≡ ok f
      → (api_create_record e form hs now w).0.status ≡ 201
      → (id : Text) × ((n : ℕ) × (id ≡ e.uuid n))
        × IsSaved e f now
            (parse_record_form e form (content_length hs) w).1
            id
            (save_new e f now (parse_record_form e form (content_length hs) w).1).1
        × ((api_create_record e form hs now w).1
            ≡ (save_new e f now (parse_record_form e form (content_length hs) w).1).1)
        × ((api_create_record e form hs now w).0 ≡ json e 201 (created_json id))
        × ((v : World)
            → v.tables ≡ (api_create_record e form hs now w).1.tables
            → v.faults.db ≡ []
            → (api_get_record e id v).0
              ≡ json e 200 (record_json (record_of id f (Db.list_attachments id v.tables))))
  unfolding api_create_record
  api_get_record-create form hs w f laws twelve parsed made =
      let r = parse_record_form e form (content_length hs) w in
      let same =
        saved_eq f r (json_error e 500 (codes "internal error"))
          (λ id. json e 201 (created_json id)) parsed in
      let (id, given) =
        created_only (save_new e f now r.1).0 (ap (λ x. x.0.status) (sym same) ∙ made) in
      let s = save_new-IsSaved e f now r.1 id laws (twelve (r.1.drawn + 1)) given in
      (
        id,
        (_, s.named),
        s,
        ap (λ x. x.1) same,
        ap (λ x. x.0) same ∙ ap (answer e _ _) given,
        λ v tables calm. shown_lem r.1 f id s v (tables ∙ ap (λ x. x.1.tables) same) calm,
      )
