-- ===== src/Server/Statements.antt =====
-- The handlers of src/routes.rs that save a record, as statements of src/db.rs in turn.
use mathlib.Core.Path.{subst}
use aardbin.Prelude.{
  Bool, Bool-cases, List, Option, Option-cases, Text, [], false, if◌then◌else◌, inl, inr, length,
  none, refl, some, sym, true, ℕ, ◌+◌, ◌∷◌, ◌≡◌,
}
use aardbin.App.{
  Env, Result, World, constrained, db_call, delete_file, delete_files, err, head_fault, ok, reading,
  send_event, writing,
}
use aardbin.App.Effects.{SameRest}
use aardbin.Db
use aardbin.Db.{AttachmentRow, RecordRow, Tables, is_some}
use aardbin.Db.Steps
use aardbin.Db.Steps.{Step, Reach, here, next, Reach-IsConsistent}
use aardbin.Crypto.{encrypt}
use aardbin.I18n.{t}
use aardbin.Records.{
  content_length, decrypt_row, insert_uploads, inserted, locked_record, overwritten, row_of,
  save_new, save_parsed, update_found, update_parsed, updated,
}
use aardbin.Http.{Headers, Response}
use aardbin.Form.Untouched.{cleanup_uploads_rest, delete_file_rest, parse_record_form-SameRest}
use aardbin.Form.{Multipart, ParsedRecordForm, PendingUpload, cleanup_uploads, parse_record_form}

pub Reach-trans : {t u v : Tables} → Reach t u → Reach u v → Reach t v
Reach-trans r here = r
Reach-trans r (next s x) = next (Reach-trans r s) x

pub Reach-eq : {t u v : Tables} → Reach t u → v ≡ u → Reach t v
Reach-eq {t} r h = subst (λ x. Reach t x) (sym h) r

-- `w'` comes from `w` by statements on the tables.
abbrev pub Serves : World → World → Type 0
Serves w w' = Reach w.tables w'.tables

pub SameRest-Serves : {w w' : World} → SameRest w w' → Serves w w'
SameRest-Serves s = Reach-eq here s.tables

pub if-Serves {ℓ} :
    {A : Type ℓ} (w : World) (b : Bool) (m n : A × World)
    → Serves w m.1
    → Serves w n.1
    → Serves w (if b then m else n).1
if-Serves w true m n hm hn = hm
if-Serves w false m n hm hn = hn

if_Reach :
    (t : Tables) (b : Bool) (u v : Tables) → Reach t u → Reach t v → Reach t (if b then u else v)
if_Reach t true u v hu hv = hu
if_Reach t false u v hu hv = hv

pub constrained-Serves :
    (f : Tables → Option Tables) (w : World)
    → ((u : Tables) → f w.tables ≡ some u → Step w.tables u)
    → Serves w (db_call (constrained f) w).1
unfolding db_call
constrained-Serves f w step = elim (Bool-cases (head_fault w.faults.db)) [
  | inl bad ↦ rw (bad, db_call) here
  | inr works ↦ elim (Option-cases (f w.tables)) [
    | inl none_given ↦ rw (works, none_given, db_call) here
    | inr (u, given) ↦ rw (works, given, db_call) (next here (step u given))
  ]
]

pub writing-Serves {ℓ} :
    {A : Type ℓ} (f : Tables → A × Tables) (w : World)
    → Step w.tables (f w.tables).1
    → Serves w (db_call (writing f) w).1
unfolding db_call
writing-Serves f w step = elim (Bool-cases (head_fault w.faults.db)) [
  | inl bad ↦ rw (bad, db_call) here
  | inr works ↦ rw (works, db_call) (next here step)
]

pub reading-Serves {ℓ} :
    {A : Type ℓ} (f : Tables → A) (w : World) → Serves w (db_call (reading f) w).1
unfolding db_call
reading-Serves f w = elim (Bool-cases (head_fault w.faults.db)) [
  | inl bad ↦ rw (bad, db_call) here
  | inr works ↦ rw (works, db_call) here
]

pub insert_uploads-Serves :
    (record_id : Text) (us : List PendingUpload) (ts : ℕ) (w : World)
    → Serves w (insert_uploads record_id us ts w).1
unfolding insert_uploads
insert_uploads-Serves record_id [] ts w = here
insert_uploads-Serves record_id (u ∷ us) ts w =
    let attempt = db_call (constrained (Db.insert_attachment (row_of record_id ts u))) w in
    let one : Serves w attempt.1 =
      constrained-Serves (Db.insert_attachment (row_of record_id ts u)) w
        (λ t h. Steps.attached (row_of record_id ts u) h) in
    if-Serves w (is_some attempt.0) (insert_uploads record_id us ts attempt.1)
      (false, delete_file u.id attempt.1)
      (Reach-trans one (insert_uploads-Serves record_id us ts attempt.1))
      (Reach-trans one (SameRest-Serves (delete_file_rest u.id attempt.1)))

pub send_event-Serves : (w : World) → Serves w (send_event w)
unfolding send_event
send_event-Serves w = here

pub delete_call-Serves :
    (id : Text) (w : World) → Serves w (db_call (writing (Db.delete_record id)) w).1
delete_call-Serves id w = writing-Serves (Db.delete_record id) w (Steps.deleted id refl)

pub delete_files-Serves : (ids : List Text) (w : World) → Serves w (delete_files ids w)
unfolding delete_files
delete_files-Serves [] w = here
delete_files-Serves (id ∷ ids) w =
    Reach-trans (SameRest-Serves (delete_file_rest id w))
      (delete_files-Serves ids (delete_file id w))

module _ (e : Env) where
  inserted-Serves : (id : Text) (r : Bool × World) → Serves r.1 (inserted e id r).1
  unfolding inserted
  inserted-Serves id (true, w) = send_event-Serves w
  inserted-Serves id (false, w) = delete_call-Serves id w

  save_new-Serves :
      (form : ParsedRecordForm) (now : ℕ) (w : World) → Serves w (save_new e form now w).1
  unfolding save_new
  save_new-Serves form now w =
      let id = e.uuid w.drawn in
      let blob =
        encrypt e.cipher e.cfg.crypto_key (e.nonce (w.drawn + 1)) form.title form.content in
      let w' : World = record w { drawn = w.drawn + 2 } in
      let created = db_call (constrained (Db.create_record id blob now)) w' in
      let one : Serves w created.1 =
        constrained-Serves (Db.create_record id blob now) w' (λ t h. Steps.created id blob now h) in
      let stored = insert_uploads id form.uploads now created.1 in
      if-Serves w (is_some created.0) (inserted e id stored)
        (none, cleanup_uploads form.uploads created.1)
        (Reach-trans one (
          Reach-trans (insert_uploads-Serves id form.uploads now created.1)
            (inserted-Serves id stored)))
        (Reach-trans one (SameRest-Serves (cleanup_uploads_rest form.uploads created.1)))

  save_parsed-Serves :
      (failed : Response) (done : Text → Response) (now : ℕ) (r : Result ParsedRecordForm × World)
      → Serves r.1 (save_parsed e failed done now r).1
  unfolding save_parsed
  save_parsed-Serves failed done now (err resp, w) = here
  save_parsed-Serves failed done now (ok form, w) = save_new-Serves form now w

  pub parsed_form-Serves :
      (failed : Response) (done : Text → Response) (form : Multipart) (length : Option ℕ) (now : ℕ)
      (w : World)
      → Serves w (save_parsed e failed done now (parse_record_form e form length w)).1
  parsed_form-Serves failed done form length now w =
      Reach-trans (SameRest-Serves (parse_record_form-SameRest e form length w))
        (save_parsed-Serves failed done now (parse_record_form e form length w))

  updated-Serves :
      (row : RecordRow) (id : Text) (r : Bool × World) → Serves r.1 (updated e row id r).1
  unfolding updated
  updated-Serves row id (true, w) = send_event-Serves w
  updated-Serves row id (false, w) =
      writing-Serves (Db.update_record id row.blob row.updated_at) w
        (Steps.updated id row.blob row.updated_at refl)

  overwritten-Serves :
      (row : RecordRow) (id : Text) (form : ParsedRecordForm) (now : ℕ) (r : Option Bool × World)
      → Serves r.1 (overwritten e row id form now r).1
  unfolding overwritten
  overwritten-Serves row id form now (none, w) =
      SameRest-Serves (cleanup_uploads_rest form.uploads w)
  overwritten-Serves row id form now (some false, w) = here
  overwritten-Serves row id form now (some true, w) =
      Reach-trans (insert_uploads-Serves id form.uploads now w)
        (updated-Serves row id (insert_uploads id form.uploads now w))

  update_parsed-Serves :
      (row : RecordRow) (id : Text) (now : ℕ) (r : Result ParsedRecordForm × World)
      → Serves r.1 (update_parsed e row id now r).1
  unfolding update_parsed
  update_parsed-Serves row id now (err resp, w) = here
  update_parsed-Serves row id now (ok form, w) =
      let blob = encrypt e.cipher e.cfg.crypto_key (e.nonce w.drawn) form.title form.content in
      let w' : World = record w { drawn = w.drawn + 1 } in
      let one : Serves w (db_call (writing (Db.update_record id blob now)) w').1 =
        writing-Serves (Db.update_record id blob now) w' (Steps.updated id blob now refl) in
      Reach-trans one
        (overwritten-Serves row id form now (db_call (writing (Db.update_record id blob now)) w'))

  pub update_found-Serves :
      (others : World → World) (id : Text) (form : Multipart) (hs : Headers) (now : ℕ)
      (r : Option (Option RecordRow) × World)
      → ((v : World) → Serves v (others v))
      → Serves r.1 (update_found e others id form hs now r).1
  unfolding update_found
  update_found-Serves others id form hs now (none, w) sound = here
  update_found-Serves others id form hs now (some none, w) sound = here
  update_found-Serves others id form hs now (some (some row), w) sound =
      let parsed = parse_record_form e form (content_length hs) w in
      if-Serves w (is_some (decrypt_row e row))
        (update_parsed e row id now (parsed.0, others parsed.1)) (locked_record e, w)
        (Reach-trans (SameRest-Serves (parse_record_form-SameRest e form (content_length hs) w)) (
          Reach-trans (sound parsed.1)
            (update_parsed-Serves row id now (parsed.0, others parsed.1))))
        here
