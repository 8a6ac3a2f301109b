-- ===== src/Records/Saved.antt =====
-- `save_new` as a whole: the record that a parsed form becomes, and what a failure takes back.
use aardbin.Prelude.{
  Bool, Bool-cases, Bytes, List, Option, Text, [], ap, arith, false, inl, inr, keep, length, none,
  not, refl, some, sym, text_eq, text_eq_iff, text_eq_refl, true, ℕ, ◌+◌, ◌∙◌, ◌∷◌, ◌≡◌,
}
use aardbin.App.{Env, World, constrained, db_call, head_fault, send_event, writing}
use aardbin.Records.{decrypt_row, insert_uploads, inserted, save_new}
use aardbin.Db
use aardbin.Db.{AttachmentRow, RecordRow, Tables, belongs_to, find_record, get_record, is_some}
use aardbin.Db.Integrity.{IsConsistent, Linked, none_of_is_some}
use aardbin.Form.{ParsedRecordForm, cleanup_uploads}
use aardbin.Form.States.{cleanup_uploads-eq, upload_ids}
use aardbin.App.Effects.{delete_files_lem}
use aardbin.Crypto.{encrypt}
use aardbin.Crypto.Laws.{CipherLaws, decrypt-encrypt}
use aardbin.Records.Creation.{attached, insert_uploads-Attaches}

abbrev pub new_row : Text → Bytes → ℕ → RecordRow
new_row id blob now = record { id = id; blob = blob; created_at = now; updated_at = now }

constrained_lem :
    (f : Tables → Option Tables) (w : World)
    → ((db_call (constrained f) w).1.sent ≡ w.sent)
      × ((db_call (constrained f) w).1.failures ≡ w.failures)
      × ((db_call (constrained f) w).1.disk ≡ w.disk)
      × (is_some (db_call (constrained f) w).0 ≡ true
          → f w.tables ≡ some (db_call (constrained f) w).1.tables)
      × (is_some (db_call (constrained f) w).0 ≡ false
          → (db_call (constrained f) w).1.tables ≡ w.tables)
unfolding db_call
constrained_lem f w =
    (ground arith, ground arith, ground arith, λ h. ground (arith, h), λ h. ground (arith, h))

created_tables :
    (id : Text) (blob : Bytes) (now : ℕ) (t u : Tables)
    → Db.create_record id blob now t ≡ some u
    → (is_some (find_record id t.records) ≡ false)
      × (u.records ≡ new_row id blob now ∷ t.records)
      × (u.attachments ≡ t.attachments)
unfolding Db.create_record
created_tables id blob now t u h = elim (Bool-cases (is_some (find_record id t.records))) [
  | inl taken ↦ absurd (ground (arith, rw taken at h))
  | inr free ↦
      let same : record t { records = new_row id blob now ∷ t.records } ≡ u =
        ground (arith, rw free at h) in
      (
        free,
        ap (λ (t : Tables). t.records) (sym same),
        ap (λ (t : Tables). t.attachments) (sym same),
      )
]

inserted-some :
    (e : Env) (id j : Text) (r : Bool × World)
    → (inserted e id r).0 ≡ some j
    → (r.0 ≡ true) × (j ≡ id) × ((inserted e id r).1 ≡ send_event r.1)
unfolding inserted
inserted-some e id j (true, w) h = (refl, ground (arith, h), refl)
inserted-some e id j (false, w) h = absurd (ground (arith, h))

rollback : Text → World → World
rollback id w = (db_call (writing (Db.delete_record id)) w).1

inserted-none :
    (e : Env) (id : Text) (r : Bool × World)
    → (inserted e id r).0 ≡ none
    → (inserted e id r).1 ≡ rollback id r.1
unfolding inserted rollback
inserted-none e id (true, w) h = absurd (ground (arith, h))
inserted-none e id (false, w) h = refl

keep_all :
    (id : Text) (records : List RecordRow)
    → is_some (find_record id records) ≡ false
    → keep (λ (r : RecordRow). not (text_eq r.id id)) records ≡ records
unfolding find_record
keep_all id [] h = refl
keep_all id (r ∷ records) h = ground (arith, keep_all id records)

keep_unlinked :
    (id : Text) (records : List RecordRow) (rows : List AttachmentRow)
    → Linked records rows
    → is_some (find_record id records) ≡ false
    → keep (λ a. not (belongs_to id a)) rows ≡ rows
keep_unlinked id records [] l h = refl
keep_unlinked id records (a ∷ rows) l h =
    ground (arith, keep_unlinked id records rows l.1 h, text_eq_iff a.record_id id, l.0)

-- The delete takes back the row and every attachment row that was put under it.
rollback_lem :
    (id : Text) (row : RecordRow) (t : Tables) (w : World)
    → IsConsistent t
    → row.id ≡ id
    → is_some (find_record id t.records) ≡ false
    → w.tables.records ≡ row ∷ t.records
    → keep (λ a. not (belongs_to id a)) w.tables.attachments
      ≡ keep (λ a. not (belongs_to id a)) t.attachments
    → head_fault w.faults.db ≡ false
    → ((rollback id w).tables ≡ t) × ((rollback id w).sent ≡ w.sent)
unfolding rollback db_call Db.delete_record find_record
rollback_lem id row t w good named fresh records rows works =
    let there : is_some (find_record id w.tables.records) ≡ true =
      rw records (ground (arith, text_eq_iff row.id id, named)) in
    let left : keep (λ (r : RecordRow). not (text_eq r.id id)) w.tables.records ≡ t.records =
      rw records (ground (arith, text_eq_iff row.id id, named, keep_all id t.records fresh)) in
    let left_rows = rows ∙ keep_unlinked id t.records t.attachments good.linked fresh in
    (ground (arith, works, there, left, left_rows), ground (arith, works))

module _ (e : Env) (form : ParsedRecordForm) (now : ℕ) (w : World) where
  abbrev pub fresh_id : Text
  fresh_id = e.uuid w.drawn

  abbrev pub sealed_form : Bytes
  sealed_form = encrypt e.cipher e.cfg.crypto_key (e.nonce (w.drawn + 1)) form.title form.content

  -- behind the insert of the record
  abbrev pub after_insert : Option (Unit {0}) × World
  after_insert =
      db_call (constrained (Db.create_record fresh_id sealed_form now))
        (record w { drawn = w.drawn + 2 })

  abbrev pub after_uploads : Bool × World
  after_uploads = insert_uploads fresh_id form.uploads now after_insert.1

  save_new_then :
      is_some after_insert.0 ≡ true → save_new e form now w ≡ inserted e fresh_id after_uploads
  unfolding save_new
  save_new_then h = rw (h, save_new) refl

  save_new_else :
      is_some after_insert.0 ≡ false
      → save_new e form now w ≡ (none, cleanup_uploads form.uploads after_insert.1)
  unfolding save_new
  save_new_else h = rw (h, save_new) refl

  -- What a saved form is: the one new row, readable as what was sent, its attachments, one event.
  pub record IsSaved (id : Text) (w' : World) : Type 0 where
    pub named : id ≡ fresh_id
    pub was_free : get_record id w.tables ≡ none
    pub readable :
        (r : RecordRow) × (get_record id w'.tables ≡ some r)
        × (decrypt_row e r ≡ some (form.title, form.content))
    pub one_row : w'.tables.records ≡ new_row fresh_id sealed_form now ∷ w.tables.records
    pub attachments :
        w'.tables.attachments ≡ attached fresh_id now form.uploads w.tables.attachments
    pub disk : w'.disk ≡ w.disk
    pub told : w'.sent ≡ w.sent + 1

  pub found_first :
      (id : Text) (t : Tables) (row : RecordRow) (rows : List RecordRow)
      → t.records ≡ row ∷ rows
      → text_eq row.id id ≡ true
      → get_record id t ≡ some row
  unfolding get_record find_record
  found_first id t row rows h same = rw h (rw same refl)

  -- If the cipher opens what it seals and the nonce has twelve bytes, a save that succeeds is
  -- under the next identifier, which was free: the new row decrypts to the title and content that
  -- were sent, each upload has its attachment row, no file changes and one event is sent.
  pub save_new-IsSaved :
      (id : Text)
      → CipherLaws e.cipher
      → length (e.nonce (w.drawn + 1)) ≡ 12
      → (save_new e form now w).0 ≡ some id
      → IsSaved id (save_new e form now w).1
  save_new-IsSaved id laws twelve h = elim (Bool-cases (is_some after_insert.0)) [
    | inr bad ↦ absurd (ground (arith, rw (save_new_else bad) at h))
    | inl good ↦
        let (all_in, named, world) =
          inserted-some e fresh_id id after_uploads (rw (save_new_then good) at h) in
        let (sent, _, disk, made, _) =
          constrained_lem (Db.create_record fresh_id sealed_form now)
            (record w { drawn = w.drawn + 2 }) in
        let (free, row, kept) =
          created_tables fresh_id sealed_form now w.tables after_insert.1.tables (made good) in
        let more = insert_uploads-Attaches fresh_id now form.uploads after_insert.1 in
        let (there, same_disk) = more.all_there all_in in
        let records = more.records ∙ row in
        rw (save_new_then good, world)
          (record {
            named = named;
            was_free = rw named (unfold get_record in none_of_is_some _ free);
            readable = (
              new_row fresh_id sealed_form now,
              found_first id (send_event after_uploads.1).tables (new_row fresh_id sealed_form now)
                  w.tables.records (unfold send_event in records)
                  (rw named (text_eq_refl fresh_id)),
              decrypt-encrypt e.cipher laws e.cfg.crypto_key (e.nonce (w.drawn + 1)) form.title
                  form.content twelve,
            );
            one_row = unfold send_event in records;
            attachments =
                unfold send_event in
                there ∙ ap (λ rows. attached fresh_id now form.uploads rows) kept;
            disk = unfold send_event in same_disk ∙ disk;
            told = unfold send_event in ap (λ n. n + 1) (more.sent ∙ sent);
          })
  ]

  -- If saving fails, at the record or at one of its attachments, no event is sent and the tables
  -- are as they were, if they were consistent, no removal of a file fails and the delete that
  -- takes the record back does not fail itself.
  pub save_new-none :
      IsConsistent w.tables
      → (save_new e form now w).0 ≡ none
      → w.faults.unlink ≡ []
      → head_fault after_uploads.1.faults.db ≡ false
      → ((save_new e form now w).1.tables ≡ w.tables) × ((save_new e form now w).1.sent ≡ w.sent)
  save_new-none consistent h quiet works = elim (Bool-cases (is_some after_insert.0)) [
    | inl good ↦
        let world = inserted-none e fresh_id after_uploads (rw (save_new_then good) at h) in
        let (sent, _, _, made, _) =
          constrained_lem (Db.create_record fresh_id sealed_form now)
            (record w { drawn = w.drawn + 2 }) in
        let (free, row, kept) =
          created_tables fresh_id sealed_form now w.tables after_insert.1.tables (made good) in
        let more = insert_uploads-Attaches fresh_id now form.uploads after_insert.1 in
        let (back, same) =
          rollback_lem fresh_id (new_row fresh_id sealed_form now) w.tables after_uploads.1
            consistent refl free (more.records ∙ row)
            (more.rows ∙ ap (λ rows. keep (λ a. not (belongs_to fresh_id a)) rows) kept) works in
        rw (save_new_then good, world) (back, same ∙ more.sent ∙ sent)
    | inr bad ↦
        let (sent, _, _, _, same) =
          constrained_lem (Db.create_record fresh_id sealed_form now)
            (record w { drawn = w.drawn + 2 }) in
        let (rest, _, _, _) =
          delete_files_lem (upload_ids form.uploads) after_insert.1
            (unfold db_call in ground (arith, quiet)) in
        rw (save_new_else bad, cleanup_uploads-eq form.uploads after_insert.1)
          (rest.tables ∙ same bad, rest.sent ∙ sent)
  ]
