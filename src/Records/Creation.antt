-- ===== src/Records/Creation.antt =====
-- What saving a new record in src/routes.rs and src/api.rs leaves, on success and on a failure.
use aardbin.Prelude.{
  Bool, Bool-cases, List, Text, [], ap, arith, false, inl, inr, keep, not, refl, text_eq_refl, true,
  ℕ, ◌∙◌, ◌∷◌, ◌≡◌,
}
use aardbin.App.{World, constrained, db_call, delete_file}
use aardbin.App.Effects.{SameRest}
use aardbin.Form.{PendingUpload}
use aardbin.Records.{insert_uploads, row_of}
use aardbin.Db
use aardbin.Db.{
  AttachmentRow, RecordRow, Tables, attachment_ids, belongs_to, find_record, get_record, is_some,
  list_attachments,
}

-- the rows of the uploads, the latest first, in front of the old ones
abbrev pub attached : Text → ℕ → List PendingUpload → List AttachmentRow → List AttachmentRow
attached record_id ts [] rows = rows
attached record_id ts (u ∷ us) rows = attached record_id ts us (row_of record_id ts u ∷ rows)

-- Some of the uploads have rows in front of the old ones, and all of them after a success; no
-- other table, event or count has changed.
pub record Attaches (record_id : Text) (ts : ℕ) (us : List PendingUpload) (r : Bool × World)
    (w : World) : Type 0 where
  pub records : r.1.tables.records ≡ w.tables.records
  pub rows :
      keep (λ a. not (belongs_to record_id a)) r.1.tables.attachments
      ≡ keep (λ a. not (belongs_to record_id a)) w.tables.attachments
  pub sent : r.1.sent ≡ w.sent
  pub failures : r.1.failures ≡ w.failures
  pub all_there :
      r.0 ≡ true
      → (r.1.tables.attachments ≡ attached record_id ts us w.tables.attachments)
        × (r.1.disk ≡ w.disk)

attempt_lem :
    (a : AttachmentRow) (w : World)
    → ((db_call (constrained (Db.insert_attachment a)) w).1.tables.records ≡ w.tables.records)
      × ((db_call (constrained (Db.insert_attachment a)) w).1.sent ≡ w.sent)
      × ((db_call (constrained (Db.insert_attachment a)) w).1.failures ≡ w.failures)
      × ((db_call (constrained (Db.insert_attachment a)) w).1.disk ≡ w.disk)
      × (is_some (db_call (constrained (Db.insert_attachment a)) w).0 ≡ true
          → (db_call (constrained (Db.insert_attachment a)) w).1.tables.attachments
            ≡ a ∷ w.tables.attachments)
      × (is_some (db_call (constrained (Db.insert_attachment a)) w).0 ≡ false
          → (db_call (constrained (Db.insert_attachment a)) w).1.tables.attachments
            ≡ w.tables.attachments)
unfolding db_call Db.insert_attachment
attempt_lem a w = (
  ground arith,
  ground arith,
  ground arith,
  ground arith,
  λ h. ground (arith, h),
  λ h. ground (arith, h),
)

delete_file-SameRest : (id : Text) (w : World) → SameRest w (delete_file id w)
unfolding delete_file
delete_file-SameRest id w = ground arith

pub insert_uploads-Attaches :
    (record_id : Text) (ts : ℕ) (us : List PendingUpload) (w : World)
    → Attaches record_id ts us (insert_uploads record_id us ts w) w
unfolding insert_uploads
insert_uploads-Attaches record_id ts [] w = record {
  records = refl;
  rows = refl;
  sent = refl;
  failures = refl;
  all_there = λ h. (refl, refl);
}
insert_uploads-Attaches record_id ts (u ∷ us) w =
    let a = row_of record_id ts u in
    let (records, sent, failures, disk, there, absent) = attempt_lem a w in
    let attempt = db_call (constrained (Db.insert_attachment a)) w in
    let more = insert_uploads-Attaches record_id ts us attempt.1 in
    elim (Bool-cases (is_some attempt.0)) [
      | inl good ↦
          rw (good, insert_uploads)
            (record {
              records = more.records ∙ records;
              rows = more.rows ∙ rw (there good) (ground (arith, text_eq_refl record_id));
              sent = more.sent ∙ sent;
              failures = more.failures ∙ failures;
              all_there = λ h. (
                (more.all_there h).0 ∙ ap (λ rows. attached record_id ts us rows) (there good),
                (more.all_there h).1 ∙ disk,
              );
            })
      | inr bad ↦
          let rest = delete_file-SameRest u.id attempt.1 in
          rw (bad, insert_uploads)
            (record {
              records = ap (λ (t : Tables). t.records) rest.tables ∙ records;
              rows =
                  ap (λ (t : Tables). keep (λ b. not (belongs_to record_id b)) t.attachments)
                    rest.tables
                  ∙ rw (absent bad) refl;
              sent = rest.sent ∙ sent;
              failures = rest.failures ∙ failures;
              all_there = λ h. absurd (ground (arith, h));
            })
    ]
