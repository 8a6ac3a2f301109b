-- ===== src/Db/Rows.antt =====
-- What a reader of src/db.rs finds after a write: the rows that changed, and those that did not.
use mathlib.Core.Option
use aardbin.Prelude.{
  Bool, Bool-cases, Bytes, List, Text, [], ap, arith, false, if◌then◌else◌, inl, inr, keep, none,
  not, refl, some, text_eq, text_eq_iff, true, ℕ, ◌∷◌, ◌≡◌, ◌≢◌,
}
use aardbin.Db.{
  AttachmentRow, RecordRow, Tables, attachment_ids, belongs_to, create_record, delete_attachment,
  delete_record, earlier, find_record, first_of_rows, get_record, is_attachment, is_some,
  list_attachments, order_by, set_content, update_record,
}
use aardbin.Db.Integrity.{IsConsistent, Linked, find_record-keep, none_of_is_some}

abbrev pub overwrite : Bytes → ℕ → RecordRow → RecordRow
overwrite blob now r = record r { blob = blob; updated_at = now }

find_record-set_content :
    (id j : Text) (blob : Bytes) (now : ℕ) (rows : List RecordRow)
    → find_record j (set_content id blob now rows) ≡ (
        if text_eq id j
        then Option.map (overwrite blob now) (find_record j rows)
        else find_record j rows)
unfolding find_record set_content
find_record-set_content id j blob now [] = ground arith
find_record-set_content id j blob now (r ∷ rows) = ground (
  arith,
  find_record-set_content id j blob now rows,
  text_eq_iff r.id id,
  text_eq_iff r.id j,
  text_eq_iff id j,
)

-- An update gives the named record a new blob and time and keeps its creation time; it reports
-- whether the record is there, and changes no other record and no attachment.
pub update_record_lem :
    (id j : Text) (blob : Bytes) (now : ℕ) (t : Tables)
    → ((update_record id blob now t).0 ≡ is_some (get_record id t))
      × (get_record j (update_record id blob now t).1 ≡ (
          if text_eq id j
          then Option.map (overwrite blob now) (get_record j t)
          else get_record j t))
      × ((update_record id blob now t).1.attachments ≡ t.attachments)
unfolding update_record get_record
update_record_lem id j blob now t = (refl, find_record-set_content id j blob now t.records, refl)

keep-belongs :
    (id j : Text) (rows : List AttachmentRow)
    → keep (belongs_to j) (keep (λ a. not (belongs_to id a)) rows)
      ≡ (if text_eq id j then [] else keep (belongs_to j) rows)
keep-belongs id j [] = ground arith
keep-belongs id j (a ∷ rows) = ground (
  arith,
  keep-belongs id j rows,
  text_eq_iff a.record_id id,
  text_eq_iff a.record_id j,
  text_eq_iff id j,
)

-- No attachment belongs to a record that is not there.
pub Linked-none :
    (id : Text) (records : List RecordRow) (rows : List AttachmentRow)
    → Linked records rows
    → is_some (find_record id records) ≡ false
    → keep (belongs_to id) rows ≡ []
Linked-none id records [] l h = refl
Linked-none id records (a ∷ rows) l h =
    ground (arith, Linked-none id records rows l.1 h, text_eq_iff a.record_id id, l.0)

-- After a delete in consistent tables the record and its attachments are gone; the ids that it
-- returns are those of the attachments, and there are any exactly if the record was there. Other
-- records and their attachments are as they were.
pub delete_record_lem :
    (id j : Text) (t : Tables)
    → IsConsistent t
    → (is_some (delete_record id t).0 ≡ is_some (get_record id t))
      × (get_record j (delete_record id t).1 ≡ (if text_eq id j then none else get_record j t))
      × (list_attachments j (delete_record id t).1
          ≡ (if text_eq id j then [] else list_attachments j t))
      × ((ids : List Text)
          → (delete_record id t).0 ≡ some ids
          → ids ≡ attachment_ids (keep (belongs_to id) t.attachments))
unfolding delete_record get_record list_attachments order_by
delete_record_lem id j t c =
    let gone = Linked-none id t.records t.attachments c.linked in
    (
      ground arith,
      ground (arith, find_record-keep id j t.records, text_eq_iff id j),
      ground (arith, keep-belongs id j t.attachments, text_eq_iff id j, gone),
      λ ids h. ground arith,
    )

-- A successful insert makes the row readable under its id and leaves every other id as it was.
pub create_record_lem :
    (id j : Text) (blob : Bytes) (now : ℕ) (t u : Tables)
    → create_record id blob now t ≡ some u
    → (get_record id t ≡ none)
      × (get_record j u ≡ (
          if text_eq id j
          then some (record { id = id; blob = blob; created_at = now; updated_at = now })
          else get_record j t))
      × (list_attachments j u ≡ list_attachments j t)
unfolding create_record get_record list_attachments find_record
create_record_lem id j blob now t u h =
    (none_of_is_some _ (ground arith), ground arith, ground arith)

keep-not_nil :
    (p : AttachmentRow → Bool) (rows : List AttachmentRow)
    → first_of_rows (keep p rows) ≡ none
    → keep (λ a. not (p a)) rows ≡ rows
keep-not_nil p [] h = refl
keep-not_nil p (a ∷ rows) h = ground (arith, keep-not_nil p rows)

keep-first :
    (p : AttachmentRow → Bool) (rows : List AttachmentRow) (a : AttachmentRow)
    → first_of_rows (keep p rows) ≡ some a
    → p a ≡ true
keep-first p [] a h = cc
keep-first p (b ∷ rows) a h = elim (Bool-cases (p b)) [
  | inl e ↦ ground (arith, e)
  | inr e ↦ keep-first p rows a (rw e at h)
]

keep-scoped :
    (record_id id j : Text) (rows : List AttachmentRow)
    → record_id ≢ j
    → keep (belongs_to j) (keep (λ a. not (is_attachment record_id id a)) rows)
      ≡ keep (belongs_to j) rows
keep-scoped record_id id j [] ne = refl
keep-scoped record_id id j (a ∷ rows) ne = ground (
  arith,
  keep-scoped record_id id j rows ne,
  text_eq_iff a.record_id record_id,
  text_eq_iff a.record_id j,
)

-- An attachment is deleted only under its own record: with no such row nothing changes, the row
-- returned has both ids, and the attachments of every other record stay.
pub delete_attachment_lem :
    (record_id id j : Text) (a : AttachmentRow) (t : Tables)
    → ((delete_attachment record_id id t).0 ≡ none → (delete_attachment record_id id t).1 ≡ t)
      × ((delete_attachment record_id id t).0 ≡ some a → (a.id ≡ id) × (a.record_id ≡ record_id))
      × (record_id ≢ j
          → list_attachments j (delete_attachment record_id id t).1 ≡ list_attachments j t)
unfolding delete_attachment list_attachments
delete_attachment_lem record_id id j a t = (
  λ h.
      ap (λ (rows : List AttachmentRow). record t { attachments = rows })
        (keep-not_nil (is_attachment record_id id) t.attachments h),
  λ h.
      let found = keep-first (is_attachment record_id id) t.attachments a h in
      ground (arith, text_eq_iff a.id id, text_eq_iff a.record_id record_id),
  λ ne. ap (order_by earlier) (keep-scoped record_id id j t.attachments ne),
)
