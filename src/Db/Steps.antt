-- ===== src/Db/Steps.antt =====
-- The statements of src/db.rs as steps on the tables, and the schema's constraints along them.
use aardbin.Prelude.{
  Bool, Bytes, List, Text, arith, false, if◌then◌else◌, some, true, ℕ, ◌∙◌, ◌∷◌, ◌≡◌,
}
use aardbin.Db.{
  AttachmentRow, RecordRow, Tables, create_record, delete_attachment, delete_record,
  find_attachment, find_record, insert_attachment, is_some, set_content, set_updated, touch_record,
  update_record,
}
use aardbin.Db.Integrity.{
  IsConsistent, Linked-cascade, Linked-keep, Linked-mono, find-set_content, find-set_updated,
  keep_attachments_unique, keep_records_unique, none_of_is_some, set_content_unique,
  set_updated_unique,
}

-- One call of a method that writes, as far as it succeeds.
pub data Step (t u : Tables) : Type 0 where
  created : (id : Text) (blob : Bytes) (now : ℕ) → create_record id blob now t ≡ some u → Step t u
  updated : (id : Text) (blob : Bytes) (now : ℕ) → (update_record id blob now t).1 ≡ u → Step t u
  touched : (id : Text) (now : ℕ) → touch_record id now t ≡ u → Step t u
  deleted : (id : Text) → (delete_record id t).1 ≡ u → Step t u
  attached : (a : AttachmentRow) → insert_attachment a t ≡ some u → Step t u
  detached : (record_id id : Text) → (delete_attachment record_id id t).1 ≡ u → Step t u

pub data Reach (t : Tables) : Tables → Type 0 where
  here : Reach t t
  next : {u v : Tables} → Reach t u → Step u v → Reach t v

-- A new record takes no link away.
is_some-find-cons :
    (r : RecordRow) (rows : List RecordRow) (id : Text)
    → is_some (find_record id rows) ≡ true
    → is_some (find_record id (r ∷ rows)) ≡ true
unfolding find_record
is_some-find-cons r rows id h = ground arith

create_record-IsConsistent :
    (id : Text) (blob : Bytes) (now : ℕ) (t u : Tables)
    → create_record id blob now t ≡ some u
    → IsConsistent t
    → IsConsistent u
create_record-IsConsistent id blob now t u h c =
    let row : RecordRow = record { id = id; blob = blob; created_at = now; updated_at = now } in
    let fresh : is_some (find_record id t.records) ≡ false = unfold create_record in ground arith in
    let same : record t { records = row ∷ t.records } ≡ u = unfold create_record in ground arith in
    rw (← same) (record {
      records_unique = (none_of_is_some _ fresh, c.records_unique);
      attachments_unique = c.attachments_unique;
      linked =
          Linked-mono t.records (row ∷ t.records) t.attachments (is_some-find-cons row t.records)
            c.linked;
    })

update_record-IsConsistent :
    (id : Text) (blob : Bytes) (now : ℕ) (t : Tables)
    → IsConsistent t
    → IsConsistent (update_record id blob now t).1
update_record-IsConsistent id blob now t c =
    unfold update_record in
    record {
      records_unique = set_content_unique id blob now t.records c.records_unique;
      attachments_unique = c.attachments_unique;
      linked =
          Linked-mono t.records (set_content id blob now t.records) t.attachments
            (λ j h. find-set_content id j blob now t.records ∙ h) c.linked;
    }

touch_record-IsConsistent :
    (id : Text) (now : ℕ) (t : Tables) → IsConsistent t → IsConsistent (touch_record id now t)
touch_record-IsConsistent id now t c =
    unfold touch_record in
    record {
      records_unique = set_updated_unique id now t.records c.records_unique;
      attachments_unique = c.attachments_unique;
      linked =
          Linked-mono t.records (set_updated id now t.records) t.attachments
            (λ j h. find-set_updated id j now t.records ∙ h) c.linked;
    }

if-IsConsistent :
    (b : Bool) (t u : Tables) → IsConsistent t → IsConsistent u → IsConsistent (if b then t else u)
if-IsConsistent true t u h k = h
if-IsConsistent false t u h k = k

delete_record-IsConsistent :
    (id : Text) (t : Tables) → IsConsistent t → IsConsistent (delete_record id t).1
delete_record-IsConsistent id t c =
    unfold delete_record in
    if-IsConsistent (is_some (find_record id t.records)) _ t
      (record {
        records_unique = keep_records_unique id t.records c.records_unique;
        attachments_unique = keep_attachments_unique _ t.attachments c.attachments_unique;
        linked = Linked-cascade id t.records t.attachments c.linked;
      })
      c

insert_attachment-IsConsistent :
    (a : AttachmentRow) (t u : Tables)
    → insert_attachment a t ≡ some u
    → IsConsistent t
    → IsConsistent u
insert_attachment-IsConsistent a t u h c =
    let fresh : is_some (find_attachment a.id t.attachments) ≡ false =
      unfold insert_attachment in ground arith in
    let known : is_some (find_record a.record_id t.records) ≡ true =
      unfold insert_attachment in ground arith in
    let same : record t { attachments = a ∷ t.attachments } ≡ u =
      unfold insert_attachment in ground arith in
    rw (← same) (record {
      records_unique = c.records_unique;
      attachments_unique = (none_of_is_some _ fresh, c.attachments_unique);
      linked = (known, c.linked);
    })

delete_attachment-IsConsistent :
    (record_id id : Text) (t : Tables)
    → IsConsistent t
    → IsConsistent (delete_attachment record_id id t).1
delete_attachment-IsConsistent record_id id t c =
    unfold delete_attachment in
    record {
      records_unique = c.records_unique;
      attachments_unique = keep_attachments_unique _ t.attachments c.attachments_unique;
      linked = Linked-keep _ t.records t.attachments c.linked;
    }

Step-IsConsistent : {t u : Tables} → Step t u → IsConsistent t → IsConsistent u
Step-IsConsistent {t} {u} (created id blob now h) c = create_record-IsConsistent id blob now t u h c
Step-IsConsistent {t} (updated id blob now h) c =
    rw (← h) (update_record-IsConsistent id blob now t c)
Step-IsConsistent {t} (touched id now h) c = rw (← h) (touch_record-IsConsistent id now t c)
Step-IsConsistent {t} (deleted id h) c = rw (← h) (delete_record-IsConsistent id t c)
Step-IsConsistent {t} {u} (attached a h) c = insert_attachment-IsConsistent a t u h c
Step-IsConsistent {t} (detached record_id id h) c =
    rw (← h) (delete_attachment-IsConsistent record_id id t c)

-- From consistent tables, whatever methods are called, in whatever order, the ids of the records
-- stay distinct, so do those of the attachments, and every attachment belongs to a record that is
-- there.
pub Reach-IsConsistent : {t u : Tables} → Reach t u → IsConsistent t → IsConsistent u
Reach-IsConsistent here c = c
Reach-IsConsistent (next r s) c = Step-IsConsistent s (Reach-IsConsistent r c)
