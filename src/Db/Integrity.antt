-- ===== src/Db/Integrity.antt =====
-- The constraints of the schema of src/db.rs: primary keys, and the foreign key of attachments.
use aardbin.Prelude.{
  Bool, Bytes, List, Option, Text, [], arith, false, if◌then◌else◌, keep, none, not, refl, some,
  text_eq, text_eq_iff, text_eq_sym, true, ℕ, ◌∷◌, ◌≡◌,
}
use aardbin.Db.{
  AttachmentRow, RecordRow, Tables, belongs_to, find_attachment, find_record, is_some, set_content,
  set_updated,
}

-- No later row has the key of an earlier one.
abbrev pub UniqueRecords : List RecordRow → Type 0
UniqueRecords [] = Unit
UniqueRecords (r ∷ rows) = (find_record r.id rows ≡ none) × UniqueRecords rows

abbrev pub UniqueAttachments : List AttachmentRow → Type 0
UniqueAttachments [] = Unit
UniqueAttachments (a ∷ rows) = (find_attachment a.id rows ≡ none) × UniqueAttachments rows

-- Each attachment's record is there.
abbrev pub Linked : List RecordRow → List AttachmentRow → Type 0
Linked records [] = Unit
Linked records (a ∷ rows) = (is_some (find_record a.record_id records) ≡ true) × Linked records rows

pub record IsConsistent (t : Tables) : Type 0 where
  pub records_unique : UniqueRecords t.records
  pub attachments_unique : UniqueAttachments t.attachments
  pub linked : Linked t.records t.attachments

pub find-set_content :
    (id j : Text) (blob : Bytes) (now : ℕ) (rows : List RecordRow)
    → is_some (find_record j (set_content id blob now rows)) ≡ is_some (find_record j rows)
unfolding find_record set_content
find-set_content id j blob now [] = refl
find-set_content id j blob now (r ∷ rows) = ground (arith, find-set_content id j blob now rows)

pub find-set_updated :
    (id j : Text) (now : ℕ) (rows : List RecordRow)
    → is_some (find_record j (set_updated id now rows)) ≡ is_some (find_record j rows)
unfolding find_record set_updated
find-set_updated id j now [] = refl
find-set_updated id j now (r ∷ rows) = ground (arith, find-set_updated id j now rows)

pub none_of_is_some {ℓ} : {A : Type ℓ} (o : Option A) → is_some o ≡ false → o ≡ none
none_of_is_some none h = refl
none_of_is_some (some a) h = cc

pub set_content_unique :
    (id : Text) (blob : Bytes) (now : ℕ) (rows : List RecordRow)
    → UniqueRecords rows
    → UniqueRecords (set_content id blob now rows)
unfolding set_content
set_content_unique id blob now [] u = tt
set_content_unique id blob now (r ∷ rows) (fresh, u) = (
  none_of_is_some _ (ground (arith, find-set_content id r.id blob now rows, fresh)),
  set_content_unique id blob now rows u,
)

pub set_updated_unique :
    (id : Text) (now : ℕ) (rows : List RecordRow)
    → UniqueRecords rows
    → UniqueRecords (set_updated id now rows)
unfolding set_updated
set_updated_unique id now [] u = tt
set_updated_unique id now (r ∷ rows) (fresh, u) = (
  none_of_is_some _ (ground (arith, find-set_updated id r.id now rows, fresh)),
  set_updated_unique id now rows u,
)

-- Links survive where no answer to "is it there" turns from yes to no.
pub Linked-mono :
    (before after : List RecordRow) (rows : List AttachmentRow)
    → ((id : Text) → is_some (find_record id before) ≡ true → is_some (find_record id after) ≡ true)
    → Linked before rows
    → Linked after rows
Linked-mono before after [] h l = tt
Linked-mono before after (a ∷ rows) h (here, l) =
    (h a.record_id here, Linked-mono before after rows h l)

pub find_record-keep :
    (id j : Text) (rows : List RecordRow)
    → find_record j (keep (λ r. not (text_eq r.id id)) rows)
      ≡ (if text_eq id j then none else find_record j rows)
unfolding find_record
find_record-keep id j [] = ground arith
find_record-keep id j (r ∷ rows) =
    ground
      (arith, find_record-keep id j rows, text_eq_iff r.id id, text_eq_iff r.id j, text_eq_iff id j)

pub keep_records_unique :
    (id : Text) (rows : List RecordRow)
    → UniqueRecords rows
    → UniqueRecords (keep (λ r. not (text_eq r.id id)) rows)
keep_records_unique id [] u = tt
keep_records_unique id (r ∷ rows) u =
    ground (arith, find_record-keep id r.id rows, keep_records_unique id rows u.1)

pub find_attachment-keep :
    (p : AttachmentRow → Bool) (id : Text) (rows : List AttachmentRow)
    → find_attachment id rows ≡ none
    → find_attachment id (keep p rows) ≡ none
unfolding find_attachment
find_attachment-keep p id [] h = refl
find_attachment-keep p id (a ∷ rows) h = ground (arith, find_attachment-keep p id rows)

pub keep_attachments_unique :
    (p : AttachmentRow → Bool) (rows : List AttachmentRow)
    → UniqueAttachments rows
    → UniqueAttachments (keep p rows)
keep_attachments_unique p [] u = tt
keep_attachments_unique p (a ∷ rows) u =
    ground (arith, find_attachment-keep p a.id rows u.0, keep_attachments_unique p rows u.1)

pub Linked-keep :
    (p : AttachmentRow → Bool) (records : List RecordRow) (rows : List AttachmentRow)
    → Linked records rows
    → Linked records (keep p rows)
Linked-keep p records [] l = tt
Linked-keep p records (a ∷ rows) l = ground (arith, Linked-keep p records rows l.1)

-- What the cascade leaves does not point at the record that is gone.
pub Linked-cascade :
    (id : Text) (records : List RecordRow) (rows : List AttachmentRow)
    → Linked records rows
    → Linked (keep (λ r. not (text_eq r.id id)) records) (keep (λ a. not (belongs_to id a)) rows)
Linked-cascade id records [] l = tt
Linked-cascade id records (a ∷ rows) l = ground (
  arith,
  Linked-cascade id records rows l.1,
  find_record-keep id a.record_id records,
  text_eq_sym a.record_id id,
)
