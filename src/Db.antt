-- ===== src/Db.antt =====
-- src/db.rs: the two tables, and what each method's SQL statements do to them. SQLite itself is
-- not modelled: a statement has the meaning of its text (primary keys, the foreign key with ON
-- DELETE CASCADE, WHERE, ORDER BY, LIMIT and OFFSET), and failures of the file are in App.
-- Opening it is in Start.
pub mod Order
pub mod Integrity
pub mod Steps
pub mod Rows
mod Tests
use aardbin.Prelude.{
  Bool, Bytes, List, Option, Text, [], drop, false, i64_limit, if◌then◌else◌, keep, length, ltb,
  max, none, not, one_of, some, take, text_eq, true, ℕ, ℤ, pos, negsuc, suc, ◌%◌, ◌&&◌, ◌*◌, ◌-◌,
  ◌==◌, ◌^◌, ◌||◌, ◌∷◌,
}

pub record RecordRow : Type 0 where
  pub id : Text
  pub blob : Bytes
  pub created_at : ℕ
  pub updated_at : ℕ

pub record AttachmentRow : Type 0 where
  pub id : Text
  pub record_id : Text
  pub original_filename : Text
  pub size_bytes : ℕ
  pub mime_type : Text
  pub created_at : ℕ

pub record Tables : Type 0 where
  pub records : List RecordRow
  pub attachments : List AttachmentRow

-- The tables that the first migration creates.
abbrev pub empty : Tables
empty = record { records = []; attachments = [] }

-- The first row with the key, `query_row(...).optional()`.
unfoldable pub find_record : Text → List RecordRow → Option RecordRow
find_record id [] = none
find_record id (r ∷ rows) = if text_eq r.id id then some r else find_record id rows

unfoldable pub find_attachment : Text → List AttachmentRow → Option AttachmentRow
find_attachment id [] = none
find_attachment id (a ∷ rows) = if text_eq a.id id then some a else find_attachment id rows

abbrev pub is_some {ℓ} : {A : Type ℓ} → Option A → Bool
is_some none = false
is_some (some a) = true

-- INSERT INTO records: `none` where the primary key is taken.
unfoldable pub create_record : Text → Bytes → ℕ → Tables → Option Tables
unfolding find_record
create_record id blob now t =
    if is_some (find_record id t.records)
    then none
    else some (record t {
      records = record { id = id; blob = blob; created_at = now; updated_at = now } ∷ t.records;
    })

-- UPDATE records SET encrypted_content, updated_at WHERE id
unfoldable pub set_content : Text → Bytes → ℕ → List RecordRow → List RecordRow
set_content id blob now [] = []
set_content id blob now (r ∷ rows) =
    (if text_eq r.id id then record r { blob = blob; updated_at = now } else r)
    ∷ set_content id blob now rows

-- The Boolean is `n > 0`, for the `n` rows that the statement changed.
unfoldable pub update_record : Text → Bytes → ℕ → Tables → Bool × Tables
unfolding set_content find_record
update_record id blob now t =
    (is_some (find_record id t.records), record t { records = set_content id blob now t.records })

unfoldable pub set_updated : Text → ℕ → List RecordRow → List RecordRow
set_updated id now [] = []
set_updated id now (r ∷ rows) =
    (if text_eq r.id id then record r { updated_at = now } else r) ∷ set_updated id now rows

unfoldable pub touch_record : Text → ℕ → Tables → Tables
unfolding set_updated
touch_record id now t = record t { records = set_updated id now t.records }

abbrev pub belongs_to : Text → AttachmentRow → Bool
belongs_to record_id a = text_eq a.record_id record_id

abbrev pub attachment_ids : List AttachmentRow → List Text
attachment_ids [] = []
attachment_ids (a ∷ rows) = a.id ∷ attachment_ids rows

-- The ids of the attachments are read first; the delete cascades to their rows.
unfoldable pub delete_record : Text → Tables → Option (List Text) × Tables
unfolding find_record
delete_record id t = (
  (if is_some (find_record id t.records)
      then some (attachment_ids (keep (belongs_to id) t.attachments))
      else none),
  (if is_some (find_record id t.records)
      then record {
        records = keep (λ r. not (text_eq r.id id)) t.records;
        attachments = keep (λ a. not (belongs_to id a)) t.attachments;
      }
      else t),
)

unfoldable pub get_record : Text → Tables → Option RecordRow
unfolding find_record
get_record id t = find_record id t.records

-- BINARY collation of ids: byte by byte, which is code point by code point for UTF-8.
unfoldable pub text_leb : Text → Text → Bool
text_leb [] t = true
text_leb (a ∷ s) [] = false
text_leb (a ∷ s) (b ∷ t) = ltb a b || a == b && text_leb s t

-- ORDER BY updated_at DESC, id DESC
unfoldable pub newer : RecordRow → RecordRow → Bool
unfolding text_leb
newer r s = ltb s.updated_at r.updated_at || r.updated_at == s.updated_at && text_leb s.id r.id

-- ORDER BY created_at ASC, id ASC
unfoldable pub earlier : AttachmentRow → AttachmentRow → Bool
unfolding text_leb
earlier a b = ltb a.created_at b.created_at || a.created_at == b.created_at && text_leb a.id b.id

-- The rows of a SELECT in the order of its ORDER BY. The orders of the program end with the
-- primary key, so they leave only one arrangement.
module _ {ℓ} {A : Type ℓ} (before : A → A → Bool) where
  unfoldable pub insert_by : A → List A → List A
  insert_by x [] = x ∷ []
  insert_by x (y ∷ ys) = if before x y then x ∷ y ∷ ys else y ∷ insert_by x ys

  unfoldable pub order_by : List A → List A
  unfolding insert_by
  order_by [] = []
  order_by (x ∷ xs) = insert_by x (order_by xs)

-- `(page.max(1) - 1) * page_size` on `i64`, which wraps in a release build; a negative OFFSET is 0.
unfoldable pub offset_of : ℕ → ℤ → ℕ
offset_of page (pos page_size) =
    let product = (max page 1 - 1) * page_size % 2 ^ 64 in
    if ltb product i64_limit then product else 0
offset_of page (negsuc n) =
    let product = (2 ^ 64 - (max page 1 - 1) * suc n % 2 ^ 64) % 2 ^ 64 in
    if ltb product i64_limit then product else 0

-- A negative LIMIT is none.
abbrev pub limited {ℓ} : {A : Type ℓ} → ℤ → List A → List A
limited (pos n) rows = take n rows
limited (negsuc n) rows = rows

-- LIMIT page_size OFFSET offset, and the count of all rows
unfoldable pub list_records : ℕ → ℤ → Tables → List RecordRow × ℕ
unfolding offset_of order_by newer
list_records page page_size t = (
  limited page_size (drop (offset_of page page_size) (order_by newer t.records)),
  length t.records,
)

-- INSERT INTO attachments: `none` where the primary key is taken or the record is not there.
unfoldable pub insert_attachment : AttachmentRow → Tables → Option Tables
unfolding find_record find_attachment
insert_attachment a t =
    if is_some (find_attachment a.id t.attachments)
      || not (is_some (find_record a.record_id t.records))
    then none
    else some (record t { attachments = a ∷ t.attachments })

unfoldable pub get_attachment : Text → Tables → Option AttachmentRow
unfolding find_attachment
get_attachment id t = find_attachment id t.attachments

unfoldable pub list_attachments : Text → Tables → List AttachmentRow
unfolding order_by earlier
list_attachments record_id t = order_by earlier (keep (belongs_to record_id) t.attachments)

-- WHERE record_id IN (...)
unfoldable pub attachments_for_records : List Text → Tables → List AttachmentRow
unfolding order_by earlier
attachments_for_records [] t = []
attachments_for_records (id ∷ ids) t =
    order_by earlier (keep (λ a. one_of a.record_id (id ∷ ids)) t.attachments)

-- the row that WHERE id AND record_id selects
abbrev pub is_attachment : Text → Text → AttachmentRow → Bool
is_attachment record_id id a = text_eq a.id id && text_eq a.record_id record_id

abbrev pub first_of_rows {ℓ} : {A : Type ℓ} → List A → Option A
first_of_rows [] = none
first_of_rows (x ∷ xs) = some x

-- The row is returned, and deleted, only under the record that is named.
unfoldable pub delete_attachment : Text → Text → Tables → Option AttachmentRow × Tables
delete_attachment record_id id t = (
  first_of_rows (keep (is_attachment record_id id) t.attachments),
  record t { attachments = keep (λ a. not (is_attachment record_id id a)) t.attachments },
)

unfoldable pub all_attachment_ids : Tables → List Text
all_attachment_ids t = attachment_ids t.attachments
