-- ===== src/Db/Tests.antt =====
-- A small database of src/db.rs, and the theorems at it.
use aardbin.Prelude.{[], codes, pos, refl, some, ◌∷◌, ◌≡◌}
use aardbin.Db.{
  AttachmentRow, RecordRow, Tables, create_record, delete_record, find_attachment, find_record,
  list_records,
}
use aardbin.Db.Integrity.{IsConsistent}

abbrev r1 : RecordRow
r1 = record { id = codes "r1"; blob = 1 ∷ []; created_at = 10; updated_at = 20 }

abbrev r2 : RecordRow
r2 = record { id = codes "r2"; blob = 2 ∷ []; created_at = 11; updated_at = 30 }

abbrev a1 : AttachmentRow
a1 = record {
  id = codes "a1";
  record_id = codes "r1";
  original_filename = codes "f.txt";
  size_bytes = 42;
  mime_type = codes "text/plain";
  created_at = 10;
}

abbrev two : Tables
two = record { records = r1 ∷ r2 ∷ []; attachments = a1 ∷ [] }

two-IsConsistent : IsConsistent two
unfolding find_record find_attachment
two-IsConsistent = record {
  records_unique = (refl, (refl, tt));
  attachments_unique = (refl, tt);
  linked = (refl, tt);
}

newest_first : (list_records 1 (pos 1) two).0 ≡ r2 ∷ []
unfolding list_records
newest_first = refl

abbrev without_r1 : Tables
without_r1 = (delete_record (codes "r1") two).1

removes_r1 : without_r1 ≡ record { records = r2 ∷ []; attachments = [] }
unfolding delete_record
removes_r1 = refl

abbrev three : Tables
three = record two {
  records = record { id = codes "r3"; blob = []; created_at = 50; updated_at = 50 } ∷ r1 ∷ r2 ∷ [];
}

created_r3 : create_record (codes "r3") [] 50 two ≡ some three
unfolding create_record
created_r3 = refl
