-- ===== src/Start/Database.antt =====
-- `Db::open` and `migrate` of src/db.rs. A batch has no transaction of its own: each statement is
-- committed when it has run.
use aardbin.Prelude.{
  Bool, List, Option, [], false, if◌then◌else◌, ltb, none, some, true, ℕ, ℤ, pos, negsuc, ◌++◌,
  ◌==◌, ◌||◌, ◌∷◌,
}
use aardbin.Db
use aardbin.Db.{Tables, is_some}
use aardbin.Start.Volume.{
  DbFile, SchemaObject, Task, Volume, attachments_table, call, idx_attachments_record_id,
  idx_records_updated_at, pure, records_table, ◌>>=◌, ◌>>◌,
}

abbrev object_code : SchemaObject → ℕ
object_code records_table = 0
object_code idx_records_updated_at = 1
object_code attachments_table = 2
object_code idx_attachments_record_id = 3

-- whether the file declares the object
abbrev pub declares : SchemaObject → List SchemaObject → Bool
declares o [] = false
declares o (p ∷ ps) = object_code p == object_code o || declares o ps

abbrev pub schema_v1 : List SchemaObject
schema_v1 =
    records_table ∷ idx_records_updated_at ∷ attachments_table ∷ idx_attachments_record_id ∷ []

-- CREATE TABLE and CREATE INDEX, with no IF NOT EXISTS
unfoldable pub create_object : SchemaObject → DbFile → Option DbFile
create_object o f =
    if declares o f.schema then none else some (record f { schema = f.schema ++ o ∷ [] })

-- The file that `Connection::open` creates.
abbrev pub new_file : DbFile
new_file = record { schema = []; user_version = pos 0; wal = false; tables = Db.empty }

abbrev pub file_or_new : Option DbFile → DbFile
file_or_new none = new_file
file_or_new (some f) = f

-- A file opens only in a directory that is there.
abbrev pub opened_file : Volume → Option (Unit {0} × Volume)
opened_file v =
    if v.data_dir then some (tt, record v { database = some (file_or_new v.database) }) else none

-- A statement on the file.
abbrev pub on_file : (DbFile → Option DbFile) → Volume → Option (Unit {0} × Volume)
on_file f v = elim v.database [
  | none ↦ none
  | some file ↦ elim (f file) [
    | none ↦ none
    | some file' ↦ some (tt, record v { database = some file' })
  ]
]

unfoldable pub execute_batch : List SchemaObject → Task (Unit {0})
unfolding create_object
execute_batch [] = pure tt
execute_batch (o ∷ os) = do call (on_file (create_object o)); execute_batch os

abbrev pub below_one : ℤ → Bool
below_one (pos n) = ltb n 1
below_one (negsuc n) = true

abbrev pub version_of : Volume → Option (ℤ × Volume)
version_of v = elim v.database [ none ↦ none | some f ↦ some (f.user_version, v) ]

abbrev pub set_version : DbFile → Option DbFile
set_version f = some (record f { user_version = pos 1 })

abbrev pub set_wal : DbFile → Option DbFile
set_wal f = some (record f { wal = true })

unfoldable pub migrate : Task (Unit {0})
unfolding execute_batch
migrate = do
  version ← call version_of
  if below_one version then (do execute_batch schema_v1; call (on_file set_version)) else pure tt

-- What holds for a connection and is not in the file; a connection starts with other values.
pub record Connection : Type 0 where
  pub foreign_keys : Bool
  pub busy_timeout : ℕ

-- `Db::open`
unfoldable pub open_db : Connection → Task Connection
unfolding migrate
open_db defaults = do
  call opened_file
  call (on_file set_wal)
  with_keys ← call (λ v. some (record defaults { foreign_keys = true }, v))
  with_timeout ← call (λ v. some (record with_keys { busy_timeout = 5000 }, v))
  migrate
  pure with_timeout

-- `all_attachment_ids`, as one call
unfoldable pub known_ids : Volume → Option (List (List ℕ) × Volume)
unfolding Db.all_attachment_ids
known_ids v = elim v.database [ none ↦ none | some f ↦ some (Db.all_attachment_ids f.tables, v) ]
