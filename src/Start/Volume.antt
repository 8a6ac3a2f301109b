-- ===== src/Start/Volume.antt =====
-- What stays on the disk between two runs of the server, and the calls that a start makes on it. A
-- call may fail, and the process may be stopped in any call: both are entries of `faults`.
use aardbin.Prelude.{Bool, Bytes, List, Option, if◌then◌else◌, none, some, ℤ}
use aardbin.Prelude.Dict.{Dict}
use aardbin.Db.{Tables}
use aardbin.App.{head_fault, rest_faults}

-- The statements of `SCHEMA_V1`.
pub data SchemaObject : Type 0 where
  records_table idx_records_updated_at attachments_table idx_attachments_record_id : SchemaObject

-- `aardbin.db`: what it declares, `PRAGMA user_version`, and the rows. The tables have no row while
-- they are not declared.
pub record DbFile : Type 0 where
  pub schema : List SchemaObject
  pub user_version : ℤ
  pub wal : Bool
  pub tables : Tables

-- A file or a directory that is not there is `none`.
pub record Volume : Type 0 where
  pub data_dir : Bool
  pub database : Option DbFile
  pub attachments : Option (Dict Bytes)
  pub tmp : Option (Dict Bytes)
  -- `true` is a call that fails
  pub faults : List Bool

abbrev pub Task : Type 0 → Type 0
Task A = Volume → Option A × Volume

abbrev pub pure : {A : Type 0} → A → Task A
pure a v = (some a, v)

-- `?`
abbrev pub continue : {A B : Type 0} → Option A × Volume → (A → Task B) → Option B × Volume
continue (none, v) f = (none, v)
continue (some a, v) f = f a v

infixl 5 ◌>>=◌ ◌>>◌
abbrev pub ◌>>=◌ : {A B : Type 0} → Task A → (A → Task B) → Task B
◌>>=◌ m f v = continue (m v) f

abbrev pub ◌>>◌ : {A B : Type 0} → Task A → Task B → Task B
m >> k = m >>= λ _. k

abbrev pub spend : Volume → Volume
spend v = record v { faults = rest_faults v.faults }

-- One call: where it fails, it has done nothing.
unfoldable pub call : {A : Type 0} → (Volume → Option (A × Volume)) → Task A
call f v =
    if head_fault v.faults
    then (none, spend v)
    else elim (f (spend v)) [ none ↦ (none, spend v) | some (a, v') ↦ (some a, v') ]

-- A call that gives nothing back.
abbrev pub doing : (Volume → Volume) → Volume → Option (Unit {0} × Volume)
doing f v = some (tt, f v)
