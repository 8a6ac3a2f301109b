-- ===== src/Start/Directories.antt =====
-- `FileStore::new` and `orphan_scan` of src/files.rs.
use aardbin.Prelude.{Bytes, List, Option, Text, [], if◌then◌else◌, none, one_of, some, true, ◌∷◌}
use aardbin.Prelude.Dict.{Dict, remove}
use aardbin.App.{head_fault}
use aardbin.Start.Volume.{Task, Volume, call, doing, pure, spend, ◌>>=◌, ◌>>◌}

-- `create_dir_all` keeps a directory that is there.
abbrev pub dir_or_new : Option (Dict Bytes) → Dict Bytes
dir_or_new none = []
dir_or_new (some files) = files

abbrev pub make_data_dir : Volume → Volume
make_data_dir v = record v { data_dir = true }

-- a directory below `data_dir`, which is made if it is not there
abbrev pub make_attachments : Volume → Volume
make_attachments v = record v { data_dir = true; attachments = some (dir_or_new v.attachments) }

abbrev pub make_tmp : Volume → Volume
make_tmp v = record v { data_dir = true; tmp = some (dir_or_new v.tmp) }

unfoldable pub new : Task (Unit {0})
new = do call (doing make_attachments); call (doing make_tmp)

abbrev pub names : Dict Bytes → List Text
names [] = []
names ((name, content) ∷ files) = name ∷ names files

-- `read_dir`
abbrev pub listed : Option (Dict Bytes) → Volume → Option (List Text × Volume)
listed none v = none
listed (some files) v = some (names files, v)

-- `next_entry`, whose failure ends the scan
abbrev pub next_entry : Task (Unit {0})
next_entry = call (doing (λ v. v))

abbrev pub without : Text → Option (Dict Bytes) → Option (Dict Bytes)
without name none = none
without name (some files) = some (remove name files)

-- `let _ = remove_file`
unfoldable pub remove_stale : Text → Task (Unit {0})
remove_stale name v = (
  some tt,
  (if head_fault v.faults then spend v else record (spend v) { tmp = without name v.tmp }),
)

unfoldable pub remove_all : List Text → Task (Unit {0})
unfolding remove_stale
remove_all [] = next_entry
remove_all (name ∷ stale) = do next_entry; remove_stale name; remove_all stale

-- The names that are logged: files that the database does not know. They are left alone.
unfoldable pub orphans : List Text → List Text → Task (List Text)
orphans known [] = do next_entry; pure []
orphans known (name ∷ files) = do
  next_entry
  rest_of ← orphans known files
  pure (if one_of name known then rest_of else name ∷ rest_of)

unfoldable pub orphan_scan : List Text → Task (List Text)
unfolding remove_all orphans
orphan_scan known = do
  stale ← call (λ v. listed v.tmp v)
  remove_all stale
  files ← call (λ v. listed v.attachments v)
  orphans known files
