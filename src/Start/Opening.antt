-- ===== src/Start/Opening.antt =====
-- What `Db::open` makes of any file that earlier starts have left, stopped wherever they were.
use aardbin.Prelude.{inl, inr, refl, some, true, ap, zero, suc, ℕ, ◌∙◌, ◌≡◌}
use aardbin.Start.Volume.{DbFile, Task, Volume, call, pure, spend, ◌>>=◌, ◌>>◌}
use aardbin.Start.Database.{
  Connection, file_or_new, migrate, on_file, open_db, opened_file, set_wal,
}
use aardbin.Start.Ends.{Ends, Ends-continue}
use aardbin.Start.Kept.{Ends-step, Kept-refl}
use aardbin.Start.Stages.{
  At, IsInterrupted, IsLeft, IsPartial, IsReady, IsSound, IsWhole, on_file-At, reads-At,
}
use aardbin.Start.Migrations.{Migrated, migrate-fresh, migrate-interrupted, migrate-whole}

abbrev with_wal : DbFile → DbFile
with_wal f = record f { wal = true }

IsPartial-wal : (k : ℕ) (f : DbFile) → IsPartial k f → IsPartial k (with_wal f)
IsPartial-wal k f partial = record {
  declared = partial.declared;
  unversioned = partial.unversioned;
  no_rows = partial.no_rows;
}

with_wal-IsSound : (f : DbFile) → IsSound f → IsSound (with_wal f)
with_wal-IsSound f (inl (k, partial)) = inl (k, IsPartial-wal k f partial)
with_wal-IsSound f (inr whole) =
    inr (record { declared = whole.declared; versioned = whole.versioned })

fresh_start : (f : DbFile) → IsPartial 0 f → ¬ IsInterrupted f
fresh_start f none_yet (k, some_yet) = cc (none_yet.declared, some_yet.declared)

pub whole_start : (f : DbFile) → IsWhole f → ¬ IsInterrupted f
whole_start f whole (k, some_yet) = cc (whole.versioned, some_yet.unversioned)

-- The rest of `Db::open` behind each of its calls.
abbrev then_migrate : Connection → Task Connection
then_migrate conn = migrate >> pure conn

abbrev then_timeout : Connection → Task Connection
then_timeout conn = call (λ v. some (record conn { busy_timeout = 5000 }, v)) >>= then_migrate

abbrev then_keys : Connection → Task Connection
then_keys conn = call (λ v. some (record conn { foreign_keys = true }, v)) >>= then_timeout

abbrev then_wal : Connection → Task Connection
then_wal conn = call (on_file set_wal) >> then_keys conn

module _ (u : Volume) where
  abbrev found_first : DbFile
  found_first = file_or_new u.database

  ready :
      (conn : Connection)
      → conn.foreign_keys ≡ true
      → ¬ IsInterrupted found_first
      → (x : Unit {0}) (v : Volume) → Migrated u x v
      → Ends (IsReady u) (IsLeft u) (pure conn v)
  ready conn keys first x v end = record {
    how = record {
      kept = end.kept;
      file = end.file;
      found = end.found;
      whole = end.whole;
      constraints_on = keys;
      uninterrupted = first;
    };
  }

  migrates :
      (conn : Connection) (v : Volume)
      → conn.foreign_keys ≡ true
      → At u (with_wal found_first) v
      → IsSound found_first
      → Ends (IsReady u) (IsLeft u) (then_migrate conn v)
  migrates conn v keys at (inr whole) =
      let whole_wal : IsWhole (with_wal found_first) = record {
        declared = whole.declared;
        versioned = whole.versioned;
      } in
      Ends-continue _ (λ _. pure conn) (migrate-whole u _ v at whole_wal)
        (ready conn keys (whole_start _ whole))
  migrates conn v keys at (inl (zero, none_yet)) =
      Ends-continue _ (λ _. pure conn)
        (migrate-fresh u _ v at (IsPartial-wal zero found_first none_yet))
        (ready conn keys (fresh_start _ none_yet))
  migrates conn v keys at (inl (suc k, some_yet)) =
      Ends-continue _ (λ _. pure conn)
        (migrate-interrupted u k _ v at (IsPartial-wal (suc k) found_first some_yet) (k, some_yet))
        (λ _ w no_way. absurd no_way)

  timed :
      (conn : Connection) (v : Volume)
      → conn.foreign_keys ≡ true
      → At u (with_wal found_first) v
      → IsSound found_first
      → Ends (IsReady u) (IsLeft u) (then_timeout conn v)
  timed conn v keys at sound =
      Ends-continue _ then_migrate
        (reads-At u (λ v. some (record conn { busy_timeout = 5000 }, v)) _ v _ at
          (with_wal-IsSound _ sound) refl)
        λ conn' w (same, at'). migrates conn' w (ap (λ c. c.foreign_keys) same ∙ keys) at' sound

  keyed :
      (conn : Connection) (v : Volume)
      → At u (with_wal found_first) v
      → IsSound found_first
      → Ends (IsReady u) (IsLeft u) (then_keys conn v)
  keyed conn v at sound =
      Ends-continue _ then_timeout
        (reads-At u (λ v. some (record conn { foreign_keys = true }, v)) _ v _ at
          (with_wal-IsSound _ sound) refl)
        λ conn' w (same, at'). timed conn' w (ap (λ c. c.foreign_keys) same) at' sound

  logged :
      (conn : Connection) (v : Volume)
      → At u found_first v
      → IsSound found_first
      → Ends (IsReady u) (IsLeft u) (then_wal conn v)
  logged conn v at sound =
      Ends-continue _ (λ _. then_keys conn)
        (on_file-At u set_wal found_first (with_wal found_first) v at sound refl refl)
        λ _ w at'. keyed conn w at' sound

-- Take `aardbin.db` as any earlier starts have left it, wherever they were stopped: with the whole
-- schema and its version, or with some of the statements run, no version and no row. Whatever calls
-- fail, the rows and the attachment files are the same after `Db::open`, and the file is again one of
-- these. If it succeeds, the schema is whole and the constraints of the tables are enforced. If it
-- fails, a call has failed, or the file has a first statement and no version: with such a file it
-- never succeeds.
pub open_db_lem :
    (conn : Connection) (u : Volume)
    → u.data_dir ≡ true
    → IsSound (file_or_new u.database)
    → Ends (IsReady u) (IsLeft u) (open_db conn u)
unfolding open_db
open_db_lem conn u dir sound =
    Ends-continue _ (λ _. then_wal conn)
      (Ends-step {P = λ _. At u (found_first u)} u opened_file u tt
        (record (spend u) { database = some (found_first u) }) (Kept-refl u) (rw dir)
        (record { tables = refl; stored = refl; temps = λ name content h. h; troubles = λ h. h })
        (λ kept bad. record { kept = kept; sound = sound; reason = inl bad })
        (λ kept. record { kept = kept; found = refl }))
      λ _ w at. logged u conn w at sound
