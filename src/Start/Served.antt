-- ===== src/Start/Served.antt =====
-- A whole start: what it leaves where it ends early, and what it serves where it does not.
use aardbin.Prelude.{
  Bool-cases, List, Text, [], arith, false, inl, inr, none, refl, some, sym, true, ◌≡◌, ◌⊎◌,
}
use mathlib.Core.Path.{subst}
use aardbin.Prelude.Dict.{find}
use aardbin.Config.{Config}
use aardbin.Db
use aardbin.Start.Volume.{DbFile, Task, Volume, call, doing, pure, spend, ◌>>=◌, ◌>>◌}
use aardbin.Start.Database.{Connection, file_or_new, known_ids, open_db}
use aardbin.Start.Directories.{dir_or_new, make_data_dir, new, orphan_scan}
use aardbin.Start.Main.{Platform, bound, prepare}
use aardbin.Start.Ends.{Ends, Ends-call-none, Ends-continue, Ends-mono}
use aardbin.Start.Kept.{Ends-step, Kept, Kept-refl, Kept-spend, Kept-trans, any_fault}
use aardbin.Start.Stages.{At, IsInterrupted, IsLeft, IsSound, IsWhole, beside-At, left_of}
use aardbin.Start.Opening.{open_db_lem}
use aardbin.Start.Scan.{IsCleared, Placed, new-Placed, orphan_scan-IsCleared}

-- An early end: why, and what is left.
pub record IsStopped (p : Platform) (cfg : Config) (u v : Volume) : Type 0 where
  pub kept : Kept u v
  pub sound : IsSound (file_or_new v.database)
  pub reason :
      (any_fault u.faults ≡ true)
      ⊎ (IsInterrupted (file_or_new u.database) ⊎ (p.can_bind cfg.listen_addr ≡ false))

pub record IsPrepared (u : Volume) (conn : Connection) (v : Volume) : Type 0 where
  pub kept : Kept u v
  pub whole : IsWhole (file_or_new v.database)
  pub constraints_on : conn.foreign_keys ≡ true
  pub cleaned : any_fault u.faults ≡ false → (name : Text) → find name (dir_or_new v.tmp) ≡ none

IsWhole-at :
    (f : DbFile) (v : Volume) → IsWhole f → v.database ≡ some f → IsWhole (file_or_new v.database)
IsWhole-at f v whole found = subst (λ d. IsWhole (file_or_new d)) (sym found) whole

ids_of :
    (f : DbFile) (v : Volume)
    → v.database ≡ some f
    → known_ids v ≡ some (Db.all_attachment_ids f.tables, v)
unfolding Db.all_attachment_ids known_ids
ids_of f v found = ground (arith, found)

-- The first call makes the directory.
record IsMade (u w : Volume) : Type 0 where
  kept : Kept u w
  there : w.data_dir ≡ true
  same : w.database ≡ u.database

module _ (p : Platform) (cfg : Config) (u : Volume) where
  stopped : (v : Volume) → IsLeft u v → IsStopped p cfg u v
  stopped v left = record { kept = left.kept; sound = left.sound; reason = why left.reason }
    where
      why :
          (any_fault u.faults ≡ true) ⊎ IsInterrupted (file_or_new u.database)
          → (any_fault u.faults ≡ true)
            ⊎ (IsInterrupted (file_or_new u.database) ⊎ (p.can_bind cfg.listen_addr ≡ false))
      why (inl bad) = inl bad
      why (inr halfway) = inr (inl halfway)

  left_from : (w : Volume) → IsMade u w → (x : Volume) → IsLeft w x → IsLeft u x
  left_from w made x left = record {
    kept = Kept-trans made.kept left.kept;
    sound = left.sound;
    reason = why left.reason;
  }
    where
      why :
          (any_fault w.faults ≡ true) ⊎ IsInterrupted (file_or_new w.database)
          → (any_fault u.faults ≡ true) ⊎ IsInterrupted (file_or_new u.database)
      why (inl bad) = inl (made.kept.troubles bad)
      why (inr halfway) = inr (subst (λ d. IsInterrupted (file_or_new d)) made.same halfway)

  abbrev then_bind : Connection → Task Connection
  then_bind conn = call (bound p cfg) >> pure conn

  abbrev then_scan : Connection → List Text → Task Connection
  then_scan conn known = orphan_scan known >> then_bind conn

  abbrev then_ids : Connection → Task Connection
  then_ids conn = call known_ids >>= then_scan conn

  abbrev then_new : Connection → Task Connection
  then_new conn = new >> then_ids conn

  module _ (conn : Connection) (keys : conn.foreign_keys ≡ true) (f : DbFile)
      (whole : IsWhole f) where
    binds :
        (v : Volume)
        → IsCleared u f [] v
        → Ends (IsPrepared u) (IsStopped p cfg u) (then_bind conn v)
    binds v c = elim (Bool-cases (p.can_bind cfg.listen_addr)) [
      | inl free ↦
          Ends-continue _ (λ _. pure conn)
            (Ends-step {P = λ _. IsPrepared u conn} u (bound p cfg) v tt (spend v) c.placed.at.kept
              (rw free) (Kept-refl _)
              (λ kept bad. record {
                kept = kept;
                sound = left_of f v (inr whole) c.placed.at.found;
                reason = inl bad;
              })
              (λ kept. record {
                kept = kept;
                whole = IsWhole-at f v whole c.placed.at.found;
                constraints_on = keys;
                cleaned = λ fine name. c.gone fine name refl;
              }))
            (λ _ w done. record { how = done })
      | inr taken ↦
          Ends-continue _ (λ _. pure conn)
            (Ends-call-none {P = λ _ w. ⊥} (bound p cfg) v (rw taken) (record {
              kept = Kept-trans c.placed.at.kept (Kept-spend v);
              sound = left_of f v (inr whole) c.placed.at.found;
              reason = inr (inr taken);
            }))
            (λ _ w no_way. absurd no_way)
    ]

    scans : (v : Volume) → Placed u f v → Ends (IsPrepared u) (IsStopped p cfg u) (then_ids conn v)
    scans v placed =
        Ends-continue _ (then_scan conn)
          (Ends-mono _
            (beside-At u {P = λ _. Placed u f} known_ids f v (Db.all_attachment_ids f.tables)
              (spend v) placed.at (inr whole) (ids_of f (spend v) placed.at.found) (Kept-refl _)
              refl
              (λ at. record { at = at; temp_dir = placed.temp_dir; file_dir = placed.file_dir }))
            (λ known w h. h) stopped)
          λ known w placed'.
            Ends-continue _ (λ _. then_bind conn)
              (Ends-mono _ (orphan_scan-IsCleared u f (inr whole) known w placed') (λ _ x h. h)
                stopped)
              λ _ x c. binds x c

    places : (v : Volume) → At u f v → Ends (IsPrepared u) (IsStopped p cfg u) (then_new conn v)
    places v at =
        Ends-continue _ (λ _. then_ids conn)
          (Ends-mono _ (new-Placed u f (inr whole) v at) (λ _ w h. h) stopped)
          λ _ w placed. scans w placed

  pub prepare_lem :
      IsSound (file_or_new u.database) → Ends (IsPrepared u) (IsStopped p cfg u) (prepare p cfg u)
  unfolding prepare
  prepare_lem sound =
      Ends-continue _ (λ _. open_db p.defaults >>= then_new)
        (Ends-step {P = λ _. IsMade u} u (doing make_data_dir) u tt (make_data_dir (spend u))
          (Kept-refl u) refl
          (record { tables = refl; stored = refl; temps = λ name content h. h; troubles = λ h. h })
          (λ kept bad. record { kept = kept; sound = sound; reason = inl bad })
          (λ kept. record { kept = kept; there = refl; same = refl }))
        λ _ w made.
          Ends-continue _ then_new
            (Ends-mono _
              (open_db_lem p.defaults w made.there
                (subst (λ d. IsSound (file_or_new d)) (sym made.same) sound))
              (λ conn x ready. ready) (λ x left. stopped x (left_from w made x left)))
            λ conn x ready.
              places conn ready.constraints_on ready.file ready.whole x
                (record { kept = Kept-trans made.kept ready.kept; found = ready.found })
