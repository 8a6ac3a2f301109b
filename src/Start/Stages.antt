-- ===== src/Start/Stages.antt =====
-- How far a migration of `aardbin.db` may have come, and the calls on the file at each point.
use mathlib.Core.Path.{subst}
use aardbin.Prelude.{
  Option, false, inl, none, refl, some, sym, take, true, ap, suc, arith, ℕ, ◌∙◌, ◌≡◌, ◌⊎◌,
}
use aardbin.Db
use aardbin.Start.Volume.{DbFile, Volume, call, spend}
use aardbin.Start.Database.{Connection, below_one, file_or_new, on_file, schema_v1, version_of}
use aardbin.Start.Ends.{Ends}
use aardbin.Start.Kept.{Ends-step, Kept, Kept-refl, any_fault}

-- A migration that has run `k` statements of the schema, and has not written the version.
pub record IsPartial (k : ℕ) (f : DbFile) : Type 0 where
  pub declared : f.schema ≡ take k schema_v1
  pub unversioned : below_one f.user_version ≡ true
  pub no_rows : f.tables ≡ Db.empty

pub record IsWhole (f : DbFile) : Type 0 where
  pub declared : f.schema ≡ schema_v1
  pub versioned : below_one f.user_version ≡ false

abbrev pub IsSound : DbFile → Type 0
IsSound f = ((k : ℕ) × IsPartial k f) ⊎ IsWhole f

-- A migration that was stopped after its first statement.
abbrev pub IsInterrupted : DbFile → Type 0
IsInterrupted f = (k : ℕ) × IsPartial (suc k) f

pub record IsLeft (u v : Volume) : Type 0 where
  pub kept : Kept u v
  pub sound : IsSound (file_or_new v.database)
  pub reason : (any_fault u.faults ≡ true) ⊎ IsInterrupted (file_or_new u.database)

pub record IsReady (u : Volume) (conn : Connection) (v : Volume) : Type 0 where
  pub kept : Kept u v
  pub file : DbFile
  pub found : v.database ≡ some file
  pub whole : IsWhole file
  pub constraints_on : conn.foreign_keys ≡ true
  pub uninterrupted : ¬ IsInterrupted (file_or_new u.database)

pub found_version :
    (f : DbFile) (v : Volume) → v.database ≡ some f → version_of v ≡ some (f.user_version, v)
found_version f v found = ground (arith, found)

-- The file is there, and all else has been kept.
pub record At (u : Volume) (f : DbFile) (v : Volume) : Type 0 where
  pub kept : Kept u v
  pub found : v.database ≡ some f

pub left_of :
    (f : DbFile) (v : Volume) → IsSound f → v.database ≡ some f → IsSound (file_or_new v.database)
left_of f v sound found = subst (λ d. IsSound (file_or_new d)) (sym found) sound

pub on_file-done :
    (g : DbFile → Option DbFile) (f f' : DbFile) (v : Volume)
    → v.database ≡ some f
    → g f ≡ some f'
    → on_file g v ≡ some (tt, record v { database = some f' })
on_file-done g f f' v found works = ground (arith, found, works)

pub on_file-stuck :
    (g : DbFile → Option DbFile) (f : DbFile) (v : Volume)
    → v.database ≡ some f
    → g f ≡ none
    → on_file g v ≡ none
on_file-stuck g f v found stuck = ground (arith, found, stuck)

Kept-rows :
    (f f' : DbFile) (v : Volume)
    → v.database ≡ some f
    → f'.tables ≡ f.tables
    → Kept v (record v { database = some f' })
Kept-rows f f' v found same = record {
  tables = same ∙ ap (λ d. (file_or_new d).tables) (sym found);
  stored = refl;
  temps = λ name content h. h;
  troubles = λ h. h;
}

module _ (u : Volume) where
  left_at :
      (f : DbFile) (v : Volume)
      → At u f v
      → IsSound f
      → Kept u (spend v)
      → any_fault u.faults ≡ true
      → IsLeft u (spend v)
  left_at f v at sound kept bad = record {
    kept = kept;
    sound = left_of f v sound at.found;
    reason = inl bad;
  }

  pub on_file-At :
      (g : DbFile → Option DbFile) (f f' : DbFile) (v : Volume)
      → At u f v
      → IsSound f
      → g f ≡ some f'
      → f'.tables ≡ f.tables
      → Ends (λ _. At u f') (IsLeft u) (call (on_file g) v)
  on_file-At g f f' v at sound works same =
      Ends-step u (on_file g) v tt (record (spend v) { database = some f' }) at.kept
        (on_file-done g f f' (spend v) at.found works) (Kept-rows f f' (spend v) at.found same)
        (left_at f v at sound) (λ kept. record { kept = kept; found = refl })

  -- a call that reads the file, or sets the connection
  pub reads-At :
      {A : Type 0} (g : Volume → Option (A × Volume)) (f : DbFile) (v : Volume) (a : A)
      → At u f v
      → IsSound f
      → g (spend v) ≡ some (a, spend v)
      → Ends (λ b w. (b ≡ a) × At u f w) (IsLeft u) (call g v)
  reads-At g f v a at sound works =
      Ends-step u g v a (spend v) at.kept works (Kept-refl _) (left_at f v at sound)
        (λ kept. (refl, record { kept = kept; found = at.found }))

  -- a call on what is beside the file
  pub beside-At :
      {A : Type 0} {P : A → Volume → Type 0} (g : Volume → Option (A × Volume)) (f : DbFile)
      (v : Volume) (a : A) (w : Volume)
      → At u f v
      → IsSound f
      → g (spend v) ≡ some (a, w)
      → Kept (spend v) w
      → w.database ≡ v.database
      → (At u f w → P a w)
      → Ends P (IsLeft u) (call g v)
  beside-At g f v a w at sound works step same done =
      Ends-step u g v a w at.kept works step (left_at f v at sound)
        (λ kept. done (record { kept = kept; found = same ∙ at.found }))
