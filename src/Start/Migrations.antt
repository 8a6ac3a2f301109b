-- ===== src/Start/Migrations.antt =====
-- `migrate` of src/db.rs on a file of any of the three kinds.
use mathlib.Core.Path.{subst}
use aardbin.Prelude.{
  Bool, List, [], false, if◌then◌else◌, inl, inr, none, refl, some, sym, take, true, ap, suc, ℕ,
  pos, ◌∙◌, ◌∷◌, ◌≡◌,
}
use aardbin.Start.Volume.{
  DbFile, SchemaObject, Task, Volume, attachments_table, call, continue, idx_attachments_record_id,
  idx_records_updated_at, pure, records_table, spend, ◌>>◌,
}
use aardbin.Start.Database.{
  below_one, create_object, execute_batch, file_or_new, migrate, on_file, schema_v1, set_version,
  version_of,
}
use aardbin.Start.Ends.{Ends, Ends-call-none, Ends-continue, Ends-mono}
use aardbin.Start.Kept.{Kept, Kept-spend, Kept-trans}
use aardbin.Start.Stages.{
  At, IsInterrupted, IsLeft, IsPartial, IsSound, IsWhole, found_version, left_of, on_file-At,
  on_file-stuck, reads-At,
}

abbrev last_two : List SchemaObject
last_two = attachments_table ∷ idx_attachments_record_id ∷ []

-- what `migrate` does once it has compared the version
abbrev after_test : Bool → Task (Unit {0})
after_test below = if below then execute_batch schema_v1 >> call (on_file set_version) else pure tt

module _ (u : Volume) where
  -- the file when `k` statements have run
  abbrev declaring : ℕ → DbFile → DbFile
  declaring k f = record f { schema = take k schema_v1 }

  module _ (f : DbFile) (none_yet : IsPartial 0 f) where
    IsPartial-at : (k : ℕ) → IsPartial k (declaring k f)
    IsPartial-at k = record {
      declared = refl;
      unversioned = none_yet.unversioned;
      no_rows = none_yet.no_rows;
    }

    batch_step :
        (k : ℕ) (o : SchemaObject) (os : List SchemaObject) (v : Volume)
        → create_object o (declaring k f) ≡ some (declaring (suc k) f)
        → ((w : Volume)
            → At u (declaring (suc k) f) w
            → Ends (λ _. At u (declaring 4 f)) (IsLeft u) (execute_batch os w))
        → At u (declaring k f) v
        → Ends (λ _. At u (declaring 4 f)) (IsLeft u) (execute_batch (o ∷ os) v)
    unfolding execute_batch
    batch_step k o os v works then_do at =
        Ends-continue _ (λ _. execute_batch os)
          (on_file-At u (create_object o) (declaring k f) (declaring (suc k) f) v at
            (inl (k, IsPartial-at k)) works refl)
          (λ _. then_do)

    batch-At :
        (v : Volume)
        → At u (declaring 0 f) v
        → Ends (λ _. At u (declaring 4 f)) (IsLeft u) (execute_batch schema_v1 v)
    unfolding execute_batch create_object
    batch-At v = batch_step 0 records_table (idx_records_updated_at ∷ last_two) v refl λ v1.
        batch_step 1 idx_records_updated_at last_two v1 refl λ v2.
          batch_step 2 attachments_table (idx_attachments_record_id ∷ []) v2 refl
            λ v3. batch_step 3 idx_attachments_record_id [] v3 refl λ v4. λ at. record { how = at }

    abbrev migrated : DbFile
    migrated = record (declaring 4 f) { user_version = pos 1 }

    new_schema-At :
        (v : Volume)
        → At u (declaring 0 f) v
        → Ends
            (λ _. At u migrated)
            (IsLeft u)
            (continue (execute_batch schema_v1 v) λ _. call (on_file set_version))
    new_schema-At v at =
        Ends-continue _ (λ _. call (on_file set_version)) (batch-At v at)
          λ _ w at'.
            on_file-At u set_version (declaring 4 f) migrated w at' (inl (4, IsPartial-at 4)) refl
              refl

  -- what the migration makes of a file that no migration has left halfway
  pub record Migrated (nothing : Unit {0}) (v : Volume) : Type 0 where
    pub kept : Kept u v
    pub file : DbFile
    pub found : v.database ≡ some file
    pub whole : IsWhole file

  migrate-by :
      {P : Unit {0} → Volume → Type 0} (f : DbFile) (v : Volume) (below : Bool)
      → below_one f.user_version ≡ below
      → At u f v
      → IsSound f
      → ((w : Volume) → At u f w → Ends P (IsLeft u) (after_test below w))
      → Ends P (IsLeft u) (migrate v)
  unfolding migrate
  migrate-by {P = P} f v below test at sound next =
      Ends-continue _ (λ version. after_test (below_one version))
        (reads-At u version_of f v f.user_version at sound (found_version f (spend v) at.found))
        λ version w (same, at').
          subst (λ b. Ends P (IsLeft u) (after_test b w)) (sym (ap below_one same ∙ test))
            (next w at')

  pub migrate-whole :
      (f : DbFile) (v : Volume) → At u f v → IsWhole f → Ends Migrated (IsLeft u) (migrate v)
  migrate-whole f v at whole = migrate-by f v false whole.versioned at (inr whole) λ w at'. record {
    how = record { kept = at'.kept; file = f; found = at'.found; whole = whole };
  }

  same_file : (f : DbFile) → IsPartial 0 f → f ≡ declaring 0 f
  same_file f none_yet = rw none_yet.declared

  pub migrate-fresh :
      (f : DbFile) (v : Volume) → At u f v → IsPartial 0 f → Ends Migrated (IsLeft u) (migrate v)
  migrate-fresh f v at none_yet =
      migrate-by f v true none_yet.unversioned at (inl (0, none_yet)) λ w at'.
        Ends-mono _ (new_schema-At f none_yet w (subst (λ g. At u g w) (same_file f none_yet) at'))
          (λ _ x end. record {
            kept = end.kept;
            file = migrated f none_yet;
            found = end.found;
            whole = record { declared = refl; versioned = refl };
          })
          (λ x left. left)

  stuck_table : (k : ℕ) (f : DbFile) → IsPartial (suc k) f → create_object records_table f ≡ none
  unfolding create_object
  stuck_table k f some_yet = rw some_yet.declared

  -- The first statement fails, whatever else does.
  pub migrate-interrupted :
      (k : ℕ) (f : DbFile) (v : Volume)
      → At u f v
      → IsPartial (suc k) f
      → IsInterrupted (file_or_new u.database)
      → Ends (λ _ w. ⊥) (IsLeft u) (migrate v)
  unfolding migrate execute_batch
  migrate-interrupted k f v at some_yet why =
      migrate-by f v true some_yet.unversioned at (inl (suc k, some_yet)) λ w at'.
        let refused : IsLeft u (spend w) = record {
          kept = Kept-trans at'.kept (Kept-spend w);
          sound = left_of f w (inl (suc k, some_yet)) at'.found;
          reason = inr why;
        } in
        let stuck : Ends (λ _ x. ⊥) (IsLeft u) (call (on_file (create_object records_table)) w) =
          Ends-call-none (on_file (create_object records_table)) w
            (on_file-stuck (create_object records_table) f (spend w) at'.found
              (stuck_table k f some_yet))
            refused in
        Ends-continue _ (λ _. call (on_file set_version))
          (Ends-continue _ (λ _. execute_batch (idx_records_updated_at ∷ last_two)) stuck
            (λ _ x no_way. absurd no_way))
          (λ _ x no_way. absurd no_way)
