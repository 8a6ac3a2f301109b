-- ===== src/App/Effects.antt =====
-- What each effect of the shared state leaves alone, and what it does to the files by name.
use aardbin.Prelude.{
  Bytes, List, Option-cases, Text, [], ap, arith, false, if◌then◌else◌, inl, inr, none, one_of,
  refl, some, text_eq, text_eq_refl, text_eq_sym, true, ◌++◌, ◌+◌, ◌∙◌, ◌∷◌, ◌≡◌,
}
use aardbin.Prelude.Dict.{find, find-put, find-remove}
use aardbin.Files.{
  Disk, append_tmp, bytes_or_empty, create_tmp, remove_stored, remove_tmp, rename_tmp,
}
use aardbin.App.{
  Env, World, abort_upload, begin_upload, delete_file, delete_files, finalize_upload, head_fault,
  write_chunk,
}

-- The tables, the limiter and the events of two states are the same.
pub record SameRest (w w' : World) : Type 0 where
  pub tables : w'.tables ≡ w.tables
  pub failures : w'.failures ≡ w.failures
  pub sent : w'.sent ≡ w.sent

pub SameRest-refl : (w : World) → SameRest w w
SameRest-refl w = record { tables = refl; failures = refl; sent = refl }

pub SameRest-trans : {u v w : World} → SameRest u v → SameRest v w → SameRest u w
SameRest-trans h k = record {
  tables = k.tables ∙ h.tables;
  failures = k.failures ∙ h.failures;
  sent = k.sent ∙ h.sent;
}

-- Removals keep succeeding, and stored files and the random draws are the same.
pub record IsQuiet (w w' : World) : Type 0 where
  pub rest : SameRest w w'
  pub unlink : w'.faults.unlink ≡ w.faults.unlink
  pub drawn : w'.drawn ≡ w.drawn
  pub stored : w'.disk.stored ≡ w.disk.stored

pub IsQuiet-refl : (w : World) → IsQuiet w w
IsQuiet-refl w = record { rest = SameRest-refl w; unlink = refl; drawn = refl; stored = refl }

pub IsQuiet-trans : {u v w : World} → IsQuiet u v → IsQuiet v w → IsQuiet u w
IsQuiet-trans h k = record {
  rest = SameRest-trans h.rest k.rest;
  unlink = k.unlink ∙ h.unlink;
  drawn = k.drawn ∙ h.drawn;
  stored = k.stored ∙ h.stored;
}

module _ (id : Text) (w : World) where
  pub write_chunk-IsQuiet : (chunk : Bytes) → IsQuiet w (write_chunk id chunk w).1
  unfolding write_chunk append_tmp
  write_chunk-IsQuiet chunk = ground arith

  pub write_chunk-tmp :
      (chunk : Bytes) (k : Text)
      → text_eq id k ≡ false
      → find k (write_chunk id chunk w).1.disk.tmp ≡ find k w.disk.tmp
  unfolding write_chunk append_tmp
  write_chunk-tmp chunk k ne =
      ground (arith, find-put id k (bytes_or_empty (find id w.disk.tmp) ++ chunk) w.disk.tmp)

  -- An open temp file stays open, and longer.
  pub write_chunk-open :
      (chunk content : Bytes)
      → find id w.disk.tmp ≡ some content
      → (content' : Bytes) × (find id (write_chunk id chunk w).1.disk.tmp ≡ some content')
        × ((write_chunk id chunk w).0 ≡ true → content' ≡ content ++ chunk)
  unfolding write_chunk append_tmp
  write_chunk-open chunk content e = (
    if head_fault w.faults.write then content else content ++ chunk,
    ground (
      arith,
      find-put id id (bytes_or_empty (find id w.disk.tmp) ++ chunk) w.disk.tmp,
      text_eq_refl id,
    ),
    λ h. ground arith,
  )

  pub abort_upload_lem :
      w.faults.unlink ≡ []
      → IsQuiet w (abort_upload id w)
        × ((k : Text)
            → find k (abort_upload id w).disk.tmp
              ≡ (if text_eq id k then none else find k w.disk.tmp))
  unfolding abort_upload remove_tmp
  abort_upload_lem none_fail = (ground arith, λ k. ground (arith, find-remove id k w.disk.tmp))

  pub delete_file_lem :
      w.faults.unlink ≡ []
      → SameRest w (delete_file id w)
        × ((delete_file id w).faults.unlink ≡ [])
        × ((delete_file id w).disk ≡ remove_stored id w.disk)
  unfolding delete_file
  delete_file_lem none_fail = (ground arith, ground arith, ground arith)

  pub finalize_upload_lem :
      SameRest w (finalize_upload id w).1
      × ((finalize_upload id w).1.faults.unlink ≡ w.faults.unlink)
      × ((finalize_upload id w).1.drawn ≡ w.drawn)
      × ((finalize_upload id w).0 ≡ false → (finalize_upload id w).1.disk ≡ w.disk)
      × ((finalize_upload id w).0 ≡ true → (finalize_upload id w).1.disk ≡ rename_tmp id w.disk)
  unfolding finalize_upload
  finalize_upload_lem =
      (ground arith, ground arith, ground arith, λ h. ground arith, λ h. ground arith)

-- A rename moves the file's bytes under the same name, and touches no other name.
module _ (id : Text) (d : Disk) where
  pub rename_tmp-ne :
      (k : Text)
      → text_eq id k ≡ false
      → (find k (rename_tmp id d).tmp ≡ find k d.tmp)
        × (find k (rename_tmp id d).stored ≡ find k d.stored)
  unfolding rename_tmp
  rename_tmp-ne k ne = elim (Option-cases (find id d.tmp)) [
    | inl e ↦ rw (e, rename_tmp) (refl, refl)
    | inr (content, e) ↦
        rw (e, rename_tmp)
          (ground (arith, find-remove id k d.tmp), ground (arith, find-put id k content d.stored))
  ]

  pub rename_tmp_self :
      (content : Bytes)
      → find id d.tmp ≡ some content
      → (find id (rename_tmp id d).tmp ≡ none) × (find id (rename_tmp id d).stored ≡ some content)
  unfolding rename_tmp
  rename_tmp_self content e =
      rw (e, rename_tmp)
        (
          ground (arith, find-remove id id d.tmp, text_eq_refl id),
          ground (arith, find-put id id content d.stored, text_eq_refl id),
        )

pub delete_file-stored :
    (id : Text) (w : World) (k : Text)
    → w.faults.unlink ≡ []
    → find k (delete_file id w).disk.stored ≡ (if text_eq id k then none else find k w.disk.stored)
unfolding remove_stored
delete_file-stored id w k h =
    ap (λ (d : Disk). find k d.stored) (delete_file_lem id w h).2 ∙ find-remove id k w.disk.stored

-- Removing files by a list of names removes those and no others.
pub delete_files_lem :
    (ids : List Text) (w : World)
    → w.faults.unlink ≡ []
    → SameRest w (delete_files ids w)
      × ((delete_files ids w).faults.unlink ≡ [])
      × ((delete_files ids w).disk.tmp ≡ w.disk.tmp)
      × ((k : Text)
          → find k (delete_files ids w).disk.stored
            ≡ (if one_of k ids then none else find k w.disk.stored))
unfolding delete_files
delete_files_lem [] w h = (SameRest-refl w, h, refl, λ k. refl)
delete_files_lem (id ∷ ids) w h =
    let (rest, unlink, disk) = delete_file_lem id w h in
    let (rest', unlink', tmp, stored) = delete_files_lem ids (delete_file id w) unlink in
    (
      SameRest-trans rest rest',
      unlink',
      tmp ∙ ap (λ (d : Disk). d.tmp) disk ∙ unfold remove_stored in refl,
      λ k. stored k ∙ ground (arith, delete_file-stored id w k h, text_eq_sym k id),
    )

-- A new temp file is empty and has the next name; no other file is touched.
pub begin_upload_lem :
    (e : Env) (w : World)
    → SameRest w (begin_upload e w).1
      × ((begin_upload e w).1.faults.unlink ≡ w.faults.unlink)
      × ((begin_upload e w).1.drawn ≡ w.drawn + 1)
      × ((begin_upload e w).0 ≡ none → (begin_upload e w).1.disk ≡ w.disk)
      × ((id : Text)
          → (begin_upload e w).0 ≡ some id
          → (id ≡ e.uuid w.drawn) × ((begin_upload e w).1.disk ≡ create_tmp id w.disk))
unfolding begin_upload
begin_upload_lem e w = (
  ground arith,
  ground arith,
  ground arith,
  λ h. ground arith,
  λ id h. (ground arith, ground arith),
)
