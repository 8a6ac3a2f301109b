-- ===== src/Form/States.antt =====
-- The states that `parse_record_form` of src/routes.rs goes through, against the one it starts in.
use mathlib.Core.Path.{subst}
use aardbin.Prelude.{
  Bool, Bytes, List, Text, [], arith, false, if◌then◌else◌, none, one_of, refl, some, text_eq,
  text_eq_iff, true, ℕ, ◌++◌, ◌||◌, ◌∷◌, ◌≡◌, ◌≤◌,
}
use aardbin.Prelude.Dict.{find}
use aardbin.App.{Env, Result, World, delete_file, delete_files, err, ok}
use aardbin.App.Effects.{SameRest}
use aardbin.Form.{PendingUpload, Progress, cleanup_uploads}

abbrev pub upload_ids : List PendingUpload → List Text
upload_ids [] = []
upload_ids (u ∷ us) = u.id ∷ upload_ids us

pub one_of-append :
    (k : Text) (us : List PendingUpload) (u : PendingUpload)
    → one_of k (upload_ids (us ++ u ∷ [])) ≡ (one_of k (upload_ids us) || text_eq k u.id)
one_of-append k [] u = ground arith
one_of-append k (v ∷ us) u = ground (arith, one_of-append k us u)

pub cleanup_uploads-eq :
    (us : List PendingUpload) (w : World) → cleanup_uploads us w ≡ delete_files (upload_ids us) w
unfolding cleanup_uploads delete_files
cleanup_uploads-eq [] w = refl
cleanup_uploads-eq (u ∷ us) w = cleanup_uploads-eq us (delete_file u.id w)

-- Names that are yet to be drawn name no file.
pub record IsFresh (e : Env) (w : World) : Type 0 where
  pub not_tmp : (i : ℕ) → w.drawn ≤ i → find (e.uuid i) w.disk.tmp ≡ none
  pub not_stored : (i : ℕ) → w.drawn ≤ i → find (e.uuid i) w.disk.stored ≡ none

-- Every file is as it was, and so is all else that the handlers share.
pub record IsRestored (w w' : World) : Type 0 where
  pub rest : SameRest w w'
  pub tmp_same : (k : Text) → find k w'.disk.tmp ≡ find k w.disk.tmp
  pub stored_same : (k : Text) → find k w'.disk.stored ≡ find k w.disk.stored

-- The uploads are stored, under names that were free, and no other file has changed.
pub record IsStored (w w' : World) (us : List PendingUpload) : Type 0 where
  pub rest : SameRest w w'
  pub tmp_same : (k : Text) → find k w'.disk.tmp ≡ find k w.disk.tmp
  pub stored_same :
      (k : Text) → one_of k (upload_ids us) ≡ false → find k w'.disk.stored ≡ find k w.disk.stored
  pub were_free : (k : Text) → one_of k (upload_ids us) ≡ true → find k w.disk.stored ≡ none
  pub are_there :
      (k : Text)
      → one_of k (upload_ids us) ≡ true
      → (content : Bytes) × (find k w'.disk.stored ≡ some content)

-- Between two fields.
pub record Tracks (w w' : World) (us : List PendingUpload) : Type 0 where
  pub saved : IsStored w w' us
  pub unlink : w'.faults.unlink ≡ []
  pub forward : w.drawn ≤ w'.drawn

-- While one file is received: its temp file is the only difference.
pub record Receives (w : World) (id : Text) (us : List PendingUpload) (w' : World) : Type 0 where
  pub rest : SameRest w w'
  pub unlink : w'.faults.unlink ≡ []
  pub forward : w.drawn ≤ w'.drawn
  pub tmp_other : (k : Text) → text_eq id k ≡ false → find k w'.disk.tmp ≡ find k w.disk.tmp
  pub tmp_open : (content : Bytes) × (find id w'.disk.tmp ≡ some content)
  pub stored_same :
      (k : Text) → one_of k (upload_ids us) ≡ false → find k w'.disk.stored ≡ find k w.disk.stored
  pub were_free : (k : Text) → one_of k (upload_ids us) ≡ true → find k w.disk.stored ≡ none
  pub are_there :
      (k : Text)
      → one_of k (upload_ids us) ≡ true
      → (content : Bytes) × (find k w'.disk.stored ≡ some content)

abbrev pub Outcome : World → Result Progress × World → Type 0
Outcome w (ok q, w') = Tracks w w' q.uploads
Outcome w (err resp, w') = IsRestored w w'

pub Outcome-if :
    (w : World) (b : Bool) (m n : Result Progress × World)
    → (b ≡ true → Outcome w m)
    → (b ≡ false → Outcome w n)
    → Outcome w (if b then m else n)
Outcome-if w true m n hm hn = hm refl
Outcome-if w false m n hm hn = hn refl

pub at_same {ℓ} : (P : Text → Type ℓ) (s t : Text) → text_eq s t ≡ true → P s → P t
at_same P s t h p = subst P ((text_eq_iff s t).0 h) p
