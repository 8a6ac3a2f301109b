-- ===== src/Form/Contents.antt =====
-- The bytes of the files that `parse_record_form` of src/routes.rs stores, by the chunks that arrive.
use aardbin.Prelude.{
  Bool-cases, Bytes, List, Option, Text, [], false, inl, inr, none, refl, some, text_eq, ◌++◌, ◌+◌,
  ◌∙◌, ◌∷◌, ◌≡◌,
}
use aardbin.Prelude.Dict.{find}
use aardbin.App.{World}
use aardbin.Form.{Multipart, PendingUpload, field, finished, malformed}
use aardbin.Form.States.{at_same}

abbrev pub joined : List Bytes → Bytes
joined [] = []
joined (chunk ∷ chunks) = chunk ++ joined chunks

-- A field without a file name, or with an empty one, has no file.
abbrev pub named_bytes : Option Text → Bytes → List (Text × Bytes)
named_bytes none b = []
named_bytes (some []) b = []
named_bytes (some (c ∷ name)) b = (c ∷ name, b) ∷ []

-- Each file by its name and its bytes.
abbrev pub file_contents : Multipart → List (Text × Bytes)
file_contents finished = []
file_contents malformed = []
file_contents (field part more) =
    named_bytes part.file_name (joined part.chunks) ++ file_contents more

-- The uploads are these files, one by one, and each is stored under the upload's identifier.
abbrev pub AreStored : List PendingUpload → List (Text × Bytes) → World → Type 0
AreStored [] [] w = Unit
AreStored (u ∷ us) [] w = ⊥
AreStored [] (f ∷ fs) w = ⊥
AreStored (u ∷ us) (f ∷ fs) w =
    (u.original_filename ≡ f.0) × (find u.id w.disk.stored ≡ some f.1) × AreStored us fs w

pub AreStored-snoc :
    (us : List PendingUpload) (fs : List (Text × Bytes)) (u : PendingUpload) (b : Bytes) (w : World)
    → AreStored us fs w
    → find u.id w.disk.stored ≡ some b
    → AreStored (us ++ u ∷ []) (fs ++ (u.original_filename, b) ∷ []) w
AreStored-snoc [] [] u b w h there = (refl, there, tt)
AreStored-snoc [] (f ∷ fs) u b w h there = absurd h
AreStored-snoc (v ∷ us) [] u b w h there = absurd h
AreStored-snoc (v ∷ us) (f ∷ fs) u b w (name, found, h) there =
    (name, found, AreStored-snoc us fs u b w h there)

-- A new file has these bytes, and no other file has changed.
pub record Gains (id : Text) (b : Bytes) (w w' : World) : Type 0 where
  pub drawn : w'.drawn ≡ w.drawn + 1
  pub there : find id w'.disk.stored ≡ some b
  pub tmp_other : (k : Text) → text_eq id k ≡ false → find k w'.disk.tmp ≡ find k w.disk.tmp
  pub stored_other :
      (k : Text) → text_eq id k ≡ false → find k w'.disk.stored ≡ find k w.disk.stored

pub AreStored-gains :
    (us : List PendingUpload) (fs : List (Text × Bytes)) (id : Text) (b : Bytes) (w w' : World)
    → find id w.disk.stored ≡ none
    → Gains id b w w'
    → AreStored us fs w
    → AreStored us fs w'
AreStored-gains [] [] id b w w' free g h = tt
AreStored-gains [] (f ∷ fs) id b w w' free g h = absurd h
AreStored-gains (u ∷ us) [] id b w w' free g h = absurd h
AreStored-gains (u ∷ us) (f ∷ fs) id b w w' free g (name, found, h) = (
  name,
  elim (Bool-cases (text_eq id u.id)) [
    | inl same ↦
        let gone : find u.id w.disk.stored ≡ none =
          at_same (λ j. find j w.disk.stored ≡ none) id u.id same free in
        absurd (cc (gone, found))
    | inr ne ↦ g.stored_other u.id ne ∙ found
  ],
  AreStored-gains us fs id b w w' free g h,
)
