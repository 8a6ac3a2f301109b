-- ===== src/Start/Kept.antt =====
-- What every task of a start leaves as it was, whether it succeeds or not.
use aardbin.Prelude.{
  Bool, Bytes, List, Option, Text, [], arith, false, refl, some, true, ◌∙◌, ◌||◌, ◌∷◌, ◌≡◌,
}
use aardbin.Prelude.Dict.{find}
use aardbin.App.{head_fault, rest_faults}
use aardbin.Start.Volume.{Volume, call, spend}
use aardbin.Start.Database.{file_or_new}
use aardbin.Start.Directories.{dir_or_new}
use aardbin.Start.Ends.{Ends, Ends-call}

abbrev pub any_fault : List Bool → Bool
any_fault [] = false
any_fault (b ∷ bs) = b || any_fault bs

-- The rows and the attachment files are the same, and no temp file is new. A failure that is still to
-- come was to come before.
pub record Kept (v w : Volume) : Type 0 where
  pub tables : (file_or_new w.database).tables ≡ (file_or_new v.database).tables
  pub stored : dir_or_new w.attachments ≡ dir_or_new v.attachments
  pub temps :
      (name : Text) (content : Bytes)
      → find name (dir_or_new w.tmp) ≡ some content
      → find name (dir_or_new v.tmp) ≡ some content
  pub troubles : any_fault w.faults ≡ true → any_fault v.faults ≡ true

pub Kept-refl : (v : Volume) → Kept v v
Kept-refl v = record {
  tables = refl;
  stored = refl;
  temps = λ name content h. h;
  troubles = λ h. h;
}

pub Kept-trans : {u v w : Volume} → Kept u v → Kept v w → Kept u w
Kept-trans a b = record {
  tables = b.tables ∙ a.tables;
  stored = b.stored ∙ a.stored;
  temps = λ name content h. a.temps name content (b.temps name content h);
  troubles = λ h. a.troubles (b.troubles h);
}

any_fault-cons : (bs : List Bool) → any_fault (rest_faults bs) ≡ true → any_fault bs ≡ true
any_fault-cons [] h = h
any_fault-cons (b ∷ bs) h = ground (arith, h)

pub head_trouble : (v : Volume) → head_fault v.faults ≡ true → any_fault v.faults ≡ true
head_trouble v h = trouble v.faults h
  where
    trouble : (bs : List Bool) → head_fault bs ≡ true → any_fault bs ≡ true
    trouble [] h = h
    trouble (b ∷ bs) h = ground (arith, h)

pub Kept-spend : (v : Volume) → Kept v (spend v)
Kept-spend v = record {
  tables = refl;
  stored = refl;
  temps = λ name content h. h;
  troubles = any_fault-cons v.faults;
}

-- The state before a call has been kept, and the call keeps it too; where it fails there was a
-- failure to come.
pub Ends-step :
    {A : Type 0} {P : A → Volume → Type 0} {Q : Volume → Type 0} (u : Volume)
    (f : Volume → Option (A × Volume)) (v : Volume) (a : A) (w : Volume)
    → Kept u v
    → f (spend v) ≡ some (a, w)
    → Kept (spend v) w
    → (Kept u (spend v) → any_fault u.faults ≡ true → Q (spend v))
    → (Kept u w → P a w)
    → Ends P Q (call f v)
Ends-step u f v a w before works step early done =
    let spent = Kept-trans before (Kept-spend v) in
    Ends-call f v a w works (λ bad. early spent (before.troubles (head_trouble v bad)))
      (done (Kept-trans spent step))
