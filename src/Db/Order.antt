-- ===== src/Db/Order.antt =====
-- ORDER BY of src/db.rs: the rows are those selected, arranged.
use mathlib.Core.List.{Perm}
use mathlib.Core.List.Perm
use aardbin.Prelude.{
  Bool, List, Text, [], ap, arith, false, if◌then◌else◌, length, refl, suc, true, ◌∙◌, ◌∷◌, ◌≡◌,
}
use aardbin.Db.{AttachmentRow, RecordRow, earlier, insert_by, newer, order_by, text_leb}

module _ {ℓ} {A : Type ℓ} (before : A → A → Bool) where
  insert_by-perm : (x : A) (xs : List A) → Perm (insert_by before x xs) (x ∷ xs)
  unfolding insert_by
  insert_by-perm x [] = Perm.refl (x ∷ [])
  insert_by-perm x (y ∷ ys) = insert_by-case (before x y) x y ys (insert_by-perm x ys)
    where
      insert_by-case :
          (b : Bool) (x y : A) (ys : List A)
          → Perm (insert_by before x ys) (x ∷ ys)
          → Perm (if b then x ∷ y ∷ ys else y ∷ insert_by before x ys) (x ∷ y ∷ ys)
      insert_by-case true x y ys h = Perm.refl (x ∷ y ∷ ys)
      insert_by-case false x y ys h = Perm.trans (Perm.cons y h) (Perm.swap x y ys)

  pub order_by-perm : (xs : List A) → Perm (order_by before xs) xs
  unfolding order_by
  order_by-perm [] = Perm.refl []
  order_by-perm (x ∷ xs) =
      Perm.trans (insert_by-perm x (order_by before xs)) (Perm.cons x (order_by-perm xs))

  length-insert_by : (x : A) (xs : List A) → length (insert_by before x xs) ≡ suc (length xs)
  unfolding insert_by
  length-insert_by x [] = refl
  length-insert_by x (y ∷ ys) = ground (arith, length-insert_by x ys)

  pub length-order_by : (xs : List A) → length (order_by before xs) ≡ length xs
  unfolding order_by
  length-order_by [] = refl
  length-order_by (x ∷ xs) = length-insert_by x (order_by before xs) ∙ ap suc (length-order_by xs)

  -- Each row is not after the next.
  abbrev pub IsOrdered : List A → Type 0
  IsOrdered [] = Unit
  IsOrdered (x ∷ []) = Unit
  IsOrdered (x ∷ y ∷ ys) = (before x y ≡ true) × IsOrdered (y ∷ ys)

  module _ (total : (x y : A) → before x y ≡ false → before y x ≡ true) where
    insert_by-IsOrdered : (x : A) (xs : List A) → IsOrdered xs → IsOrdered (insert_by before x xs)
    unfolding insert_by
    insert_by-IsOrdered x [] h = tt
    insert_by-IsOrdered x (y ∷ []) h = ground (arith, total x y)
    insert_by-IsOrdered x (y ∷ z ∷ zs) h =
        ground (arith, total x y, total x z, insert_by-IsOrdered x (z ∷ zs) h.1)

    pub order_by-IsOrdered : (xs : List A) → IsOrdered (order_by before xs)
    unfolding order_by
    order_by-IsOrdered [] = tt
    order_by-IsOrdered (x ∷ xs) = insert_by-IsOrdered x (order_by before xs) (order_by-IsOrdered xs)

text_leb_total : (s t : Text) → text_leb s t ≡ false → text_leb t s ≡ true
unfolding text_leb
text_leb_total [] t h = cc
text_leb_total (a ∷ s) [] h = refl
text_leb_total (a ∷ s) (b ∷ t) h = ground (arith, text_leb_total s t)

pub newer_total : (r s : RecordRow) → newer r s ≡ false → newer s r ≡ true
unfolding newer
newer_total r s h = ground (arith, text_leb_total s.id r.id)

pub earlier_total : (a b : AttachmentRow) → earlier a b ≡ false → earlier b a ≡ true
unfolding earlier
earlier_total a b h = ground (arith, text_leb_total a.id b.id)
