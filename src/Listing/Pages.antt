-- ===== src/Listing/Pages.antt =====
-- The pages of src/db.rs `list_records` and the number of pages of src/routes.rs.
use native.Mathlib.Nat.{mod-eq_of_lt, div-mul-le_self, lt-div-mul-add, mul-le-mul_right, suc-mul}
use aardbin.Prelude.{
  List, [], ap, arith, drop, i64_limit, inl, inr, length, length-take, max, min, pos, refl, some,
  suc, take, zero, ℕ, ◌%◌, ◌*◌, ◌++◌, ◌+◌, ◌-◌, ◌/◌, ◌<◌, ◌^◌, ◌∙◌, ◌∷◌, ◌≡◌, ◌≤◌, ◌⊎◌,
}
use aardbin.Db.{RecordRow, Tables, list_records, newer, offset_of, order_by}
use aardbin.Listing.{total_pages}
use aardbin.Db.Order.{length-order_by}

take-drop {ℓ} :
    {A : Type ℓ} (a b c : ℕ) (xs : List A) → c ≡ a + b → take a xs ++ take b (drop a xs) ≡ take c xs
take-drop zero b c xs h = ap (λ n. take n xs) (omega (arith, h))
take-drop (suc a) zero zero [] h = refl
take-drop (suc a) zero (suc c) [] h = refl
take-drop (suc a) (suc b) zero [] h = refl
take-drop (suc a) (suc b) (suc c) [] h = refl
take-drop (suc a) b zero (x ∷ xs) h = absurd (omega (arith, h))
take-drop (suc a) b (suc c) (x ∷ xs) h = ap (λ ys. x ∷ ys) (take-drop a b c xs (omega (arith, h)))

take_whole {ℓ} : {A : Type ℓ} (n : ℕ) (xs : List A) → length xs ≤ n → take n xs ≡ xs
take_whole zero [] h = refl
take_whole zero (x ∷ xs) h = absurd (omega (arith, h))
take_whole (suc n) [] h = refl
take_whole (suc n) (x ∷ xs) h = ap (λ ys. x ∷ ys) (take_whole n xs (omega (arith, h)))

pub length-drop {ℓ} : {A : Type ℓ} (n : ℕ) (xs : List A) → length (drop n xs) ≡ length xs - n
length-drop zero xs = omega arith
length-drop (suc n) [] = omega arith
length-drop (suc n) (x ∷ xs) = omega (arith, length-drop n xs)

pred_mul : (k n : ℕ) → 1 ≤ k → k * n ≡ (k - 1) * n + n
pred_mul zero n h = absurd (omega (arith, h))
pred_mul (suc k) n h = suc-mul k n ∙ ap (λ j. j * n + n) {x = k} {y = suc k - 1} (omega arith)

mul_of_zero : (k n : ℕ) → k ≡ 0 → k * n ≡ 0
mul_of_zero zero n h = omega arith
mul_of_zero (suc k) n h = absurd (omega (arith, h))

pub offset_small : (j n : ℕ) → j * n < i64_limit → offset_of (suc j) (pos n) ≡ j * n
unfolding offset_of
offset_small j n h =
    let product = (max (suc j) 1 - 1) * n in
    let same : product ≡ j * n = ap (λ i. i * n) (omega arith) in
    let small : product % 2 ^ 64 ≡ j * n = mod-eq_of_lt (omega (arith, same, h)) ∙ same in
    ground (arith, small, h)

module _ (m : ℕ) (t : Tables) where
  abbrev all_rows : List RecordRow
  all_rows = order_by newer t.records

  -- The pages 1 to `k`, one after the other.
  abbrev pub pages_up_to : ℕ → List RecordRow
  pages_up_to zero = []
  pages_up_to (suc k) = pages_up_to k ++ (list_records (suc k) (pos (suc m)) t).0

  page_rows :
      (j : ℕ)
      → j * suc m < i64_limit
      → (list_records (suc j) (pos (suc m)) t).0 ≡ take (suc m) (drop (j * suc m) all_rows)
  unfolding list_records
  page_rows j h = rw (offset_small j (suc m) h) refl

  pages-take : (k : ℕ) → (k - 1) * suc m < i64_limit → pages_up_to k ≡ take (k * suc m) all_rows
  pages-take zero h = ap (λ n. take n all_rows) {x = 0} {y = 0 * suc m} (omega arith)
  pages-take (suc k) h =
      let small : k * suc m < i64_limit = ground (arith, h) in
      let before : (k - 1) * suc m ≤ k * suc m = mul-le-mul_right (suc m) (omega arith) in
      ap (λ rows. rows ++ (list_records (suc k) (pos (suc m)) t).0)
        (pages-take k (omega (arith, before, small)))
      ∙ ap (λ rows. take (k * suc m) all_rows ++ rows) (page_rows k small)
      ∙ take-drop (k * suc m) (suc m) (suc k * suc m) all_rows (suc-mul k (suc m))

  -- The number of pages is enough for all rows, and the last of them has an offset in range.
  pub total_pages_bounds :
      (total k : ℕ)
      → total + m < i64_limit
      → total_pages total (pos (suc m)) ≡ some k
      → (1 ≤ k)
        × (total ≤ k * suc m)
        × ((k - 1) * suc m < i64_limit)
        × (1 ≤ total → (k - 1) * suc m < total)
  unfolding total_pages
  total_pages_bounds total k small h =
      let d = (total + m) / suc m in
      let least : max d 1 ≡ k = ground (arith, small, h) in
      let under = div-mul-le_self (total + m) (suc m) in
      let over : total + m < d * suc m + suc m = lt-div-mul-add (omega arith) in
      let more : d * suc m ≤ k * suc m = mul-le-mul_right (suc m) (omega (arith, least)) in
      let first : (k ≡ 1) × (d ≡ 0) ⊎ (k ≡ d) × (1 ≤ d) = ground (arith, least) in
      elim first [
        | inl (one, none_full) ↦
            let start = mul_of_zero (k - 1) (suc m) (omega (arith, one)) in
            let whole : k * suc m ≡ suc m =
              omega (arith, pred_mul k (suc m) (omega (arith, one)), start) in
            let nothing = mul_of_zero d (suc m) none_full in
            (
              omega (arith, one),
              omega (arith, over, nothing, whole),
              omega (arith, start),
              λ some_row. omega (arith, start, some_row),
            )
        | inr (same, full) ↦
            let step = pred_mul k (suc m) (omega (arith, same, full)) in
            let exact : k * suc m ≡ d * suc m = ap (λ n. n * suc m) same in
            (
              omega (arith, same, full),
              omega (arith, over, exact, step, under, small),
              omega (arith, step, exact, under, small),
              λ some_row. omega (arith, step, exact, under, some_row),
            )
      ]

  -- For a positive page size, pages one to the last, one after the other, are all the records in
  -- the order of the list, each once, if the count and the page size stay within an `i64`.
  pub pages_cover :
      (k : ℕ)
      → length t.records + m < i64_limit
      → total_pages (length t.records) (pos (suc m)) ≡ some k
      → pages_up_to k ≡ order_by newer t.records
  pages_cover k small h =
      let (_, enough, in_range, _) = total_pages_bounds (length t.records) k small h in
      pages-take k in_range
      ∙ take_whole (k * suc m) all_rows (omega (arith, enough, length-order_by newer t.records))

  -- In range, a page has as many rows as the page size allows and are left.
  pub page_length :
      (j : ℕ)
      → j * suc m < i64_limit
      → length (list_records (suc j) (pos (suc m)) t).0 ≡ min (suc m) (length t.records - j * suc m)
  page_length j small =
      ap length (page_rows j small)
      ∙ length-take (suc m) (drop (j * suc m) all_rows)
      ∙ omega (arith, length-drop (j * suc m) all_rows, length-order_by newer t.records)
