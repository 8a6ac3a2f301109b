-- ===== src/Listing/Past.antt =====
-- The page that `build_list_view` of src/routes.rs shows for the page that is asked for.
use native.Mathlib.Nat.{mul-le-mul_right}
use aardbin.Prelude.{
  Bool-cases, List, [], ap, arith, false, i64_limit, inl, inr, length, ltb, lt→ltb, max_one, negsuc,
  pos, refl, some, suc, sym, true, zero, ℕ, ℤ, ◌&&◌, ◌*◌, ◌+◌, ◌-◌, ◌<◌, ◌∙◌, ◌∷◌, ◌≡◌, ◌≤◌, ◌⊎◌,
}
use aardbin.I18n.{Lang, t}
use aardbin.App.{Env, World}
use aardbin.Db.{RecordRow, Tables, list_records}
use aardbin.Listing.{build_list_view, clamp, ids_of, is_nil, shown, total_pages}
use aardbin.Views.{ListView}
use aardbin.Listing.Pages.{page_length, total_pages_bounds}
use aardbin.Listing.Shown.{Shows, build_works, ids_shown, refetched}

is_nil_of_length : (e : Env) (rows : List RecordRow) → length rows ≡ 0 → is_nil e rows ≡ true
is_nil_of_length e [] h = refl
is_nil_of_length e (r ∷ rows) h = absurd (omega (arith, h))

nil_of_length : (rows : List RecordRow) → length rows ≡ 0 → rows ≡ []
nil_of_length [] h = refl
nil_of_length (r ∷ rows) h = absurd (omega (arith, h))

-- Past the last page there are no rows.
past_nil :
    (m k asked : ℕ) (t : Tables)
    → length t.records ≤ k * suc m
    → k < asked
    → (asked - 1) * suc m < i64_limit
    → length (list_records asked (pos (suc m)) t).0 ≡ 0
past_nil m k zero t enough past small = absurd (omega (arith, past))
past_nil m k (suc j) t enough past small =
    let same : (suc j - 1) * suc m ≡ j * suc m =
      ap (λ i. i * suc m) {x = suc j - 1} {y = j} (omega arith) in
    let over : k * suc m ≤ j * suc m = mul-le-mul_right (suc m) (omega (arith, past)) in
    page_length m t j (omega (arith, same, small)) ∙ omega (arith, over, enough)

max_one-pos : (p : ℤ) → 1 ≤ max_one p
max_one-pos (pos n) = omega arith
max_one-pos (negsuc n) = omega arith

le_or_lt : (a b : ℕ) → (a ≤ b) ⊎ (b < a)
le_or_lt a b = ground arith

module _ (e : Env) (lang : Lang) (page : ℤ) (w : World) (m k : ℕ)
    (sized : e.cfg.page_size ≡ pos (suc m)) (works : w.faults.db ≡ [])
    (in_range : length w.tables.records + m < i64_limit)
    (paged : total_pages (length w.tables.records) (pos (suc m)) ≡ some k)
    (asked_small : (max_one page - 1) * suc m < i64_limit) where
  abbrev asked : ℕ
  asked = max_one page

  abbrev first_rows : List RecordRow
  first_rows = (list_records asked e.cfg.page_size w.tables).0

  shows :
      Shows e lang
        (clamp asked k)
        k
        (length w.tables.records)
        (refetched e lang (clamp asked k) first_rows w)
        (build_list_view e page lang w)
  shows = build_works e lang page k w (rw sized paged) works

  none_past : k < asked → length first_rows ≡ 0
  none_past past = rw sized (
      past_nil m k asked w.tables (total_pages_bounds m w.tables _ k in_range paged).1 past
        asked_small)

  rows_of_page :
      (asked ≤ k) ⊎ (2 ≤ k)
      → refetched e lang (clamp asked k) first_rows w
        ≡ (list_records (clamp asked k) e.cfg.page_size w.tables).0
  rows_of_page bounds = elim (le_or_lt asked k) [
    | inl within ↦
        let same : clamp asked k ≡ asked = omega (arith, within, max_one-pos page) in
        elim (Bool-cases (is_nil e first_rows && ltb 1 (clamp asked k))) [
          | inl again ↦ rw again refl
          | inr kept ↦ rw kept (ap (λ n. (list_records n e.cfg.page_size w.tables).0) (sym same))
        ]
    | inr past ↦
        let more : 2 ≤ k = ground (arith, bounds, past) in
        let same : clamp asked k ≡ k = omega (arith, past, max_one-pos page) in
        let again : (is_nil e first_rows && ltb 1 (clamp asked k)) ≡ true =
          rw (is_nil_of_length e first_rows (none_past past), same) (lt→ltb 1 k more) in
        rw again refl
  ]

  -- If the page size is positive, the numbers stay in the range of an `i64` and the database
  -- works, a request for a page is answered with a view of that page or, past the end, of the last
  -- page, with exactly the records of the page that it names, provided that the page asked for is
  -- there or there are two pages or more.
  pub build_list_view-rows :
      (asked ≤ k) ⊎ (2 ≤ k)
      → (v : ListView) × ((build_list_view e page lang w).0 ≡ shown v)
        × (v.page ≡ clamp asked k)
        × (v.total_pages ≡ k)
        × (v.total ≡ length w.tables.records)
        × (ids_shown v.records ≡ ids_of (list_records v.page (pos (suc m)) w.tables).0)
  build_list_view-rows bounds =
      let s = shows in
      (
        s.view,
        s.outcome,
        s.numbered,
        s.last,
        s.counted,
        s.ids ∙ ap ids_of (rows_of_page bounds) ∙ rw (sized, s.numbered) refl,
      )

  -- If the page size is positive, the numbers stay in the range of an `i64` and the database
  -- works, then with a single page a request for a later one is answered with page one and no
  -- record at all, however many records there are: the empty list is not read again.
  pub build_list_view-single :
      k ≡ 1
      → 2 ≤ asked
      → (v : ListView) × ((build_list_view e page lang w).0 ≡ shown v)
        × (v.page ≡ 1)
        × (v.total ≡ length w.tables.records)
        × (ids_shown v.records ≡ [])
  build_list_view-single one later =
      let s = shows in
      let same : clamp asked k ≡ 1 = omega (arith, one, later) in
      let nothing : first_rows ≡ [] =
        nil_of_length first_rows (none_past (omega (arith, one, later))) in
      let kept : (is_nil e first_rows && ltb 1 (clamp asked k)) ≡ false = rw (nothing, same) refl in
      (
        s.view,
        s.outcome,
        s.numbered ∙ same,
        s.counted,
        s.ids
            ∙ ap ids_of {x = refetched e lang (clamp asked k) first_rows w} {y = []}
                (rw kept nothing),
      )
