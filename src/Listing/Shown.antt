-- ===== src/Listing/Shown.antt =====
-- Which rows `build_list_view` of src/routes.rs shows, when no call on the database fails.
use mathlib.Core.Path.{subst, ap₂}
use aardbin.Prelude.{
  Bool-cases, List, Option, Text, [], ap, arith, if◌then◌else◌, inl, inr, length, ltb, max_one,
  none, refl, some, ℕ, ℤ, ◌&&◌, ◌∙◌, ◌∷◌, ◌≡◌,
}
use aardbin.Views.{ListView, RecordView}
use aardbin.I18n.{Lang}
use aardbin.App.{Env, World, db_call, reading}
use aardbin.Db
use aardbin.Db.{AttachmentRow, RecordRow, Tables, list_records}
use aardbin.Listing.{
  Attempt, attachments_of, build_list_view, clamp, clamped, first_query, ids_of, is_nil, list_view,
  query_attachments, query_page, record_view, record_views, shown, total_pages, with_attachments,
  with_rows,
}
use aardbin.Records.{decrypt_row}

pub reading_works {ℓ} :
    {A : Type ℓ} (f : Tables → A) (w : World)
    → w.faults.db ≡ []
    → ((db_call (reading f) w).0 ≡ some (f w.tables))
      × ((db_call (reading f) w).1.tables ≡ w.tables)
      × ((db_call (reading f) w).1.faults.db ≡ [])
unfolding db_call
reading_works f w h = (rw (h, db_call) refl, rw (h, db_call) refl, rw (h, db_call) refl)

abbrev unwrap {ℓ} : {A : Type ℓ} → A → Option A → A
unwrap d none = d
unwrap d (some a) = a

abbrev pub ids_shown : List RecordView → List Text
ids_shown [] = []
ids_shown (r ∷ rs) = r.id ∷ ids_shown rs

module _ (e : Env) (lang : Lang) where
  ids-record_views :
      (attachments : List AttachmentRow) (rows : List RecordRow)
      → ids_shown (record_views e lang attachments rows) ≡ ids_of rows
  unfolding record_views record_view
  ids-record_views attachments [] = refl
  ids-record_views attachments (r ∷ rows) =
      ap₂ (λ (i : Text) (is : List Text). i ∷ is)
        (id-record_view r (attachments_of r.id attachments) (decrypt_row e r))
        (ids-record_views attachments rows)
    where
      id-record_view :
          (r : RecordRow) (atts : List AttachmentRow) (o : Option (Text × Text))
          → (record_view e lang r atts o).id ≡ r.id
      id-record_view r atts none = refl
      id-record_view r atts (some (title, content)) = refl

  -- A view of the given rows.
  pub record Shows (page pages total : ℕ) (rows : List RecordRow) (r : Attempt ListView × World)
      : Type 0 where
    pub view : ListView
    pub outcome : r.0 ≡ shown view
    pub ids : ids_shown view.records ≡ ids_of rows
    pub numbered : view.page ≡ page
    pub last : view.total_pages ≡ pages
    pub counted : view.total ≡ total
    pub prev : view.has_prev ≡ ltb 1 page
    pub next : view.has_next ≡ ltb page pages

  Shows-view :
      (page pages total : ℕ) (rows : List RecordRow) (attachments : List AttachmentRow)
      (r : Attempt ListView × World)
      → r.0 ≡ shown (list_view e lang page pages total rows attachments)
      → Shows page pages total rows r
  Shows-view page pages total rows attachments r h = record {
    view = list_view e lang page pages total rows attachments;
    outcome = h;
    ids = ids-record_views attachments rows;
    numbered = refl;
    last = refl;
    counted = refl;
    prev = refl;
    next = refl;
  }

  attachments_work :
      (ids : List Text) (w : World)
      → w.faults.db ≡ []
      → (found : List AttachmentRow) × ((query_attachments e ids w).0 ≡ some found)
  unfolding query_attachments
  attachments_work [] w h = ([], refl)
  attachments_work (id ∷ ids) w h = (
    Db.attachments_for_records (id ∷ ids) w.tables,
    (reading_works (Db.attachments_for_records (id ∷ ids)) w h).0,
  )

  with_attachments_works :
      (page pages total : ℕ) (rows : List RecordRow) (found : List AttachmentRow)
      (q : Option (List AttachmentRow) × World)
      → q.0 ≡ some found
      → (with_attachments e lang page pages total rows q).0
        ≡ shown (list_view e lang page pages total rows found)
  unfolding with_attachments
  with_attachments_works page pages total rows found (none, w) h = absurd (ground (arith, h))
  with_attachments_works page pages total rows found (some held, w) h =
      let same : held ≡ found = ground (arith, h) in
      ap (λ x. shown (list_view e lang page pages total rows x)) same

  with_rows_works :
      (page pages total count : ℕ) (rows : List RecordRow) (q : Option (List RecordRow × ℕ) × World)
      → q.0 ≡ some (rows, count)
      → q.1.faults.db ≡ []
      → Shows page pages total rows (with_rows e lang page pages total q)
  unfolding with_rows
  with_rows_works page pages total count rows (none, w) h quiet = absurd (ground (arith, h))
  with_rows_works page pages total count rows (some (rs, c), w) h quiet =
      let same : rs ≡ rows = ground (arith, h) in
      let (found, works) = attachments_work (ids_of rs) w quiet in
      subst (λ x. Shows page pages total x (with_rows e lang page pages total (some (rs, c), w)))
        {x = rs} {y = rows} same
        (Shows-view page pages total rs found _ (
          with_attachments_works page pages total rs found (query_attachments e (ids_of rs) w)
            works))

  -- the rows that are shown: those that were read first, or the clamped page where there are none
  abbrev pub refetched : ℕ → List RecordRow → World → List RecordRow
  refetched page rows w =
      if is_nil e rows && ltb 1 page then (list_records page e.cfg.page_size w.tables).0 else rows

  clamped_works :
      (asked pages total : ℕ) (rows : List RecordRow) (w : World)
      → w.faults.db ≡ []
      → Shows
          (clamp asked pages)
          pages
          total
          (refetched (clamp asked pages) rows w)
          (clamped e lang asked rows total (some pages) w)
  unfolding clamped
  clamped_works asked pages total rows w quiet =
      let page = clamp asked pages in
      let again = query_page e page w in
      let (read, _, still) = reading_works (Db.list_records page e.cfg.page_size) w quiet in
      elim (Bool-cases (is_nil e rows && ltb 1 page)) [
        | inl h ↦
            rw (h, clamped)
              (with_rows_works page pages total _ (list_records page e.cfg.page_size w.tables).0
                again read still)
        | inr h ↦
            rw (h, clamped)
              (with_rows_works page pages total total rows (some (rows, total), w) refl quiet)
      ]

  first_works :
      (asked pages total : ℕ) (rows : List RecordRow) (q : Option (List RecordRow × ℕ) × World)
      → q.0 ≡ some (rows, total)
      → total_pages total e.cfg.page_size ≡ some pages
      → q.1.faults.db ≡ []
      → Shows
          (clamp asked pages)
          pages
          total
          (refetched (clamp asked pages) rows q.1)
          (first_query e lang asked q)
  unfolding first_query
  first_works asked pages total rows (none, w) h k quiet = absurd (ground (arith, h))
  first_works asked pages total rows (some (rs, c), w) h k quiet =
      let same = ap (unwrap (rows, total)) h in
      subst
        (λ x.
          Shows (clamp asked pages) pages x.1 (refetched (clamp asked pages) x.0 w)
            (first_query e lang asked (some (rs, c), w)))
        {x = (rs, c)} {y = (rows, total)} same
        (unfold first_query in
          rw
            (ap (λ n. total_pages n e.cfg.page_size) (ap (λ (x : List RecordRow × ℕ). x.1) same)
              ∙ k)
            (clamped_works asked pages c rs w quiet))

  pub build_works :
      (page : ℤ) (pages : ℕ) (w : World)
      → total_pages (length w.tables.records) e.cfg.page_size ≡ some pages
      → w.faults.db ≡ []
      → Shows
          (clamp (max_one page) pages)
          pages
          (length w.tables.records)
          (refetched
            (clamp (max_one page) pages)
            (list_records (max_one page) e.cfg.page_size w.tables).0
            w)
          (build_list_view e page lang w)
  unfolding build_list_view
  build_works page pages w k quiet =
      let (read, tables, still) =
        reading_works (Db.list_records (max_one page) e.cfg.page_size) w quiet in
      subst
        (λ (t : Tables).
          Shows (clamp (max_one page) pages) pages (length w.tables.records)
            (if is_nil e (list_records (max_one page) e.cfg.page_size w.tables).0
                && ltb 1 (clamp (max_one page) pages)
              then (list_records (clamp (max_one page) pages) e.cfg.page_size t).0
              else (list_records (max_one page) e.cfg.page_size w.tables).0)
            (build_list_view e page lang w))
        {x = (query_page e (max_one page) w).1.tables} {y = w.tables} tables
        (unfold build_list_view in
          first_works (max_one page) pages (length w.tables.records)
            (list_records (max_one page) e.cfg.page_size w.tables).0 (query_page e (max_one page) w)
            (unfold Db.list_records in read) k still)
