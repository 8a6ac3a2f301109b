-- ===== src/Listing.antt =====
-- The record list of src/routes.rs.
pub mod Pages
pub mod Shown
pub mod Past
mod Tests
use aardbin.Prelude.{
  Bool, List, Option, Text, [], false, i64_limit, if◌then◌else◌, keep, leb, length, ltb, max,
  max_one, min, negsuc, none, pos, some, suc, true, zero, ℕ, ℤ, ◌&&◌, ◌+◌, ◌-◌, ◌/◌, ◌∷◌,
}
use aardbin.Http.{Headers, Response, internal}
use aardbin.Views.{ListView, RecordView, list_page, records_part}
use aardbin.I18n.{Lang, as_str}
use aardbin.Render.{display_title, snippet}
use aardbin.App.{Env, World, db_call, reading}
use aardbin.Login.{detect_lang, rendered}
use aardbin.Records.{decrypt_row}
use aardbin.Db
use aardbin.Db.{AttachmentRow, RecordRow, belongs_to}

-- `((total + page_size - 1) / page_size).max(1)` on `i64`: `none` is the panic of a division by
-- zero, and a sum out of range wraps to the other sign.
unfoldable pub total_pages : ℕ → ℤ → Option ℕ
total_pages total (pos zero) = none
total_pages total (pos (suc n)) =
    some (if ltb (total + n) i64_limit then max ((total + n) / suc n) 1 else 1)
total_pages total (negsuc n) =
    some (if leb (n + 2 - total) i64_limit then max ((n + 2 - total) / suc n) 1 else 1)

-- `page.clamp(1, total_pages)`
abbrev pub clamp : ℕ → ℕ → ℕ
clamp page pages = min (max page 1) pages

-- `by_record.remove(&r.id)`: the attachments of the record, in the order of the query; ids are
-- unique, so an entry is taken once.
abbrev pub attachments_of : Text → List AttachmentRow → List AttachmentRow
attachments_of id attachments = keep (belongs_to id) attachments

abbrev pub ids_of : List RecordRow → List Text
ids_of [] = []
ids_of (r ∷ rows) = r.id ∷ ids_of rows

abbrev pub first_name : List AttachmentRow → Text
first_name [] = []
first_name (a ∷ rows) = a.original_filename

abbrev pub first_id : List AttachmentRow → Text
first_id [] = []
first_id (a ∷ rows) = a.id

-- How a list ends: with a value, with an error, or with a panic.
pub data Attempt {ℓ} (A : Type ℓ) : Type ℓ where
  shown : A → Attempt A
  failed : Attempt A
  panicked : Attempt A

module _ (e : Env) where
  abbrev pub unreadable : RecordRow → List AttachmentRow → RecordView
  unreadable r atts = record {
    id = r.id;
    title = [];
    untitled = false;
    snippet_text = [];
    updated_ts = r.updated_at;
    updated_text = e.format_ts_utc r.updated_at;
    attachment_count = length atts;
    first_attachment_name = first_name atts;
    first_attachment_id = first_id atts;
    extra_attachments = length atts - 1;
    undecryptable = true;
  }

  unfoldable pub record_view :
      Lang → RecordRow → List AttachmentRow → Option (Text × Text) → RecordView
  record_view lang r atts none = unreadable r atts
  record_view lang r atts (some (title, content)) = record (unreadable r atts) {
    title = (display_title title content lang).0;
    untitled = (display_title title content lang).1;
    snippet_text = snippet content;
    undecryptable = false;
  }

  unfoldable pub record_views : Lang → List AttachmentRow → List RecordRow → List RecordView
  unfolding record_view
  record_views lang attachments [] = []
  record_views lang attachments (r ∷ rows) =
      record_view lang r (attachments_of r.id attachments) (decrypt_row e r)
      ∷ record_views lang attachments rows

  abbrev pub list_view : Lang → ℕ → ℕ → ℕ → List RecordRow → List AttachmentRow → ListView
  list_view lang page pages total rows attachments = record {
    lang = as_str lang;
    records = record_views lang attachments rows;
    page = page;
    total_pages = pages;
    has_prev = ltb 1 page;
    has_next = ltb page pages;
    total = total;
  }

  -- what `attachments_for_records` gives
  unfoldable pub with_attachments :
      Lang
      → ℕ
      → ℕ
      → ℕ
      → List RecordRow
      → Option (List AttachmentRow) × World
      → Attempt ListView × World
  with_attachments lang page pages total rows (none, w) = (failed, w)
  with_attachments lang page pages total rows (some attachments, w) =
      (shown (list_view lang page pages total rows attachments), w)

  -- With no ids there is no query, and so none that fails.
  unfoldable pub query_attachments : List Text → World → Option (List AttachmentRow) × World
  query_attachments [] w = (some [], w)
  query_attachments (id ∷ ids) w = db_call (reading (Db.attachments_for_records (id ∷ ids))) w

  -- the rows of the page, read again or not
  unfoldable pub with_rows :
      Lang → ℕ → ℕ → ℕ → Option (List RecordRow × ℕ) × World → Attempt ListView × World
  unfolding with_attachments query_attachments
  with_rows lang page pages total (none, w) = (failed, w)
  with_rows lang page pages total (some (rows, count), w) =
      with_attachments lang page pages total rows (query_attachments (ids_of rows) w)

  abbrev pub is_nil : List RecordRow → Bool
  is_nil [] = true
  is_nil (r ∷ rows) = false

  abbrev pub query_page : ℕ → World → Option (List RecordRow × ℕ) × World
  query_page page w = db_call (reading (Db.list_records page e.cfg.page_size)) w

  -- The page asked for may be past the end: then the last page is read.
  unfoldable pub clamped :
      Lang → ℕ → List RecordRow → ℕ → Option ℕ → World → Attempt ListView × World
  unfolding with_rows
  clamped lang page rows total none w = (panicked, w)
  clamped lang page rows total (some pages) w =
      let page' = clamp page pages in
      with_rows lang page' pages total
        (if is_nil rows && ltb 1 page' then query_page page' w else (some (rows, total), w))

  unfoldable pub first_query :
      Lang → ℕ → Option (List RecordRow × ℕ) × World → Attempt ListView × World
  unfolding clamped total_pages
  first_query lang page (none, w) = (failed, w)
  first_query lang page (some (rows, total), w) =
      clamped lang page rows total (total_pages total e.cfg.page_size) w

  unfoldable pub build_list_view : ℤ → Lang → World → Attempt ListView × World
  unfolding first_query
  build_list_view page lang w = first_query lang (max_one page) (query_page (max_one page) w)

  -- `none` is the panic: no response.
  abbrev pub answered :
      (ListView → Option Text) → Attempt ListView × World → Option Response × World
  answered page (shown view, w) = (some (rendered (page view)), w)
  answered page (failed, w) = (some internal, w)
  answered page (panicked, w) = (none, w)

  unfoldable pub index : Headers → World → Option Response × World
  unfolding build_list_view
  index hs w =
      let lang = detect_lang hs in
      answered (λ view. e.render lang (list_page view)) (build_list_view (pos 1) lang w)

  abbrev pub page_or_one : Option ℤ → ℤ
  page_or_one none = pos 1
  page_or_one (some page) = page

  unfoldable pub records_partial : Headers → Option ℤ → World → Option Response × World
  unfolding build_list_view
  records_partial hs page w =
      let lang = detect_lang hs in
      answered (λ view. e.render lang (records_part view))
        (build_list_view (page_or_one page) lang w)
