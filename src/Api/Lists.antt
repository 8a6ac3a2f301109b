-- ===== src/Api/Lists.antt =====
-- `api_list_records` of src/api.rs.
use aardbin.Prelude.{
  List, Option, Text, [], codes, false, length, max_one, none, pos, some, ℕ, ℤ, ◌∷◌,
}
use aardbin.Http.{Response}
use aardbin.Views.{ApiListResponse, ApiRecordSummary, list_json}
use aardbin.I18n.{en}
use aardbin.Render.{display_title, snippet}
use aardbin.App.{Env, World, db_call, reading}
use aardbin.Records.{decrypt_row}
use aardbin.Listing.{attachments_of, clamp, ids_of, query_attachments, total_pages}
use aardbin.Api.{json, json_error}
use aardbin.Db
use aardbin.Db.{AttachmentRow, RecordRow}

-- `unwrap_or(d).max(1)`
abbrev pub at_least_one : Option ℤ → ℤ → ℕ
at_least_one none d = max_one d
at_least_one (some n) d = max_one n

module _ (e : Env) where
  unfoldable pub api_summary :
      RecordRow → List AttachmentRow → Option (Text × Text) → ApiRecordSummary
  api_summary r atts none = record {
    id = r.id;
    title = [];
    untitled = false;
    snippet_text = [];
    updated_at = r.updated_at;
    attachment_count = length atts;
  }
  api_summary r atts (some (title, content)) = record {
    id = r.id;
    title = (display_title title content en).0;
    untitled = (display_title title content en).1;
    snippet_text = snippet content;
    updated_at = r.updated_at;
    attachment_count = length atts;
  }

  unfoldable pub api_summaries : List AttachmentRow → List RecordRow → List ApiRecordSummary
  unfolding api_summary
  api_summaries attachments [] = []
  api_summaries attachments (r ∷ rows) =
      api_summary r (attachments_of r.id attachments) (decrypt_row e r)
      ∷ api_summaries attachments rows

  -- The page number is brought into range, the rows are those of the page asked for.
  abbrev api_list : ℕ → ℕ → ℕ → ℕ → List RecordRow → List AttachmentRow → ApiListResponse
  api_list page page_size pages total rows attachments = record {
    records = api_summaries attachments rows;
    page = clamp page pages;
    page_size = page_size;
    total = total;
    total_pages = pages;
  }

  -- what `attachments_for_records` gives
  unfoldable pub api_attached :
      ℕ → ℕ → ℕ → ℕ → List RecordRow → Option (List AttachmentRow) × World → Response × World
  unfolding api_summaries json_error
  api_attached page page_size pages total rows (none, w) =
      (json_error e 500 (codes "internal error"), w)
  api_attached page page_size pages total rows (some attachments, w) =
      (json e 200 (list_json (api_list page page_size pages total rows attachments)), w)

  -- what `list_records` gives; the page size is not zero, so the number of pages is there
  unfoldable pub api_listed : ℕ → ℕ → Option (List RecordRow × ℕ) × World → Response × World
  unfolding api_attached total_pages json_error query_attachments
  api_listed page page_size (none, w) = (json_error e 500 (codes "internal error"), w)
  api_listed page page_size (some (rows, total), w) =
      let pages : ℕ = elim (total_pages total (pos page_size)) [ none ↦ 1 | some n ↦ n ] in
      api_attached page page_size pages total rows (query_attachments e (ids_of rows) w)

  unfoldable pub api_list_records : Option ℤ → Option ℤ → World → Response × World
  unfolding api_listed
  api_list_records page page_size w =
      let size = at_least_one page_size e.cfg.page_size in
      let asked = at_least_one page (pos 1) in
      api_listed asked size (db_call (reading (Db.list_records asked (pos size))) w)
