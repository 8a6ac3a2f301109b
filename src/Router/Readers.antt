-- ===== src/Router/Readers.antt =====
-- The handlers that only read: what they leave as it was.
use aardbin.Prelude.{
  Bool, Bool-cases, List, Option, Text, [], false, if◌then◌else◌, inl, inr, ltb, max_one, none, pos,
  refl, some, true, ℕ, ℤ, ◌&&◌, ◌∙◌, ◌∷◌, ◌≡◌,
}
use aardbin.Http.{Headers, Response}
use aardbin.App.{Env, World, db_call, head_fault, reading}
use aardbin.Login.{detect_lang}
use aardbin.I18n.{Lang}
use aardbin.Records.{decrypt_row, edit_decrypted, edit_form, edit_found, edit_listed}
use aardbin.Records.Downloads.{copy_found, copy_record, download}
use aardbin.Listing.{
  Attempt, answered, build_list_view, clamp, clamped, failed, first_query, ids_of, index, is_nil,
  page_or_one, panicked, query_attachments, query_page, records_partial, shown, total_pages,
  with_attachments, with_rows,
}
use aardbin.Api.{api_get_record, get_found, get_listed}
use aardbin.Api.Lists.{api_attached, api_list_records, api_listed, at_least_one}
use aardbin.Router.Table.{or_closed}
use aardbin.Db
use aardbin.Db.{Tables, AttachmentRow, RecordRow}
use aardbin.Views.{ListView}

-- Nothing was stored or removed, nothing broadcast and no random value drawn.
pub record IsRead (w w' : World) : Type 0 where
  pub tables : w'.tables ≡ w.tables
  pub disk : w'.disk ≡ w.disk
  pub sent : w'.sent ≡ w.sent
  pub drawn : w'.drawn ≡ w.drawn

pub nothing : {w : World} → IsRead w w
nothing = record { tables = refl; disk = refl; sent = refl; drawn = refl }

pub IsRead-trans : {u v w : World} → IsRead u v → IsRead v w → IsRead u w
IsRead-trans a b = record {
  tables = b.tables ∙ a.tables;
  disk = b.disk ∙ a.disk;
  sent = b.sent ∙ a.sent;
  drawn = b.drawn ∙ a.drawn;
}

pub reading-IsRead : {A : Type 0} (f : Tables → A) (w : World) → IsRead w (db_call (reading f) w).1
unfolding db_call
reading-IsRead f w = elim (Bool-cases (head_fault w.faults.db)) [
  | inl bad ↦ rw (bad, db_call) (record { tables = refl; disk = refl; sent = refl; drawn = refl })
  | inr works ↦
      rw (works, db_call) (record { tables = refl; disk = refl; sent = refl; drawn = refl })
]

if-IsRead :
    {A : Type 0} (w : World) (b : Bool) (m n : A × World)
    → IsRead w m.1
    → IsRead w n.1
    → IsRead w (if b then m else n).1
if-IsRead w true m n hm hn = hm
if-IsRead w false m n hm hn = hn

pub download-IsRead :
    (absent missing down : Response) (inline : Option Text) (id : Text)
    (r : Option (Option AttachmentRow) × World)
    → IsRead r.1 (download absent missing down inline id r).1
unfolding download
download-IsRead absent missing down inline id (none, w) = nothing
download-IsRead absent missing down inline id (some none, w) = nothing
download-IsRead absent missing down inline id (some (some meta), w) = nothing

module _ (e : Env) where
  copy_found-IsRead : (r : Option (Option RecordRow) × World) → IsRead r.1 (copy_found e r).1
  unfolding copy_found
  copy_found-IsRead (none, w) = nothing
  copy_found-IsRead (some none, w) = nothing
  copy_found-IsRead (some (some row), w) = nothing

  pub copy_record-IsRead : (id : Text) (w : World) → IsRead w (copy_record e id w).1
  unfolding copy_record
  copy_record-IsRead id w =
      IsRead-trans (reading-IsRead (Db.get_record id) w)
        (copy_found-IsRead (db_call (reading (Db.get_record id)) w))

  edit_listed-IsRead :
      (lang : Lang) (id : Text) (text : Text × Text) (r : Option (List AttachmentRow) × World)
      → IsRead r.1 (edit_listed e lang id text r).1
  unfolding edit_listed
  edit_listed-IsRead lang id text (none, w) = nothing
  edit_listed-IsRead lang id text (some attachments, w) = nothing

  edit_decrypted-IsRead :
      (lang : Lang) (id : Text) (text : Option (Text × Text)) (w : World)
      → IsRead w (edit_decrypted e lang id text w).1
  unfolding edit_decrypted
  edit_decrypted-IsRead lang id none w = nothing
  edit_decrypted-IsRead lang id (some text) w =
      IsRead-trans (reading-IsRead (Db.list_attachments id) w)
        (edit_listed-IsRead lang id text (db_call (reading (Db.list_attachments id)) w))

  edit_found-IsRead :
      (lang : Lang) (id : Text) (r : Option (Option RecordRow) × World)
      → IsRead r.1 (edit_found e lang id r).1
  unfolding edit_found
  edit_found-IsRead lang id (none, w) = nothing
  edit_found-IsRead lang id (some none, w) = nothing
  edit_found-IsRead lang id (some (some row), w) =
      edit_decrypted-IsRead lang id (decrypt_row e row) w

  pub edit_form-IsRead : (id : Text) (hs : Headers) (w : World) → IsRead w (edit_form e id hs w).1
  unfolding edit_form
  edit_form-IsRead id hs w =
      IsRead-trans (reading-IsRead (Db.get_record id) w)
        (edit_found-IsRead (detect_lang hs) id (db_call (reading (Db.get_record id)) w))

  query_attachments-IsRead : (ids : List Text) (w : World) → IsRead w (query_attachments e ids w).1
  unfolding query_attachments
  query_attachments-IsRead [] w = nothing
  query_attachments-IsRead (id ∷ ids) w = reading-IsRead (Db.attachments_for_records (id ∷ ids)) w

  with_attachments-IsRead :
      (lang : Lang) (page pages total : ℕ) (rows : List RecordRow)
      (r : Option (List AttachmentRow) × World)
      → IsRead r.1 (with_attachments e lang page pages total rows r).1
  unfolding with_attachments
  with_attachments-IsRead lang page pages total rows (none, w) = nothing
  with_attachments-IsRead lang page pages total rows (some attachments, w) = nothing

  with_rows-IsRead :
      (lang : Lang) (page pages total : ℕ) (r : Option (List RecordRow × ℕ) × World)
      → IsRead r.1 (with_rows e lang page pages total r).1
  unfolding with_rows
  with_rows-IsRead lang page pages total (none, w) = nothing
  with_rows-IsRead lang page pages total (some (rows, count), w) =
      IsRead-trans (query_attachments-IsRead (ids_of rows) w)
        (with_attachments-IsRead lang page pages total rows (query_attachments e (ids_of rows) w))

  clamped-IsRead :
      (lang : Lang) (page : ℕ) (rows : List RecordRow) (total : ℕ) (pages : Option ℕ) (w : World)
      → IsRead w (clamped e lang page rows total pages w).1
  unfolding clamped
  clamped-IsRead lang page rows total none w = nothing
  clamped-IsRead lang page rows total (some pages) w =
      let last = clamp page pages in
      let again =
        if is_nil e rows && ltb 1 last then query_page e last w else (some (rows, total), w) in
      IsRead-trans
        (if-IsRead w (is_nil e rows && ltb 1 last) (query_page e last w) (some (rows, total), w)
          (reading-IsRead (Db.list_records last e.cfg.page_size) w) nothing)
        (with_rows-IsRead lang last pages total again)

  first_query-IsRead :
      (lang : Lang) (page : ℕ) (r : Option (List RecordRow × ℕ) × World)
      → IsRead r.1 (first_query e lang page r).1
  unfolding first_query
  first_query-IsRead lang page (none, w) = nothing
  first_query-IsRead lang page (some (rows, total), w) =
      clamped-IsRead lang page rows total (total_pages total e.cfg.page_size) w

  build_list_view-IsRead :
      (page : ℤ) (lang : Lang) (w : World) → IsRead w (build_list_view e page lang w).1
  unfolding build_list_view
  build_list_view-IsRead page lang w =
      IsRead-trans (reading-IsRead (Db.list_records (max_one page) e.cfg.page_size) w)
        (first_query-IsRead lang (max_one page) (query_page e (max_one page) w))

  answered-IsRead :
      (page : ListView → Option Text) (r : Attempt ListView × World)
      → IsRead r.1 (or_closed (answered e page r)).1
  answered-IsRead page (shown view, w) = nothing
  answered-IsRead page (failed, w) = nothing
  answered-IsRead page (panicked, w) = nothing

  pub index-IsRead : (hs : Headers) (w : World) → IsRead w (or_closed (index e hs w)).1
  unfolding index
  index-IsRead hs w =
      IsRead-trans (build_list_view-IsRead (pos 1) (detect_lang hs) w)
        (answered-IsRead _ (build_list_view e (pos 1) (detect_lang hs) w))

  pub records_partial-IsRead :
      (hs : Headers) (page : Option ℤ) (w : World)
      → IsRead w (or_closed (records_partial e hs page w)).1
  unfolding records_partial
  records_partial-IsRead hs page w =
      IsRead-trans (build_list_view-IsRead (page_or_one e page) (detect_lang hs) w)
        (answered-IsRead _ (build_list_view e (page_or_one e page) (detect_lang hs) w))

  get_listed-IsRead :
      (row : RecordRow) (r : Option (List AttachmentRow) × World)
      → IsRead r.1 (get_listed e row r).1
  unfolding get_listed
  get_listed-IsRead row (none, w) = nothing
  get_listed-IsRead row (some attachments, w) = nothing

  get_found-IsRead :
      (id : Text) (r : Option (Option RecordRow) × World) → IsRead r.1 (get_found e id r).1
  unfolding get_found
  get_found-IsRead id (none, w) = nothing
  get_found-IsRead id (some none, w) = nothing
  get_found-IsRead id (some (some row), w) =
      IsRead-trans (reading-IsRead (Db.list_attachments id) w)
        (get_listed-IsRead row (db_call (reading (Db.list_attachments id)) w))

  pub api_get_record-IsRead : (id : Text) (w : World) → IsRead w (api_get_record e id w).1
  unfolding api_get_record
  api_get_record-IsRead id w =
      IsRead-trans (reading-IsRead (Db.get_record id) w)
        (get_found-IsRead id (db_call (reading (Db.get_record id)) w))

  api_attached-IsRead :
      (page size pages total : ℕ) (rows : List RecordRow) (r : Option (List AttachmentRow) × World)
      → IsRead r.1 (api_attached e page size pages total rows r).1
  unfolding api_attached
  api_attached-IsRead page size pages total rows (none, w) = nothing
  api_attached-IsRead page size pages total rows (some attachments, w) = nothing

  api_listed-IsRead :
      (page size : ℕ) (r : Option (List RecordRow × ℕ) × World)
      → IsRead r.1 (api_listed e page size r).1
  unfolding api_listed
  api_listed-IsRead page size (none, w) = nothing
  api_listed-IsRead page size (some (rows, total), w) =
      IsRead-trans (query_attachments-IsRead (ids_of rows) w)
        (api_attached-IsRead page size _ total rows (query_attachments e (ids_of rows) w))

  pub api_list_records-IsRead :
      (page size : Option ℤ) (w : World) → IsRead w (api_list_records e page size w).1
  unfolding api_list_records
  api_list_records-IsRead page size w =
      let n = at_least_one size e.cfg.page_size in
      let asked = at_least_one page (pos 1) in
      IsRead-trans (reading-IsRead (Db.list_records asked (pos n)) w)
        (api_listed-IsRead asked n (db_call (reading (Db.list_records asked (pos n))) w))
