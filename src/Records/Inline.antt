-- ===== src/Records/Inline.antt =====
-- Which attachments `download_attachment` of src/routes.rs lets a browser show in place.
use mathlib.Core.Bool.{false≢true}
use aardbin.Prelude.{
  Bool, Bool-cases, Bytes, Option, Option-cases, Text, ap, arith, codes, false, inl, inr, none,
  one_of, refl, some, starts_with, strip_prefix, text_eq_iff, sym, true, ◌∙◌, ◌≡◌, ◌⊎◌,
}
use aardbin.Prelude.Dict.{find}
use aardbin.Http.{Response, err_response, internal}
use aardbin.Files.{Disk, content_disposition, inline_whitelist}
use aardbin.App.{World, db_call, head_fault, reading}
use aardbin.Records.Removal.{attachment_not_found}
use aardbin.Records.Downloads.{download, download_attachment, inline_ok, opened, served}
use aardbin.Db
use aardbin.Db.{AttachmentRow, Tables, get_attachment}

pub reading_found {ℓ} :
    {A : Type ℓ} (f : Tables → A) (w : World) (a : A)
    → (db_call (reading f) w).0 ≡ some a
    → f w.tables ≡ a
unfolding db_call
reading_found f w a h = elim (Bool-cases (head_fault w.faults.db)) [
  | inl bad ↦ absurd (ground (arith, rw (bad, db_call) at h))
  | inr works ↦ ground (arith, rw (works, db_call) at h)
]

abbrev pub disposition_of : Response → Option Text
disposition_of r = find (codes "content-disposition") r.headers

-- Shown in place: the disposition is `inline`.
abbrev pub is_inline : Option Text → Bool
is_inline none = false
is_inline (some d) = starts_with (codes "inline;") d

-- The types that a browser may show: images that hold no script.
abbrev pub IsSafeImage : Text → Type 0
IsSafeImage mime =
    (mime ≡ codes "image/png")
    ⊎ ((mime ≡ codes "image/jpeg") ⊎ ((mime ≡ codes "image/gif") ⊎ (mime ≡ codes "image/webp")))

safe_image : (mime : Text) → one_of mime inline_whitelist ≡ true → IsSafeImage mime
safe_image mime h = ground (
  arith,
  h,
  text_eq_iff mime (codes "image/png"),
  text_eq_iff mime (codes "image/jpeg"),
  text_eq_iff mime (codes "image/gif"),
  text_eq_iff mime (codes "image/webp"),
)

-- Served to be shown: an attachment that is there, of such a type, on request, with the header that
-- forbids the browser to guess another type, and the bytes of the file.
pub record IsShowable (inline : Option Text) (meta : AttachmentRow) (content : Bytes) (r : Response)
    : Type 0 where
  pub asked : inline ≡ some (codes "1")
  pub image : IsSafeImage meta.mime_type
  pub whole : r.body ≡ content
  pub no_guess : find (codes "x-content-type-options") r.headers ≡ some (codes "nosniff")
  pub typed : find (codes "content-type") r.headers ≡ some meta.mime_type

served_lem :
    (inline : Option Text) (meta : AttachmentRow) (content : Bytes)
    → is_inline (disposition_of (served inline meta content)) ≡ true
    → IsShowable inline meta content (served inline meta content)
unfolding find content_disposition starts_with strip_prefix
served_lem none meta content h = absurd (false≢true h)
served_lem (some v) meta content h = elim (Bool-cases (inline_ok (some v) meta.mime_type)) [
  | inl good ↦ record {
    asked = ap some ((text_eq_iff v (codes "1")).0 (ground (arith, good)));
    image = safe_image meta.mime_type (ground (arith, good));
    whole = refl;
    no_guess = refl;
    typed = refl;
  }
  | inr bad ↦ absurd (false≢true (rw bad at h))
]

download_lem :
    (inline : Option Text) (id : Text) (c : Option (Option AttachmentRow) × World)
    → is_inline (
        disposition_of
          (download attachment_not_found
            (err_response 404 (codes "attachment file missing"))
            internal
            inline
            id
            c).0)
      ≡ true
    → (meta : AttachmentRow) × (content : Bytes) × (c.0 ≡ some (some meta))
      × (find id c.1.disk.stored ≡ some content)
      × IsShowable inline meta content
          (download attachment_not_found
            (err_response 404 (codes "attachment file missing"))
            internal
            inline
            id
            c).0
unfolding download find err_response internal
download_lem inline id (none, w) h = absurd (false≢true h)
download_lem inline id (some none, w) h = absurd (false≢true h)
download_lem inline id (some (some meta), w) h = elim (Option-cases (find id w.disk.stored)) [
  | inl missing ↦ absurd (false≢true (rw (missing, opened) at h))
  | inr (content, e) ↦ (
    meta,
    content,
    refl,
    e,
    rw (e, opened) (served_lem inline meta content (rw (e, opened) at h)),
  )
]

reading_disk {ℓ} :
    {A : Type ℓ} (f : Tables → A) (w : World) → (db_call (reading f) w).1.disk ≡ w.disk
unfolding db_call
reading_disk f w = ground arith

-- A response that a browser shows in place was asked for with `inline=1`, and serves the attachment
-- of the name in the path, with the bytes of its file. Its content type is the attachment's, one of
-- PNG, JPEG, GIF and WebP, and it forbids the browser to guess another.
pub download_attachment-IsShowable :
    (inline : Option Text) (id : Text) (w : World)
    → is_inline (disposition_of (download_attachment inline id w).0) ≡ true
    → (meta : AttachmentRow) × (content : Bytes) × (get_attachment id w.tables ≡ some meta)
      × (find id w.disk.stored ≡ some content)
      × IsShowable inline meta content (download_attachment inline id w).0
unfolding download_attachment
download_attachment-IsShowable inline id w h =
    let c = db_call (reading (Db.get_attachment id)) w in
    let (meta, content, found, file, showable) = download_lem inline id c h in
    (
      meta,
      content,
      reading_found (Db.get_attachment id) w (some meta) found,
      ap (λ (d : Disk). find id d.stored) (sym (reading_disk (Db.get_attachment id) w)) ∙ file,
      showable,
    )
