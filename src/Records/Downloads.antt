-- ===== src/Records/Downloads.antt =====
-- `copy_record` and `download_attachment` of src/routes.rs.
use aardbin.Prelude.{
  Bool, Bytes, Option, Text, [], codes, false, if◌then◌else◌, none, one_of, some, text_eq, ◌&&◌,
  ◌∷◌,
}
use aardbin.Prelude.Decimal.{show_u64}
use aardbin.Prelude.Dict.{find}
use aardbin.Http.{Response, err_response, internal}
use aardbin.Files.{content_disposition, inline_whitelist}
use aardbin.App.{Env, World, db_call, reading}
use aardbin.Records.{decrypt_row, record_not_found}
use aardbin.Records.Removal.{attachment_not_found}
use aardbin.Db
use aardbin.Db.{AttachmentRow, RecordRow}

module _ (e : Env) where
  abbrev pub copied : Option (Text × Text) → Response
  copied none = err_response 422 (codes "unable to decrypt")
  copied (some (title, content)) = record {
    status = 200;
    headers =
        (codes "content-type", codes "text/plain; charset=utf-8")
        ∷ (codes "cache-control", codes "no-store")
        ∷ [];
    body = content;
  }

  unfoldable pub copy_found : Option (Option RecordRow) × World → Response × World
  copy_found (none, w) = (internal, w)
  copy_found (some none, w) = (record_not_found, w)
  copy_found (some (some row), w) = (copied (decrypt_row e row), w)

  unfoldable pub copy_record : Text → World → Response × World
  unfolding copy_found
  copy_record id w = copy_found (db_call (reading (Db.get_record id)) w)

-- `q.inline == Some("1")` and a type that the whitelist has
abbrev pub inline_ok : Option Text → Text → Bool
inline_ok none mime = false
inline_ok (some v) mime = text_eq v (codes "1") && one_of mime inline_whitelist

-- The body is the bytes of the file.
abbrev pub served : Option Text → AttachmentRow → Bytes → Response
served inline meta content = record {
  status = 200;
  headers =
      (codes "content-type", meta.mime_type)
      ∷ (
        codes "content-disposition",
        content_disposition
            (if inline_ok inline meta.mime_type then codes "inline" else codes "attachment")
            meta.original_filename,
      )
      ∷ (codes "x-content-type-options", codes "nosniff")
      ∷ (codes "content-length", show_u64 meta.size_bytes)
      ∷ (codes "cache-control", codes "private, no-store")
      ∷ [];
  body = content;
}

-- Opening the file; an error of it other than that it is missing gives the same response.
unfoldable pub opened : Response → Option Text → AttachmentRow → Option Bytes → Response
opened missing inline meta none = missing
opened missing inline meta (some content) = served inline meta content

-- What `get_attachment` gives; `absent`, `missing` and `failed` are the responses, which
-- src/api.rs gives in JSON.
unfoldable pub download :
    Response
    → Response
    → Response
    → Option Text
    → Text
    → Option (Option AttachmentRow) × World
    → Response × World
unfolding opened
download absent missing failed inline id (none, w) = (failed, w)
download absent missing failed inline id (some none, w) = (absent, w)
download absent missing failed inline id (some (some meta), w) =
    (opened missing inline meta (find id w.disk.stored), w)

unfoldable pub download_attachment : Option Text → Text → World → Response × World
unfolding download
download_attachment inline id w =
    download attachment_not_found (err_response 404 (codes "attachment file missing")) internal
      inline id (db_call (reading (Db.get_attachment id)) w)
