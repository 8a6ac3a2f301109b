-- ===== src/Form.antt =====
-- `parse_record_form` of src/routes.rs: a multipart form streamed into memory and onto the disk.
-- The multipart reader is `axum`'s: a form is what its calls return, in turn.
pub mod Limits
pub mod Texts
pub mod Fields
pub mod States
pub mod Contents
pub mod Filling
pub mod Stored
pub mod Tracks
pub mod Receiving
pub mod Untouched
pub mod Atomic
mod Tests
use aardbin.Prelude.{
  Bool, Bytes, List, Option, Text, [], as_bytes, as_i64, codes, false, if◌then◌else◌, length, ltb,
  max, none, not, some, text_eq, trim, true, ℕ, ◌&&◌, ◌++◌, ◌+◌, ◌∷◌,
}
use aardbin.Prelude.Decimal.{show_u64}
use aardbin.Files.{guess_mime, human_size}
use aardbin.Render.{truncate_chars}
use aardbin.Http.{Response, err_response, internal}
use aardbin.Config.{Config, max_attachments_per_record}
use aardbin.App.{
  Env, Result, World, abort_upload, begin_upload, delete_file, err, finalize_upload, ok,
  write_chunk,
}

-- A field: `text()` gives its text or an error; `chunk()` gives the chunks, then the end or an error.
pub record Part : Type 0 where
  pub name : Option Text
  pub file_name : Option Text
  pub content_type : Option Text
  pub text : Option Text
  pub chunks : List Bytes
  pub broken : Bool

-- What `next_field()` returns: a field, the end, or an error.
pub data Multipart : Type 0 where
  finished malformed : Multipart
  field : Part → Multipart → Multipart

pub record PendingUpload : Type 0 where
  pub id : Text
  pub original_filename : Text
  pub mime_type : Text
  pub size : ℕ

pub record ParsedRecordForm : Type 0 where
  pub title : Text
  pub content : Text
  pub uploads : List PendingUpload

-- the local variables of the loop
pub record Progress : Type 0 where
  pub title : Text
  pub content : Text
  pub uploads : List PendingUpload
  pub total_bytes : ℕ
  pub attachment_count : ℕ

abbrev pub start : Progress
start = record { title = []; content = []; uploads = []; total_bytes = 0; attachment_count = 0 }

unfoldable pub cleanup_uploads : List PendingUpload → World → World
cleanup_uploads [] w = w
cleanup_uploads (u ∷ us) w = cleanup_uploads us (delete_file u.id w)

-- `cleanup_uploads(...).await; return Err(...)`
unfoldable pub give_up {ℓ} : {A : Type ℓ} → List PendingUpload → Response → World → Result A × World
unfolding cleanup_uploads
give_up uploads resp w = (err resp, cleanup_uploads uploads w)

abbrev pub invalid_field : Response
invalid_field = record { status = 422; headers = []; body = codes "Invalid field" }

abbrev pub too_large : Response
too_large = record { status = 413; headers = []; body = codes "Request too large" }

abbrev pub content_too_large : ℕ → Response
content_too_large max_bytes = record {
  status = 422;
  headers = [];
  body = codes "Content too large (max " ++ (show_u64 max_bytes ++ codes " bytes)");
}

abbrev pub too_many : Response
too_many = record { status = 422; headers = []; body = codes "Too many attachments (max 20)" }

abbrev pub file_too_large : Text → ℕ → Response
file_too_large filename max_bytes = record {
  status = 422;
  headers = [];
  body =
      b'"'
      ∷ (filename
          ++ (b'"' ∷ codes " exceeds max attachment size ("
              ++ (human_size (as_i64 max_bytes) ++ codes ")")));
}

abbrev pub upload_failed : Response
upload_failed = record { status = 422; headers = []; body = codes "Upload failed" }

module _ (e : Env) where
  -- the arm of "title" and "content", behind `text()`
  unfoldable pub text_value : Bool → Text → Progress → World → Result Progress × World
  text_value is_title text p w =
      let size = length (as_bytes text) in
      if ltb e.cfg.max_request_bytes (p.total_bytes + size)
      then give_up p.uploads too_large w
      else if not is_title && ltb e.cfg.max_content_bytes size
      then give_up p.uploads (content_too_large e.cfg.max_content_bytes) w
      else (
        ok (record p {
          title = if is_title then truncate_chars (trim text) 200 else p.title;
          content = if is_title then p.content else text;
          total_bytes = p.total_bytes + size;
        }),
        w,
      )

  unfoldable pub text_field : Bool → Part → Progress → World → Result Progress × World
  unfolding text_value
  text_field is_title part p w = elim part.text [
    | none ↦ give_up p.uploads invalid_field w
    | some text ↦ text_value is_title text p w
  ]

  -- The loop over the chunks: the size of the file and the total, or the response that it fails with.
  unfoldable pub receive : Text → Text → ℕ → ℕ → List Bytes → Bool → World → Result (ℕ × ℕ) × World
  receive id filename size total [] broken w =
      if broken then (err upload_failed, w) else (ok (size, total), w)
  receive id filename size total (chunk ∷ chunks) broken w =
      let written = write_chunk id chunk w in
      let more =
        receive id filename (size + length chunk) (total + length chunk) chunks broken written.1 in
      if ltb e.cfg.max_attachment_bytes (size + length chunk)
      then (err (file_too_large filename e.cfg.max_attachment_bytes), w)
      else if ltb e.cfg.max_request_bytes (total + length chunk)
      then (err too_large, w)
      else if written.0
      then more
      else (err internal, written.1)

  abbrev pub pending : Text → Text → Option Text → ℕ → PendingUpload
  pending id filename declared size = record {
    id = id;
    original_filename = filename;
    mime_type = guess_mime e.mime_from_path filename declared;
    size = size;
  }

  -- the push behind a finished upload
  abbrev pub uploaded : Text → Text → Option Text → ℕ → ℕ → Progress → Progress
  uploaded id filename declared size total p = record p {
    uploads = p.uploads ++ pending id filename declared size ∷ [];
    total_bytes = total;
    attachment_count = p.attachment_count + 1;
  }

  -- fsync, close and rename; on a failure the temp file goes too
  unfoldable pub finish_file :
      Text → Text → Option Text → Progress → Result (ℕ × ℕ) × World → Result Progress × World
  finish_file id filename declared p (err resp, w) = give_up p.uploads resp (abort_upload id w)
  finish_file id filename declared p (ok (size, total), w) =
      let finished = finalize_upload id w in
      if finished.0
      then (ok (uploaded id filename declared size total p), finished.1)
      else give_up p.uploads internal (abort_upload id finished.1)

  unfoldable pub store_file : Text → Part → Progress → Option Text × World → Result Progress × World
  unfolding finish_file
  store_file filename part p (none, w) = give_up p.uploads internal w
  store_file filename part p (some id, w) =
      finish_file id filename part.content_type p
        (receive id filename 0 p.total_bytes part.chunks part.broken w)

  -- A file field with no name, or an empty one, is skipped.
  unfoldable pub named_file : Option Text → Part → Progress → World → Result Progress × World
  unfolding store_file
  named_file none part p w = (ok p, w)
  named_file (some []) part p w = (ok p, w)
  named_file (some (c ∷ filename)) part p w =
      if ltb max_attachments_per_record (p.attachment_count + 1)
      then give_up p.uploads too_many w
      else store_file (c ∷ filename) part p (begin_upload e w)

  unfoldable pub file_field : Part → Progress → World → Result Progress × World
  unfolding named_file
  file_field part p w = named_file part.file_name part p w

  drained : Option Text → Progress → Progress
  drained none p = p
  drained (some text) p = record p { total_bytes = p.total_bytes + length (as_bytes text) }

  -- An unknown field is drained and counted.
  unfoldable pub other_field : Part → Progress → World → Result Progress × World
  unfolding drained
  other_field part p w = (ok (drained part.text p), w)

  abbrev name_of : Part → Text
  name_of part = elim part.name [ none ↦ [] | some n ↦ n ]

  unfoldable pub parse_field : Part → Progress → World → Result Progress × World
  parse_field part p w =
      if text_eq (name_of part) (codes "title")
      then text_field true part p w
      else if text_eq (name_of part) (codes "content")
      then text_field false part p w
      else if text_eq (name_of part) (codes "files")
      then file_field part p w
      else other_field part p w

  abbrev pub form_of : Progress → ParsedRecordForm
  form_of p = record { title = p.title; content = p.content; uploads = p.uploads }

  unfoldable pub parse_fields : Multipart → Progress → World → Result ParsedRecordForm × World
  parse_fields finished p w = (ok (form_of p), w)
  parse_fields malformed p w = give_up p.uploads (err_response 422 (codes "Invalid form data")) w
  parse_fields (field part rest) p w =
      let (r, w') = parse_field part p w in
      elim r [ err resp ↦ (err resp, w') | ok p' ↦ parse_fields rest p' w' ]

  unfoldable pub parse_record_form : Multipart → Option ℕ → World → Result ParsedRecordForm × World
  parse_record_form form content_length w = elim content_length [
    | none ↦ parse_fields form start w
    | some len ↦
        if ltb e.cfg.max_request_bytes len
        then (
          err (
              err_response 413 (
                codes "Request too large (max "
                ++ (show_u64 e.cfg.max_request_bytes ++ codes " bytes)"))),
          w,
        )
        else parse_fields form start w
  ]
