-- ===== src/Records/Posted.antt =====
-- `create_record` of src/routes.rs on a form that its page sends, down to the bytes of the files.
use aardbin.Prelude.{
  Bytes, List, Text, [], ap, false, length, none, one_of, some, sym, trim, ℕ, ◌∙◌, ◌∷◌, ◌≡◌,
}
use aardbin.Http.{Headers}
use aardbin.App.{Env, World, ok}
use aardbin.Render.{truncate_chars}
use aardbin.Crypto.Laws.{CipherLaws}
use aardbin.Form.{Multipart, ParsedRecordForm, PendingUpload, parse_record_form}
use aardbin.Form.States.{IsFresh, upload_ids}
use aardbin.Form.Fields.{AllFiles, page_form, page_form-IsRead}
use aardbin.Form.Contents.{AreStored, file_contents}
use aardbin.Form.Stored.{page_form-Holds}
use aardbin.Render.Titles.{IsCut, truncate_chars-IsCut}
use aardbin.Records.{content_length, create_record, decrypt_row, saved}
use aardbin.Records.Creation.{attached}
use aardbin.Records.Created.{create_record-IsSaved}
use aardbin.Db.{RecordRow, Tables, get_record}
use aardbin.Files.{Disk}
use aardbin.Prelude.Dict.{find}

module _ (e : Env) (now : ℕ) where
  AreStored-disk :
      (us : List PendingUpload) (fs : List (Text × Bytes)) (w w' : World)
      → w'.disk ≡ w.disk
      → AreStored us fs w
      → AreStored us fs w'
  AreStored-disk [] [] w w' same h = tt
  AreStored-disk [] (f ∷ fs) w w' same h = absurd h
  AreStored-disk (u ∷ us) [] w w' same h = absurd h
  AreStored-disk (u ∷ us) (f ∷ fs) w w' same (name, found, h) =
      (name, ap (λ (d : Disk). find u.id d.stored) same ∙ found, AreStored-disk us fs w w' same h)

  -- If the names that are drawn differ and those to come are free, no removal of a file fails, the
  -- cipher opens what it seals and nonces have twelve bytes, then a form of a title, a content and
  -- files that is accepted and answered with success becomes a record whose identifier was free. Its
  -- row decrypts to the content exactly as it was sent, and to the title, trimmed: the whole of it up
  -- to 200 characters, and the first 200 with an ellipsis if it is longer. The files that were sent
  -- have one upload each, by the file's name and in their order: it is stored with all the bytes that
  -- arrived, and an attachment row of the record names it. No temp file and no other stored file has
  -- changed.
  pub create_record-posted :
      (title content : Text) (files : Multipart) (hs : Headers) (w : World) (f : ParsedRecordForm)
      → ((i j : ℕ) → e.uuid i ≡ e.uuid j → i ≡ j)
      → IsFresh e w
      → w.faults.unlink ≡ []
      → CipherLaws e.cipher
      → ((i : ℕ) → length (e.nonce i) ≡ 12)
      → AllFiles files
      → (parse_record_form e (page_form title content files) (content_length hs) w).0 ≡ ok f
      → (create_record e (page_form title content files) hs now w).0 ≡ saved
      → (id : Text) × (get_record id w.tables ≡ none)
        × ((row : RecordRow) × (get_record id
                (create_record e (page_form title content files) hs now w).1.tables
              ≡ some row)
            × ((t : Text) × IsCut (trim title) 200 t × (decrypt_row e row ≡ some (t, content))))
        × AreStored f.uploads
            (file_contents files)
            (create_record e (page_form title content files) hs now w).1
        × ((create_record e (page_form title content files) hs now w).1.tables.attachments
            ≡ attached id now f.uploads w.tables.attachments)
        × ((k : Text)
            → find k (create_record e (page_form title content files) hs now w).1.disk.tmp
              ≡ find k w.disk.tmp)
        × ((k : Text)
            → one_of k (upload_ids f.uploads) ≡ false
            → find k (create_record e (page_form title content files) hs now w).1.disk.stored
              ≡ find k w.disk.stored)
  create_record-posted title content files hs w f distinct fresh quiet laws twelve all parsed done =
      let form = page_form title content files in
      let u = (parse_record_form e form (content_length hs) w).1 in
      let w' = (create_record e form hs now w).1 in
      let (disk, (id, s)) =
        create_record-IsSaved e now form hs w f fresh quiet laws twelve parsed done in
      let read = page_form-IsRead e title content files (content_length hs) w f all parsed in
      let held =
        page_form-Holds e distinct title content files (content_length hs) w f fresh all parsed in
      let (row, found, opens) = s.readable in
      (
        id,
        ap (get_record id) (sym disk.rest.tables) ∙ s.was_free,
        (
          row,
          found,
          (
            truncate_chars (trim title) 200,
            truncate_chars-IsCut (trim title) 200,
            opens
                ∙ ap (λ t. some (t, f.content)) read.title_read
                ∙ ap (λ c. some (truncate_chars (trim title) 200, c)) read.content_read,
          ),
        ),
        AreStored-disk f.uploads (file_contents files) u w' s.disk held,
        s.attachments
            ∙ ap (λ i. attached i now f.uploads u.tables.attachments) (sym s.named)
            ∙ ap (λ (t : Tables). attached id now f.uploads t.attachments) disk.rest.tables,
        λ k. ap (λ (d : Disk). find k d.tmp) s.disk ∙ disk.tmp_same k,
        λ k old. ap (λ (d : Disk). find k d.stored) s.disk ∙ disk.stored_same k old,
      )
