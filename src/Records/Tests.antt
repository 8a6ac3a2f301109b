-- ===== src/Records/Tests.antt =====
-- The record handlers of src/routes.rs on a small store, and the theorems at it.
use aardbin.Prelude.{
  Bytes, List, Text, [], as_bytes, codes, false, none, refl, some, starts_with, strip_prefix, true,
  utf8_char, ◌∷◌, ◌≡◌,
}
use aardbin.Prelude.Dict.{find, remove}
use aardbin.Http.{Response, find_header, header_text}
use aardbin.App.{
  World, begin_upload, db_call, delete_file, delete_files, finalize_upload, head_fault, ok,
  send_event, write_chunk,
}
use aardbin.Files.{content_disposition, guess_mime, remove_stored}
use aardbin.Form.{
  Multipart, field, finished, ParsedRecordForm, PendingUpload, file_field, finish_file, named_file,
  parse_field, parse_fields, parse_record_form, receive, store_file, text_field, text_value,
}
use aardbin.Records.{
  content_length, create_record, insert_uploads, inserted, overwritten, save_new, save_parsed,
  saved, decrypt_row, update_parsed, updated,
}
use aardbin.Records.Removal.{delete_record, deleted}
use aardbin.Records.Downloads.{download, download_attachment, opened}
use aardbin.Records.Removed.{IsRemoved, delete_record-IsRemoved}
use aardbin.Records.Saved.{IsSaved, after_uploads, save_new-IsSaved, save_new-none}
use aardbin.Records.Updates.{outcome}
use aardbin.Records.Inline.{IsShowable, disposition_of, download_attachment-IsShowable, is_inline}
use aardbin.Db
use aardbin.Db.{
  RecordRow, Tables, find_record, find_attachment, get_record, get_attachment, is_some,
}
use aardbin.Fixtures.{
  file_part, clear_cipher-CipherLaws, note, server, small_form, small_parsed, store,
  store-IsConsistent, store-IsFresh,
}
use aardbin.Form.States.{upload_ids}
use aardbin.Render.Titles.{IsCut}
use aardbin.Records.Posted.{create_record-posted}
use aardbin.Records.Creation.{attached}
use aardbin.Form.Fields.{page_form}
use aardbin.Form.Contents.{AreStored}
use aardbin.Prelude.{one_of, ℕ, arith}
use aardbin.Render.{truncate_chars}

abbrev upload : Text → PendingUpload
upload id = record {
  id = id;
  original_filename = codes "f.bin";
  mime_type = codes "text/plain";
  size = 3;
}

abbrev form_with : List PendingUpload → ParsedRecordForm
form_with us = record { title = codes "T"; content = codes "body"; uploads = us }

abbrev one_file : ParsedRecordForm
one_file = form_with (upload (codes "n1") ∷ [])

abbrev three_files : ParsedRecordForm
three_files = form_with (upload (codes "n1") ∷ upload (codes "n2") ∷ upload (codes "n3") ∷ [])

-- The third call on the database fails: for a new record and for an update, the second upload.
-- The three files are stored already.
abbrev crowded : World
crowded = record store {
  disk = record (store.disk) {
    stored = (codes "n1", []) ∷ (codes "n2", []) ∷ (codes "n3", []) ∷ (codes "a1", 7 ∷ []) ∷ [];
  };
  faults = record (store.faults) { db = false ∷ false ∷ true ∷ [] };
}

saves : (save_new server one_file 50 store).0 ≡ some (1000 ∷ [])
unfolding save_new insert_uploads inserted db_call Db.create_record Db.insert_attachment find_record
    find_attachment
saves = refl

fails : (save_new server three_files 50 crowded).0 ≡ none
unfolding save_new insert_uploads inserted db_call Db.create_record Db.insert_attachment find_record
    find_attachment
fails = refl

quiet_after : head_fault (after_uploads server three_files 50 crowded).1.faults.db ≡ false
unfolding insert_uploads db_call Db.create_record Db.insert_attachment find_record find_attachment
    delete_file
quiet_after = refl

save_new-IsSaved_example :
    IsSaved server one_file 50 store (1000 ∷ []) (save_new server one_file 50 store).1
save_new-IsSaved_example =
    save_new-IsSaved server one_file 50 store (1000 ∷ []) clear_cipher-CipherLaws refl saves

save_new-none_example :
    ((save_new server three_files 50 crowded).1.tables ≡ crowded.tables)
    × ((save_new server three_files 50 crowded).1.sent ≡ crowded.sent)
save_new-none_example =
    save_new-none server three_files 50 crowded store-IsConsistent fails refl quiet_after

-- The failing upload's file is removed; the files of the upload before and of the one after stay,
-- with no row.
files_left :
    (save_new server three_files 50 crowded).1.disk.stored
    ≡ (codes "n1", []) ∷ (codes "n3", []) ∷ (codes "a1", 7 ∷ []) ∷ []
unfolding save_new insert_uploads inserted db_call Db.create_record Db.insert_attachment find_record
    find_attachment delete_file remove_stored remove Db.delete_record
files_left = refl

found_note : get_record (codes "r1") crowded.tables ≡ some note
unfolding get_record find_record
found_note = refl

-- What was read of the record, before another request saved it as `note`.
abbrev read_before : RecordRow
read_before = record note { blob = 1 ∷ []; updated_at = 15 }

abbrev ended : Response × World
ended = outcome server read_before note (codes "r1") 50 three_files crowded found_note

-- The failure of an attachment takes back what the other request has saved.
saves_stale : get_record (codes "r1") ended.1.tables ≡ some read_before
unfolding insert_uploads db_call Db.update_record Db.insert_attachment find_record find_attachment
    delete_file update_parsed overwritten updated get_record
saves_stale = refl

note_is_there : is_some (get_record (codes "r1") store.tables) ≡ true
unfolding get_record find_record
note_is_there = refl

delete_record-IsRemoved_example :
    ((delete_record (codes "r1") store).0.status ≡ 200)
    × IsRemoved (codes "r1") store (delete_record (codes "r1") store).1
delete_record-IsRemoved_example =
    (delete_record-IsRemoved (codes "r1") store store-IsConsistent refl).0 refl note_is_there

deletes_file : (delete_record (codes "r1") store).1.disk.stored ≡ []
unfolding delete_record deleted db_call Db.delete_record find_record delete_files delete_file
    remove_stored remove send_event
deletes_file = refl

shows_picture :
    is_inline (disposition_of (download_attachment (some (codes "1")) (codes "a1") store).0) ≡ true
unfolding download_attachment download opened db_call get_attachment find_attachment find
    content_disposition starts_with strip_prefix
shows_picture = refl

download_attachment-IsShowable_example :
    (meta : Db.AttachmentRow) × (content : Bytes) × (get_attachment (codes "a1") store.tables
      ≡ some meta)
    × (find (codes "a1") store.disk.stored ≡ some content)
    × IsShowable
        (some (codes "1"))
        meta
        content
        (download_attachment (some (codes "1")) (codes "a1") store).0
download_attachment-IsShowable_example =
    download_attachment-IsShowable (some (codes "1")) (codes "a1") store shows_picture

reads_small : (parse_record_form server small_form (content_length []) store).0 ≡ ok small_parsed
unfolding content_length header_text find_header parse_record_form parse_fields parse_field
    text_field text_value file_field named_file store_file finish_file receive begin_upload
    write_chunk finalize_upload truncate_chars as_bytes utf8_char guess_mime
reads_small = refl

creates_small : (create_record server small_form [] 50 store).0 ≡ saved
unfolding create_record save_parsed save_new insert_uploads inserted db_call Db.create_record
    Db.insert_attachment find_record find_attachment content_length header_text find_header
    parse_record_form parse_fields parse_field text_field text_value file_field named_file
    store_file finish_file receive begin_upload write_chunk finalize_upload truncate_chars as_bytes
    utf8_char guess_mime
creates_small = refl

abbrev small_file : Multipart
small_file = field (file_part ((1 ∷ 2 ∷ []) ∷ (3 ∷ []) ∷ [])) finished

abbrev created : World
created = (create_record server (page_form (codes "T") (codes "body") small_file) [] 50 store).1

names_differ : (i j : ℕ) → server.uuid i ≡ server.uuid j → i ≡ j
names_differ i j same = ground (arith, same)

create_record-posted_example :
    (id : Text) × (get_record id store.tables ≡ none)
    × ((row : RecordRow) × (get_record id created.tables ≡ some row)
        × ((t : Text) × IsCut (codes "T") 200 t
            × (decrypt_row server row ≡ some (t, codes "body"))))
    × AreStored small_parsed.uploads ((codes "f.bin", 1 ∷ 2 ∷ 3 ∷ []) ∷ []) created
    × (created.tables.attachments ≡ attached id 50 small_parsed.uploads store.tables.attachments)
    × ((k : Text) → find k created.disk.tmp ≡ find k store.disk.tmp)
    × ((k : Text)
        → one_of k (upload_ids small_parsed.uploads) ≡ false
        → find k created.disk.stored ≡ find k store.disk.stored)
create_record-posted_example =
    create_record-posted server 50 (codes "T") (codes "body") small_file [] store small_parsed
      names_differ store-IsFresh refl clear_cipher-CipherLaws (λ i. refl) (refl, tt) reads_small
      creates_small
