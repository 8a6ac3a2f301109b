-- ===== src/Api/Tests.antt =====
-- The Bearer key of src/api.rs at a small server.
use aardbin.Prelude.{List, Text, [], arith, codes, none, refl, some, ◌∷◌, ◌≡◌}
use aardbin.Http.{Headers, find_header, header_text, visible}
use aardbin.Ratelimit.{IpAddr}
use aardbin.Ratelimit.History.{Call, checked, failed, replay, succeeded}
use aardbin.Api.{api_auth, api_create_record, api_get_record, json}
use aardbin.Api.Auth.{HasKey, api_auth-replay}
use aardbin.Api.Posted.{IsPosted, api_get_record-IsPosted}
use aardbin.Db
use aardbin.Db.{get_record}
use aardbin.Form.Fields.{page_form}
use aardbin.Views.{ApiRecord, created_json, record_json}
use aardbin.Fixtures.{clear_cipher-CipherLaws, server, store, store-IsConsistent}
use aardbin.App.{World, ok}
use aardbin.Form.Texts.{text_arrived}
use aardbin.Records.{content_length}
use aardbin.Form.{Multipart, ParsedRecordForm, Part, field, finished, parse_record_form}
use aardbin.Form.{
  parse_fields, parse_field, text_field, text_value, file_field, named_file, store_file,
  finish_file, receive,
}
use aardbin.App.{begin_upload, write_chunk, finalize_upload, db_call, send_event}
use aardbin.Render.{truncate_chars}
use aardbin.Files.{guess_mime}
use aardbin.Prelude.{as_bytes, utf8_char}
use aardbin.Records.{save_parsed, save_new, insert_uploads, inserted}
use aardbin.Crypto.{encrypt}
use aardbin.Db.{find_record, find_attachment}

abbrev peer : IpAddr
peer = codes "10.0.0.1"

abbrev with_key : Headers
with_key = (codes "authorization", visible (codes "Bearer 0123456789abcdef")) ∷ []

-- Four failures are behind, one before a success.
abbrev four : List Call
four = failed peer 4 ∷ failed peer 3 ∷ failed peer 2 ∷ succeeded peer ∷ failed peer 1 ∷ []

key_is_there : HasKey server (header_text (codes "authorization") with_key)
unfolding header_text find_header
key_is_there = record { token = codes "0123456789abcdef"; sent = refl; right = refl }

api_auth-replay_example :
    ((api_auth server peer 6 7 with_key (record store { failures = replay four })).0 ≡ none)
    × ((api_auth server peer 6 7 with_key (record store { failures = replay four })).1.failures
        ≡ replay (checked peer 6 ∷ four))
api_auth-replay_example =
    (api_auth-replay server peer 7 6 with_key four (record store { failures = replay four })
        (omega arith) refl).0
      (omega arith) key_is_there

-- A form with two texts and two fields for files, one of them empty.
abbrev no_file : Part
no_file = record (text_arrived (codes "files") []) { file_name = some []; text = none }

abbrev a_file : Part
a_file = record no_file { file_name = some (codes "p.png"); chunks = (1 ∷ 2 ∷ []) ∷ (3 ∷ []) ∷ [] }

abbrev files : Multipart
files = field no_file (field a_file finished)

abbrev with_files : ParsedRecordForm
with_files = record {
  title = codes "T";
  content = codes "body";
  uploads =
      record {
        id = 1000 ∷ [];
        original_filename = codes "p.png";
        mime_type = codes "application/octet-stream";
        size = 3;
      }
      ∷ [];
}

reads_files :
    (parse_record_form server
      (page_form (codes " T") (codes "body") files)
      (content_length [])
      store).0
    ≡ ok with_files
unfolding parse_record_form content_length header_text parse_fields parse_field text_field
    text_value as_bytes utf8_char file_field named_file store_file finish_file begin_upload receive
    write_chunk finalize_upload truncate_chars guess_mime
reads_files = refl

answers_created :
    (api_create_record server (page_form (codes " T") (codes "body") files) [] 50 store).0.status
    ≡ 201
unfolding api_create_record save_parsed save_new insert_uploads inserted db_call Db.create_record
    Db.insert_attachment find_record find_attachment find_header send_event encrypt
    parse_record_form content_length header_text parse_fields parse_field text_field text_value
    as_bytes utf8_char file_field named_file store_file finish_file begin_upload receive write_chunk
    finalize_upload truncate_chars guess_mime
answers_created = refl

api_get_record-IsPosted_example :
    (id : Text) × (get_record id store.tables ≡ none)
    × ((api_create_record server (page_form (codes " T") (codes "body") files) [] 50 store).0
        ≡ json server 201 (created_json id))
    × ((v : World)
        → v.tables
          ≡ (api_create_record server
              (page_form (codes " T") (codes "body") files)
              []
              50
              store).1.tables
        → v.faults.db ≡ []
        → (r : ApiRecord) × ((api_get_record server id v).0 ≡ json server 200 (record_json r))
          × IsPosted (codes " T") (codes "body") files id r)
api_get_record-IsPosted_example =
    api_get_record-IsPosted server 50 (codes " T") (codes "body") files [] store with_files
      clear_cipher-CipherLaws (λ i. refl) store-IsConsistent (refl, (refl, tt)) reads_files
      answers_created
