-- ===== src/Fixtures.antt =====
-- A concrete server for the tests: stand-ins for the crates behind src/lib.rs, and a small store.
use aardbin.Prelude.{
  Bytes, List, Option, Text, [], arith, codes, drop, false, length, none, pos, refl, some, take,
  true, ◌++◌, ◌+◌, ◌∷◌,
}
use aardbin.Config.{Config}
use aardbin.Crypto.{Cipher}
use aardbin.Crypto.Laws.{CipherLaws, drop-append, take-append}
use aardbin.Session.{Digest}
use aardbin.App.{Env, World}
use aardbin.Form.{Multipart, ParsedRecordForm, Part, field, finished}
use aardbin.Form.States.{IsFresh}
use aardbin.Db.{RecordRow, AttachmentRow, find_record, find_attachment}
use aardbin.Db.Integrity.{IsConsistent}
use aardbin.Prelude.Dict.{find}

-- The code is the message with a letter in front.
abbrev pub plain_digest : Digest
plain_digest = record {
  sha256 = λ b. b;
  hmac_sha256 = λ key message. b'a' ∷ message;
  hex_encode = λ b. b;
}

-- The tag, sixteen zeros, stands in front of the message, and the fields are counted.
abbrev zero_tag : Bytes
zero_tag = 0 ∷ 0 ∷ 0 ∷ 0 ∷ 0 ∷ 0 ∷ 0 ∷ 0 ∷ 0 ∷ 0 ∷ 0 ∷ 0 ∷ 0 ∷ 0 ∷ 0 ∷ 0 ∷ []

abbrev counted_fields : Bytes → Option (Text × Text)
counted_fields [] = none
counted_fields (n ∷ s) = some (take n s, drop n s)

abbrev pub clear_cipher : Cipher
clear_cipher = record {
  seal = λ key nonce extra message. zero_tag ++ message;
  unseal = λ key nonce extra sealed. some (drop 16 sealed);
  to_json = λ title content. length title ∷ (title ++ content);
  from_json = counted_fields;
}

pub clear_cipher-CipherLaws : CipherLaws clear_cipher
clear_cipher-CipherLaws = record {
  opens = λ key nonce extra message. refl;
  tagged = λ key nonce extra message. omega arith;
  reads = λ title content. rw (take-append title content, drop-append title content);
}

abbrev pub settings : Config
settings = record {
  access_key = codes "0123456789abcdef";
  crypto_key = [];
  max_attachment_bytes = 10;
  max_request_bytes = 40;
  max_content_bytes = 20;
  page_size = pos 1;
  session_ttl = 3600;
  cookie_secure = true;
  listen_addr = codes "0.0.0.0:8080";
  data_dir = codes "./data";
  templates_dir = codes "./templates";
  static_dir = codes "./static";
}

abbrev pub twelve : Bytes
twelve = 1 ∷ 2 ∷ 3 ∷ 4 ∷ 5 ∷ 6 ∷ 7 ∷ 8 ∷ 9 ∷ 10 ∷ 11 ∷ 12 ∷ []

-- The names that are drawn are one character long.
abbrev pub server : Env
server = record {
  cfg = settings;
  cipher = clear_cipher;
  digest = plain_digest;
  sessions = record { key = 1 ∷ []; ttl = 3600; cookie_secure = true };
  uuid = λ i. (1000 + i) ∷ [];
  nonce = λ i. twelve;
  mime_from_path = λ name. codes "application/octet-stream";
  render = λ lang view. some (codes "page");
  to_json = λ value. codes "{}";
  format_ts_utc = λ ts. codes "time";
}

abbrev pub note : RecordRow
note = record {
  id = codes "r1";
  blob = twelve ++ (zero_tag ++ (1 ∷ codes "tbody"));
  created_at = 10;
  updated_at = 20;
}

abbrev pub older : RecordRow
older = record { id = codes "r2"; blob = 2 ∷ []; created_at = 5; updated_at = 6 }

abbrev pub picture : AttachmentRow
picture = record {
  id = codes "a1";
  record_id = codes "r1";
  original_filename = codes "p.png";
  size_bytes = 3;
  mime_type = codes "image/png";
  created_at = 10;
}

abbrev pub store : World
store = record {
  tables = record { records = note ∷ older ∷ []; attachments = picture ∷ [] };
  disk = record { tmp = []; stored = (codes "a1", 7 ∷ 8 ∷ 9 ∷ []) ∷ [] };
  failures = [];
  sent = 0;
  drawn = 0;
  faults = record { db = []; create = []; write = []; finish = []; unlink = [] };
}

pub store-IsConsistent : IsConsistent store.tables
unfolding find_record find_attachment
store-IsConsistent = record {
  records_unique = (refl, (refl, tt));
  attachments_unique = (refl, tt);
  linked = (refl, tt);
}

pub store-IsFresh : IsFresh server store
unfolding find
store-IsFresh = record { not_tmp = λ i h. refl; not_stored = λ i h. ground (arith, h) }

-- A form with a title, a content and one file of three bytes in two chunks.
abbrev text_part : Text → Text → Part
text_part name text = record {
  name = some name;
  file_name = none;
  content_type = none;
  text = some text;
  chunks = [];
  broken = false;
}

abbrev pub file_part : List Bytes → Part
file_part chunks = record {
  name = some (codes "files");
  file_name = some (codes "f.bin");
  content_type = none;
  text = none;
  chunks = chunks;
  broken = false;
}

abbrev pub small_form : Multipart
small_form = field (text_part (codes "title") (codes "T")) (
    field (text_part (codes "content") (codes "body"))
      (field (file_part ((1 ∷ 2 ∷ []) ∷ (3 ∷ []) ∷ [])) finished))

-- The second file is larger than a file may be.
abbrev pub large_form : Multipart
large_form =
    field (file_part ((1 ∷ 2 ∷ []) ∷ [])) (
      field (file_part ((1 ∷ 2 ∷ 3 ∷ 4 ∷ 5 ∷ 6 ∷ []) ∷ (1 ∷ 2 ∷ 3 ∷ 4 ∷ 5 ∷ 6 ∷ []) ∷ [])) finished)

-- What the first form is read as.
abbrev pub small_parsed : ParsedRecordForm
small_parsed = record {
  title = codes "T";
  content = codes "body";
  uploads =
      record {
        id = 1000 ∷ [];
        original_filename = codes "f.bin";
        mime_type = codes "application/octet-stream";
        size = 3;
      }
      ∷ [];
}
