-- ===== src/Start/Tests.antt =====
-- Tests of a start, on an empty directory and on the files of a server.
use aardbin.Prelude.{
  Text, [], as_bytes, codes, false, if◌then◌else◌, inl, none, refl, some, text_eq, true, utf8_char,
  pos, ◌+◌, ◌++◌, ◌∷◌, ◌≡◌,
}
use aardbin.Config
use aardbin.Config.{Config, from_env}
use aardbin.Db
use aardbin.Fixtures.{clear_cipher, plain_digest, store, twelve}
use aardbin.Start.Volume.{Volume, call, idx_records_updated_at, records_table}
use aardbin.Start.Database.{Connection, file_or_new, known_ids, open_db, schema_v1}
use aardbin.Start.Main.{Machine, at_dir, Platform, exited, serving, start, state_of, world_of}
use aardbin.Start.Ends.{Ends}
use aardbin.Start.Stages.{IsLeft, IsReady, IsSound}
use aardbin.Start.Opening.{open_db_lem}
use aardbin.Start.Restart.{IsRestarted, left_behind, start-again}
use aardbin.Start.Outcome.{Starts, start_lem}

-- Every text decodes to no byte.
abbrev platform : Platform
platform = record {
  hex_decode = λ s. some [];
  cipher = clear_cipher;
  digest = plain_digest;
  uuid = λ i. (1000 + i) ∷ [];
  nonce = λ i. twelve;
  mime_from_path = λ name. codes "application/octet-stream";
  engine = record {
    join = λ dir name. dir ++ b'/' ∷ name;
    is_dir = λ dir. true;
    render = λ env view. some env.path;
  };
  to_json = λ value. codes "{}";
  format_ts_utc = λ ts. codes "time";
  defaults = record { foreign_keys = false; busy_timeout = 0 };
  can_bind = λ addr. true;
  later = record { db = []; create = []; write = []; finish = []; unlink = [] };
}

abbrev variables : Config.Environment
variables name =
    if text_eq name (codes "ACCESS_KEY")
    then some (codes "0123456789abcdef")
    else if text_eq name (codes "CRYPTO_KEY")
    then some (codes "0123456789abcdef0123456789abcdef0123456789abcdef0123456789abcdef")
    else none

abbrev nothing : Volume
nothing = record { data_dir = false; database = none; attachments = none; tmp = none; faults = [] }

-- No data directory has a file.
abbrev empty_machine : Machine
empty_machine dir = nothing

nothing-IsSound : (dir : Text) → IsSound (file_or_new (empty_machine dir).database)
nothing-IsSound dir = inl (0, record { declared = refl; unversioned = refl; no_rows = refl })

abbrev accepted : Config
accepted = record {
  access_key = codes "0123456789abcdef";
  crypto_key = [];
  max_attachment_bytes = 2097152;
  max_request_bytes = 8388608;
  max_content_bytes = 1048576;
  page_size = pos 20;
  session_ttl = 604800;
  cookie_secure = true;
  listen_addr = codes "0.0.0.0:8080";
  data_dir = codes "./data";
  templates_dir = codes "./templates";
  static_dir = codes "./static";
}

is_accepted : from_env platform.hex_decode variables ≡ Config.ok accepted
unfolding from_env as_bytes utf8_char Config.parse_crypto_key Config.parse_u64_env
    Config.parse_duration_env Config.parse_bool_env
is_accepted = refl

abbrev made : Volume
made = record {
  data_dir = true;
  database =
      some (record { schema = schema_v1; user_version = pos 1; wal = true; tables = Db.empty });
  attachments = some [];
  tmp = some [];
  faults = [];
}

abbrev conn : Connection
conn = record { foreign_keys = true; busy_timeout = 5000 }

starts : start platform variables empty_machine ≡ (
  serving (state_of platform accepted) (world_of platform made) conn,
  at_dir accepted.data_dir made empty_machine,
)
unfolding start from_env as_bytes utf8_char Config.parse_crypto_key Config.parse_u64_env
    Config.parse_duration_env Config.parse_bool_env call known_ids world_of state_of
starts = refl

-- The process is stopped in the ninth call, the third statement of the schema.
abbrev stopped_midway : Volume
stopped_midway = record nothing {
  faults = false ∷ false ∷ false ∷ false ∷ false ∷ false ∷ false ∷ false ∷ true ∷ [];
}

abbrev halfway : Volume
halfway = record {
  data_dir = true;
  database = some (record {
    schema = records_table ∷ idx_records_updated_at ∷ [];
    user_version = pos 0;
    wal = true;
    tables = Db.empty;
  });
  attachments = none;
  tmp = none;
  faults = [];
}

stops_midway :
    start platform variables (λ dir. stopped_midway)
    ≡ (exited 1, at_dir accepted.data_dir halfway (λ dir. stopped_midway))
unfolding start from_env as_bytes utf8_char Config.parse_crypto_key Config.parse_u64_env
    Config.parse_duration_env Config.parse_bool_env call
stops_midway = refl

-- A later start, in which nothing fails, comes no further.
never_starts :
    start platform variables (λ dir. halfway)
    ≡ (exited 1, at_dir accepted.data_dir halfway (λ dir. halfway))
unfolding start from_env as_bytes utf8_char Config.parse_crypto_key Config.parse_u64_env
    Config.parse_duration_env Config.parse_bool_env call
never_starts = refl

open_db_lem_example : Ends (IsReady halfway) (IsLeft halfway) (open_db platform.defaults halfway)
open_db_lem_example =
    open_db_lem platform.defaults halfway refl
      (inl (2, record { declared = refl; unversioned = refl; no_rows = refl }))

start_lem_example : Starts platform variables empty_machine (start platform variables empty_machine)
start_lem_example = start_lem platform variables empty_machine nothing-IsSound

start-again_example :
    IsRestarted platform platform variables
      (state_of platform accepted)
      (left_behind accepted.data_dir store [] (at_dir accepted.data_dir made empty_machine))
      store
unfolding state_of
start-again_example =
    start-again platform platform variables variables empty_machine
      (at_dir accepted.data_dir made empty_machine) (state_of platform accepted)
      (world_of platform made) store conn [] accepted nothing-IsSound starts is_accepted refl refl
      refl
