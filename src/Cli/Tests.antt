-- ===== src/Cli/Tests.antt =====
-- The client of src/cli/src/main.rs against a small server, and the theorems at it.
use aardbin.Prelude.{
  ◌⊎◌, Bool, Bytes, Option, Text, [], arith, as_bytes, codes, false, if◌then◌else◌, inl, inr, none,
  refl, some, text_eq, true, utf8_char, ℕ, ◌++◌, ◌-◌, ◌==◌, ◌∷◌, ◌≡◌, ◌≢◌, ◌≤◌,
}
use aardbin.Http.{Method, find_header, header_text, visible}
use aardbin.Cli.Host.{
  ApiListResponse, ApiRecord, ConfigFile, Host, HttpRequest, HttpResponse, Payload, Process, done,
  empty, eprint, exchange, failed, fuel_spent, message, multipart, sleep, write_stdout,
}
use aardbin.Cli.Settings.{Cmd, resolve_key}
use aardbin.Cli.Client.{Client, client_of, send_with_retry}
use aardbin.Cli.Commands.{cmd_get, cmd_paste, command}
use aardbin.Cli.Retry.{IsSent, send_with_retry-IsSent}
use aardbin.Cli.Requests.{Does}
use aardbin.Cli.Makes.{IsStreamed}
use aardbin.Cli.Asks.{Allowed, command-Does}
use aardbin.Cli.Output.{IsSilent}
use aardbin.Cli.Silence.{IsCutShort, command-IsSilent}
use aardbin.Cli.Wire.{IsName, IsUnlocked, create_arrival, get_arrival}
use aardbin.Cli.Sample.{direct, direct-Link, holder, laptop, site}
use aardbin.Cli.Printed.{line}
use aardbin.Cli.Trip.{paste-get, shown}
use aardbin.Fixtures.{clear_cipher-CipherLaws, store}
use aardbin.Db
use aardbin.Router.{dispatch}
use aardbin.Router.Table.{app, extract}
use aardbin.Guard.{origin_guard}
use aardbin.Api.{api_create_record, with_auth}
use aardbin.Ratelimit.{check, drain_old, entry, verdict}
use aardbin.Records.{content_length, insert_uploads, inserted, save_new, save_parsed}
use aardbin.Form.{parse_field, parse_fields, parse_record_form, text_field, text_value}
use aardbin.Render.{truncate_chars}
use aardbin.Crypto.{encrypt}
use aardbin.Cli.Codec.{get_nat, read_text}
use aardbin.Db.{find_record}
use aardbin.App.{World, db_call, send_event}
use aardbin.Cli.Keys.{resolve_lem}
use aardbin.Prelude.Decimal.{parse_u64, show_u64}
use aardbin.Form.Texts.{Fits}

-- It answers 429 as often as its state says, with two seconds to wait, and then 404.
abbrev busy : HttpRequest → ℕ → Option HttpResponse × ℕ
busy req n = (
  some (record {
    status = if n == 0 then 404 else 429;
    headers = (codes "retry-after", visible (codes "2")) ∷ [];
    body = some [];
  }),
  n - 1,
)

abbrev streamed : HttpRequest → Bool
streamed req = elim req.payload [ empty ↦ true | multipart parts ↦ false ]

abbrev no_list : Bytes → Option ApiListResponse
no_list bytes = none

abbrev no_record : Bytes → Option ApiRecord
no_record bytes = none

abbrev no_config : Text → Option ConfigFile
no_config s = none

abbrev desk : Host ℕ
desk = record {
  env_var = λ name. if text_eq name (codes "ACCESS_KEY") then some (codes "k") else none;
  read_file = λ path. none;
  can_create = λ path. false;
  write_stops = λ path. none;
  read_text = λ path. none;
  parse_config = no_config;
  stdin_text = none;
  stdin_line = none;
  is_tty = false;
  stdout_stops = λ bytes. none;
  header_ok = λ s. true;
  url_ok = λ s. true;
  try_clone = streamed;
  client_ok = true;
  execute = busy;
  show_status = show_u64;
  read_created = λ bytes. none;
  read_error = λ bytes. none;
  read_record = no_record;
  read_list = no_list;
}

abbrev fresh : ℕ → Process ℕ
fresh n = record { server = n; sent = []; stdout = []; stderr = []; slept = 0; written = [] }

abbrev user : Client
user = client_of (codes "http://h/") (codes "k")

abbrev bare : HttpRequest
bare = record {
  method = Method.get;
  url = codes "http://h/x";
  headers = [];
  payload = Payload.empty;
}

-- Two refusals: three requests, and waits of two and of four seconds.
two_refusals :
    ((send_with_retry desk user bare (fresh 2)).1.slept ≡ 6)
    × ((send_with_retry desk user bare (fresh 2)).1.server ≡ 0)
unfolding send_with_retry exchange eprint sleep find_header header_text parse_u64
two_refusals = (refl, refl)

send_with_retry-IsSent_example :
    IsSent desk user bare 0 (fresh 9) (send_with_retry desk user bare (fresh 9))
    × ((send_with_retry desk user bare (fresh 9)).1.slept ≤ 180)
send_with_retry-IsSent_example = (send_with_retry-IsSent desk user bare (fresh 9)).0 refl

desk-IsStreamed : IsStreamed desk
desk-IsStreamed req parts h = rw h refl

command-Does_example :
    Does desk
      (Allowed desk user (Cmd.delete (codes "r1")))
      1
      (fresh 9)
      (command desk user (Cmd.delete (codes "r1")) (fresh 9)).1
    × ((command desk user (Cmd.delete (codes "r1")) (fresh 9)).0 ≢ failed fuel_spent)
command-Does_example = command-Does desk desk-IsStreamed user (Cmd.delete (codes "r1")) (fresh 9)

-- The server sends no error of its own.
gone :
    (command desk user (Cmd.download (codes "a1") none) (fresh 0)).0
    ≡ failed (message (codes "attachment not found"))
unfolding command exchange
gone = refl

command-IsSilent_example :
    IsSilent (fresh 0) (command desk user (Cmd.download (codes "a1") none) (fresh 0)).1
    ⊎ IsCutShort desk user
        (Cmd.download (codes "a1") none)
        (fresh 0)
        (command desk user (Cmd.download (codes "a1") none) (fresh 0)).1
command-IsSilent_example =
    command-IsSilent desk user (Cmd.download (codes "a1") none) (fresh 0)
      (message (codes "attachment not found")) gone

resolve_lem_example : resolve_key desk none (fresh 0) ≡ (done (codes "k"), fresh 0)
resolve_lem_example = (resolve_lem desk none (fresh 0)).0 (codes "k") refl

-- `paste` on a server with a small store.
abbrev sitting : Process World
sitting = record { server = store; sent = []; stdout = []; stderr = []; slept = 0; written = [] }

pasted_ends :
    (cmd_paste laptop holder (some (codes "T")) (some (codes "body")) [] sitting).0 ≡ done tt
unfolding cmd_paste exchange app origin_guard find_header dispatch with_auth check verdict drain_old
    entry header_text as_bytes utf8_char extract api_create_record save_parsed parse_record_form
    parse_fields parse_field text_field text_value truncate_chars save_new db_call Db.create_record
    find_record encrypt insert_uploads inserted send_event read_text get_nat content_length
    write_stdout
pasted_ends = refl

named : IsName (codes "n")
named = (inr (inl (omega arith, omega arith)), tt)

small :
    Fits site
      (codes "T")
      (codes "body")
      (content_length (create_arrival direct holder (codes "T") (codes "body")).headers)
unfolding content_length find_header header_text as_bytes utf8_char
small = record { whole = omega arith; text = omega arith; announced = λ n h. ground (arith, h) }

paste-get_example :
    (id : Text) × ((cmd_paste laptop holder
        (some (codes "T"))
        (some (codes "body"))
        []
        sitting).1.stdout
      ≡ line id)
    × ((q : Process World)
        → q.server.tables
          ≡ (cmd_paste laptop holder
              (some (codes "T"))
              (some (codes "body"))
              []
              sitting).1.server.tables
        → q.server.faults.db ≡ []
        → IsUnlocked (get_arrival direct holder id) q.server
        → ((cmd_get laptop holder id q).0 ≡ done tt)
          × ((cmd_get laptop holder id q).1.stdout
              ≡ q.stdout ++ shown site direct holder (codes "T") (codes "body") id q.server))
unfolding header_text find_header check verdict drain_old entry
paste-get_example =
    paste-get site laptop direct holder (codes "T") (codes "body") sitting direct-Link refl
      clear_cipher-CipherLaws (λ i. refl) (λ i. named) small refl pasted_ends
