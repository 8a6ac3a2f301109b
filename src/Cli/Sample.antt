-- ===== src/Cli/Sample.antt =====
-- A client and a server for the tests of src/cli/src/main.rs, with a wire between them.
use aardbin.Prelude.{
  All, Bool, Bytes, List, Option, Text, [], ap, arith, as_bytes, codes, drop, false, none, refl,
  some, split, true, ℕ, ◌∷◌, ◌≡◌,
}
use aardbin.Http.{HeaderValue, Headers, Response, find_header, header_text, to_str}
use aardbin.App.{Env, World}
use aardbin.Form
use aardbin.Form.{Multipart, field, finished}
use aardbin.Form.Texts.{text_arrived}
use aardbin.Router.Table.{app}
use aardbin.Fixtures.{server}
use aardbin.Cli.Host.{
  ApiListResponse, ConfigFile, Host, HttpRequest, Part, Payload, empty, file, multipart, text,
}
use aardbin.Cli.Client.{Client, client_of}
use aardbin.Cli.Codec.{read_record, read_record-to_text, read_text, read_text-to_text, to_text}
use aardbin.Cli.Wire.{IsName, IsNameChar, Link, Wire}

abbrev pub site : Env
site = record server { uuid = λ i. codes "n"; to_json = to_text }

abbrev part_arrived : Part → Form.Part
part_arrived (text name value) = text_arrived name value
part_arrived (file name file_name bytes) = record (text_arrived name []) {
  file_name = some file_name;
  text = none;
  chunks = bytes ∷ [];
}

abbrev parts_arrived : List Part → Multipart
parts_arrived [] = finished
parts_arrived (part ∷ parts) = field (part_arrived part) (parts_arrived parts)

abbrev form_arrived : Payload → Option Multipart
form_arrived empty = none
form_arrived (multipart parts) = some (parts_arrived parts)

abbrev headers_arrived : Option HeaderValue → Headers
headers_arrived none = []
headers_arrived (some v) = (codes "authorization", v) ∷ []

abbrev plain : ℕ → Response
plain status = record { status = status; headers = []; body = [] }

abbrev pub direct : Wire
direct = record {
  arrive = λ req. record {
    method = req.method;
    path = drop 1 (split b'/' req.url);
    headers = headers_arrived (find_header (codes "authorization") req.headers);
    peer = codes "10.0.0.9";
    checked_at = 1;
    failed_at = 2;
    now = 3;
    decode = some;
    error_query = some none;
    page_query = some none;
    list_query = some (none, none);
    inline_query = some none;
    login_form = none;
    lang_form = none;
    multipart = form_arrived req.payload;
    rejection = plain 400;
    not_found = plain 404;
    not_allowed = plain 405;
    static_file = plain 200;
    during = λ w. w;
  };
  reply = λ resp. record { status = resp.status; headers = []; body = some (as_bytes resp.body) };
}

abbrev streamed : HttpRequest → Bool
streamed req = elim req.payload [ empty ↦ true | multipart parts ↦ false ]

abbrev no_config : Text → Option ConfigFile
no_config s = none

abbrev no_list : Bytes → Option ApiListResponse
no_list bytes = none

abbrev pub laptop : Host World
laptop = record {
  env_var = λ name. none;
  read_file = λ path. none;
  can_create = λ path. true;
  write_stops = λ path. none;
  read_text = λ path. none;
  parse_config = no_config;
  stdin_text = none;
  stdin_line = none;
  is_tty = false;
  stdout_stops = λ bytes. none;
  header_ok = λ s. true;
  url_ok = λ s. true;
  try_clone = streamed;
  client_ok = true;
  execute = λ req w. let r = app site (direct.arrive req) w in (some (direct.reply r.0), r.1);
  show_status = λ n. [];
  read_created = read_text;
  read_error = read_text;
  read_record = read_record;
  read_list = no_list;
}

abbrev pub holder : Client
holder = client_of [] site.cfg.access_key

split_name : (s : Text) → All IsNameChar s → split b'/' s ≡ s ∷ []
split_name [] h = refl
split_name (c ∷ s) (name, h) = ground (arith, split_name s h)

split_lem : (id : Text) → IsName id → split b'/' id ≡ id ∷ []
split_lem [] h = absurd h
split_lem (c ∷ s) h = split_name (c ∷ s) h

authorization_kept :
    (o : Option HeaderValue) → find_header (codes "authorization") (headers_arrived o) ≡ o
unfolding find_header
authorization_kept none = refl
authorization_kept (some v) = refl

site_left :
    (o : Option HeaderValue) → find_header (codes "sec-fetch-site") (headers_arrived o) ≡ none
unfolding find_header
site_left none = refl
site_left (some v) = refl

origin_left : (o : Option HeaderValue) → find_header (codes "origin") (headers_arrived o) ≡ none
unfolding find_header
origin_left none = refl
origin_left (some v) = refl

pub direct-Link : Link site laptop direct holder
unfolding header_text
direct-Link = record {
  served = λ req w. refl;
  status = λ resp. refl;
  body = λ resp. refl;
  method = λ req. refl;
  authorization =
      λ req. ap to_str (authorization_kept (find_header (codes "authorization") req.headers));
  no_site = λ req. site_left (find_header (codes "authorization") req.headers);
  no_origin = λ req. origin_left (find_header (codes "authorization") req.headers);
  create_path = λ parts. refl;
  create_form = λ title content. refl;
  record_path =
      λ id name. (ap (λ ps. codes "api" ∷ codes "records" ∷ ps) (split_lem id name), refl);
  urls = λ url. refl;
  streamed = λ req parts h. rw h refl;
  created = read_text-to_text;
  read = read_record-to_text;
}
