-- ===== src/Config/Tests.antt =====
-- Settings of src/config.rs at a few inputs.
use aardbin.Prelude.{
  Bytes, Option, Text, [], arith, as_bytes, codes, if◌then◌else◌, none, pos, refl, some, text_eq,
  true, utf8_char, ◌*◌, ◌++◌, ◌∷◌, ◌≡◌,
}
use aardbin.Prelude.Decimal.{parse_u64, show_u64}
use aardbin.Config.{
  Config, Environment, duration, false, from_env, ok, parse_bool_env, parse_crypto_key,
  parse_duration, parse_duration_env, parse_u64_env, split_panic,
}
use aardbin.Config.Parsing.{IsAccepted, from_env_lem, hour, parse_duration-show_u64}

parse_duration-show_u64_example : parse_duration (show_u64 12 ++ b'h' ∷ []) ≡ duration (12 * 3600)
parse_duration-show_u64_example = parse_duration-show_u64 12 hour false (omega arith) (omega arith)

-- A last character of more than one byte makes `split_at` panic.
splits_inside : parse_duration (codes "5µ") ≡ split_panic
unfolding parse_duration
splits_inside = refl

-- The number of seconds wraps.
wraps_around : parse_duration (codes "213503982334602d") ≡ duration 61184
unfolding parse_duration parse_u64
wraps_around = refl

abbrev hex_key : Text
hex_key = codes "0123456789abcdef0123456789abcdef0123456789abcdef0123456789abcdef"

-- Both keys, and a page size of zero.
abbrev variables : Environment
variables name =
    if text_eq name (codes "ACCESS_KEY")
    then some (codes "0123456789abcdef")
    else if text_eq name (codes "CRYPTO_KEY")
    then some hex_key
    else if text_eq name (codes "PAGE_SIZE")
    then some (codes "0")
    else none

-- A stand-in for the `hex` crate.
abbrev no_bytes : Text → Option Bytes
no_bytes s = some []

abbrev accepted : Config
accepted = record {
  access_key = codes "0123456789abcdef";
  crypto_key = [];
  max_attachment_bytes = 2097152;
  max_request_bytes = 8388608;
  max_content_bytes = 1048576;
  page_size = pos 0;
  session_ttl = 604800;
  cookie_secure = true;
  listen_addr = codes "0.0.0.0:8080";
  data_dir = codes "./data";
  templates_dir = codes "./templates";
  static_dir = codes "./static";
}

accepts_zero : from_env no_bytes variables ≡ ok accepted
unfolding from_env parse_crypto_key parse_u64_env parse_duration_env parse_bool_env parse_u64
    as_bytes utf8_char
accepts_zero = refl

from_env_lem_example : IsAccepted no_bytes variables accepted
from_env_lem_example = from_env_lem no_bytes variables accepted accepts_zero
