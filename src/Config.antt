-- ===== src/Config.antt =====
-- src/config.rs: the settings and the parsing of their environment variables.
pub mod Parsing
mod Tests
use aardbin.Prelude.{
  Bool, Bytes, Option, Text, [], as_bytes, codes, false, if◌then◌else◌, leb, length, ltb, none, not,
  one_of, some, to_ascii_lowercase, trim, true, ℕ, ℤ, as_i64, ◌%◌, ◌*◌, ◌++◌, ◌==◌, ◌||◌, ◌∷◌,
}
use aardbin.Prelude.Decimal.{parse_u64, u64_mod}

abbrev pub max_attachments_per_record : ℕ
max_attachments_per_record = 20

-- Paths and the address are texts; the lifetime is in seconds.
pub record Config : Type 0 where
  pub access_key : Text
  pub crypto_key : Bytes
  pub max_attachment_bytes : ℕ
  pub max_request_bytes : ℕ
  pub max_content_bytes : ℕ
  pub page_size : ℤ
  pub session_ttl : ℕ
  pub cookie_secure : Bool
  pub listen_addr : Text
  pub data_dir : Text
  pub templates_dir : Text
  pub static_dir : Text

pub data ConfigError : Type 0 where
  missing : Text → ConfigError
  invalid : Text → ConfigError

-- `panic` is a Rust panic: the process ends.
pub data Result {ℓ} (A : Type ℓ) : Type ℓ where
  ok : A → Result A
  err : ConfigError → Result A
  panic : Result A

infixl 5 ◌>>=◌
abbrev pub ◌>>=◌ {ℓ κ} : {A : Type ℓ} {B : Type κ} → Result A → (A → Result B) → Result B
ok a >>= f = f a
err e >>= f = err e
panic >>= f = panic

-- `env::var`: `none` where the variable is not set
abbrev pub Environment : Type 0
Environment = Text → Option Text

-- `hex::decode` is the `hex` crate's.
module _ (hex_decode : Text → Option Bytes) where
  unfoldable pub parse_crypto_key : Text → Result Bytes
  parse_crypto_key s =
      if length (as_bytes (trim s)) == 64
      then (elim (hex_decode (trim s)) [
        | none ↦ err (invalid (codes "CRYPTO_KEY is not valid hex"))
        | some bytes ↦ ok bytes
      ])
      else err (invalid (codes "CRYPTO_KEY must be 64 hex characters (32 bytes)"))

unfoldable pub parse_u64_env : Environment → Text → ℕ → Result ℕ
parse_u64_env env name default = elim (env name) [
  | none ↦ ok default
  | some v ↦ elim (parse_u64 (trim v)) [
    | none ↦ err (invalid (name ++ codes " must be a positive integer"))
    | some n ↦ ok n
  ]
]

unfoldable pub parse_bool_env : Environment → Text → Bool → Result Bool
parse_bool_env env name default = elim (env name) [
  | none ↦ ok default
  | some v ↦
      let word = to_ascii_lowercase (trim v) in
      if one_of word (codes "true" ∷ codes "1" ∷ codes "yes" ∷ [])
      then ok true
      else if one_of word (codes "false" ∷ codes "0" ∷ codes "no" ∷ [])
      then ok false
      else err (invalid (name ++ codes " must be true/false"))
]

-- The last character and what stands before it.
abbrev pub split_last : ℕ → Text → Text × ℕ
split_last c [] = ([], c)
split_last c (d ∷ s) = let rest = split_last d s in (c ∷ rest.0, rest.1)

-- the seconds of a unit letter
abbrev pub multiplier : ℕ → Option ℕ
multiplier c =
    if c == b'd' || c == b'D'
    then some 86400
    else if c == b'h' || c == b'H'
    then some 3600
    else if c == b'm' || c == b'M'
    then some 60
    else if c == b's' || c == b'S'
    then some 1
    else none

-- `Option<Duration>`, or the panic of `split_at`
pub data Parsed : Type 0 where
  duration : ℕ → Parsed
  unreadable : Parsed
  split_panic : Parsed

abbrev pub seconds : Option ℕ → Parsed
seconds none = unreadable
seconds (some n) = duration n

-- The product of two `u64`, which wraps in a release build.
abbrev pub scaled : ℕ → Option ℕ → Parsed
scaled k none = unreadable
scaled k (some n) = duration (n * k % u64_mod)

-- `s.split_at(s.len() - 1)` cuts one byte off: it panics where the last character has more.
duration_of : Text → Text × ℕ → Parsed
duration_of s (num, unit) =
    if leb 0x80 unit
    then split_panic
    else elim (multiplier unit) [ none ↦ seconds (parse_u64 s) | some k ↦ scaled k (parse_u64 num) ]

parse_trimmed : Text → Parsed
unfolding duration_of
parse_trimmed [] = unreadable
parse_trimmed (c ∷ s) = duration_of (c ∷ s) (split_last c s)

unfoldable pub parse_duration : Text → Parsed
unfolding parse_trimmed
parse_duration s = parse_trimmed (trim s)

unfoldable pub parse_duration_env : Environment → Text → ℕ → Result ℕ
parse_duration_env env name default = elim (env name) [
  | none ↦ ok default
  | some v ↦ elim (parse_duration v) [
    | duration n ↦ ok n
    | unreadable ↦ err (invalid (name ++ codes " must be like 7d/12h/30m/seconds"))
    | split_panic ↦ panic
  ]
]

abbrev pub required : Environment → Text → Result Text
required env name = elim (env name) [ none ↦ err (missing name) | some v ↦ ok v ]

abbrev pub defaulted : Environment → Text → Text → Text
defaulted env name default = elim (env name) [ none ↦ default | some v ↦ v ]

abbrev pub long_key : Text → Result Text
long_key key =
    if ltb (length (as_bytes key)) 16
    then err (invalid (codes "ACCESS_KEY must be at least 16 characters"))
    else ok key

unfoldable pub from_env : (Text → Option Bytes) → Environment → Result Config
from_env hex_decode env = do
  given ← required env (codes "ACCESS_KEY")
  access_key ← long_key given
  hex ← required env (codes "CRYPTO_KEY")
  crypto_key ← parse_crypto_key hex_decode hex
  max_attachment_bytes ← parse_u64_env env (codes "MAX_ATTACHMENT_BYTES") (2 * 1024 * 1024)
  max_request_bytes ← parse_u64_env env (codes "MAX_REQUEST_BYTES") (8 * 1024 * 1024)
  max_content_bytes ← parse_u64_env env (codes "MAX_CONTENT_BYTES") (1024 * 1024)
  page_size ← parse_u64_env env (codes "PAGE_SIZE") 20
  session_ttl ← parse_duration_env env (codes "SESSION_TTL") (7 * 24 * 3600)
  cookie_secure ← parse_bool_env env (codes "COOKIE_SECURE") true
  ok (record {
    access_key = access_key;
    crypto_key = crypto_key;
    max_attachment_bytes = max_attachment_bytes;
    max_request_bytes = max_request_bytes;
    max_content_bytes = max_content_bytes;
    page_size = as_i64 page_size;
    session_ttl = session_ttl;
    cookie_secure = cookie_secure;
    listen_addr = defaulted env (codes "LISTEN_ADDR") (codes "0.0.0.0:8080");
    data_dir = defaulted env (codes "DATA_DIR") (codes "./data");
    templates_dir = defaulted env (codes "TEMPLATES_DIR") (codes "./templates");
    static_dir = defaulted env (codes "STATIC_DIR") (codes "./static");
  })
