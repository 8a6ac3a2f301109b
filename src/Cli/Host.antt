-- ===== src/Cli/Host.antt =====
-- What src/cli/src/main.rs takes from the system and from other crates, and its effects. The crates
-- are `reqwest`, `serde_json` and `toml`, and the server is whatever answers the requests.
use aardbin.Prelude.{
  Bool, Bytes, List, Option, Text, [], as_bytes, if◌then◌else◌, none, some, take, ℕ, ℤ, ◌++◌, ◌+◌,
  ◌∷◌,
}
use aardbin.Http.{Headers, Method}

-- A part of a multipart form: a name and a text, or a name, a file name and the bytes of a file.
pub data Part : Type 0 where
  text : Text → Text → Part
  file : Text → Text → Bytes → Part

pub data Payload : Type 0 where
  empty : Payload
  multipart : List Part → Payload

pub record HttpRequest : Type 0 where
  pub method : Method
  pub url : Text
  pub headers : Headers
  pub payload : Payload

-- The body is `none` where the connection breaks before its end.
pub record HttpResponse : Type 0 where
  pub status : ℕ
  pub headers : Headers
  pub body : Option Bytes

-- What the API answers, as the client declares it.
pub record ApiRecordSummary : Type 0 where
  pub id : Text
  pub title : Text
  pub untitled : Bool
  pub snippet : Text
  pub updated_at : ℤ
  pub attachment_count : ℕ

pub record ApiListResponse : Type 0 where
  pub records : List ApiRecordSummary
  pub page : ℤ
  pub total_pages : ℤ
  pub total : ℤ

pub record ApiAttachmentMeta : Type 0 where
  pub id : Text
  pub original_filename : Text
  pub size_bytes : ℤ

pub record ApiRecord : Type 0 where
  pub id : Text
  pub title : Text
  pub content : Text
  pub untitled : Bool
  pub updated_at : ℤ
  pub attachments : List ApiAttachmentMeta

pub record ServerConfig : Type 0 where
  pub url : Option Text
  pub access_key : Option Text

pub record ConfigFile : Type 0 where
  pub server : Option ServerConfig

-- `S` is the state of the server, and of all else that answers a request.
pub record Host (S : Type 0) : Type 0 where
  -- `env::var`, the files that can be read, and those that can be created or emptied
  pub env_var : Text → Option Text
  pub read_file : Text → Option Bytes
  pub can_create : Text → Bool
  -- `some n`: the writing of the file fails behind its first `n` bytes
  pub write_stops : Text → Option ℕ
  -- `read_to_string` of a file; the parser of the configuration
  pub read_text : Text → Option Text
  pub parse_config : Text → Option ConfigFile
  -- `read_to_string` and `read_line` of the standard input, which may be a terminal
  pub stdin_text : Option Text
  pub stdin_line : Option Text
  pub is_tty : Bool
  -- `some n`: `write_all` to the standard output fails behind the first `n` bytes; the lines of
  -- `println!` are taken to be printed, since it panics where they are not
  pub stdout_stops : Bytes → Option ℕ
  -- `HeaderValue::from_str`, `Url::parse`, `Request::try_clone`, the building of the client
  pub header_ok : Text → Bool
  pub url_ok : Text → Bool
  pub try_clone : HttpRequest → Bool
  pub client_ok : Bool
  -- one exchange, `none` where it fails on the way
  pub execute : HttpRequest → S → Option HttpResponse × S
  -- `Display` of a `StatusCode`; the deserializer at each of the types
  pub show_status : ℕ → Text
  pub read_created : Bytes → Option Text
  pub read_error : Bytes → Option Text
  pub read_record : Bytes → Option ApiRecord
  pub read_list : Bytes → Option ApiListResponse

-- What the client has done so far.
pub record Process (S : Type 0) : Type 0 where
  pub server : S
  -- the requests, the last one first
  pub sent : List HttpRequest
  pub stdout : Bytes
  pub stderr : Text
  -- the seconds of sleep
  pub slept : ℕ
  -- the files written, whole or in part, the last one first
  pub written : List (Text × Bytes)

-- An error of the program's own has a message. `fuel_spent` is no behaviour of the program: it is
-- the end of a bound on its loop.
pub data Failure : Type 0 where
  message : Text → Failure
  transport bad_body io bad_url bad_client fuel_spent : Failure

pub data Outcome {ℓ} (A : Type ℓ) : Type ℓ where
  done : A → Outcome A
  failed : Failure → Outcome A

abbrev pub Action : Type 0 → Type 0 → Type 0
Action S A = Process S → Outcome A × Process S

module _ {S : Type 0} where
  abbrev pub pure : {A : Type 0} → A → Action S A
  pure a p = (done a, p)

  abbrev pub fail : {A : Type 0} → Failure → Action S A
  fail why p = (failed why, p)

  -- `?`
  abbrev pub continue :
      {A B : Type 0} → Outcome A × Process S → (A → Action S B) → Outcome B × Process S
  continue (done a, p) f = f a p
  continue (failed why, p) f = (failed why, p)

  infixl 5 ◌>>=◌ ◌>>◌
  abbrev pub ◌>>=◌ : {A B : Type 0} → Action S A → (A → Action S B) → Action S B
  ◌>>=◌ m f p = continue (m p) f

  abbrev pub ◌>>◌ : {A B : Type 0} → Action S A → Action S B → Action S B
  m >> k = m >>= λ _. k

  -- an `Option` as a result
  abbrev pub or_fail : {A : Type 0} → Failure → Option A → Action S A
  or_fail why none = fail why
  or_fail why (some a) = pure a

  unfoldable pub write_stdout : Bytes → Action S (Unit {0})
  write_stdout bytes p = (done tt, record p { stdout = p.stdout ++ bytes })

  abbrev pub println : Text → Action S (Unit {0})
  println line = write_stdout (as_bytes (line ++ b'\n' ∷ []))

  unfoldable pub eprint : Text → Action S (Unit {0})
  eprint line p = (done tt, record p { stderr = p.stderr ++ line })

  abbrev pub eprintln : Text → Action S (Unit {0})
  eprintln line = eprint (line ++ b'\n' ∷ [])

  unfoldable pub sleep : ℕ → Action S (Unit {0})
  sleep seconds p = (done tt, record p { slept = p.slept + seconds })

  -- `fs::write`: where it fails it may leave the beginning of the bytes.
  unfoldable pub write_file : Host S → Text → Bytes → Action S (Unit {0})
  write_file h path bytes p =
      if h.can_create path
      then elim (h.write_stops path) [
        | none ↦ (done tt, record p { written = (path, bytes) ∷ p.written })
        | some n ↦ (failed io, record p { written = (path, take n bytes) ∷ p.written })
      ]
      else (failed io, p)

  -- `write_all` to the standard output
  unfoldable pub write_all : Host S → Bytes → Action S (Unit {0})
  write_all h bytes p = elim (h.stdout_stops bytes) [
    | none ↦ (done tt, record p { stdout = p.stdout ++ bytes })
    | some n ↦ (failed io, record p { stdout = p.stdout ++ take n bytes })
  ]

  -- `Client::execute`
  unfoldable pub exchange : Host S → HttpRequest → Action S HttpResponse
  exchange h req p =
      let answered = h.execute req p.server in
      let p' : Process S = record p { server = answered.1; sent = req ∷ p.sent } in
      elim answered.0 [ none ↦ (failed transport, p') | some resp ↦ (done resp, p') ]
