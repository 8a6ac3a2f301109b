-- ===== src/Cli/Settings.antt =====
-- The command line of src/cli/src/main.rs, whose parser is `clap`'s, and where the address of the
-- server and the access key come from.
use aardbin.Prelude.{
  Bool, false, ◌==◌, List, Option, Text, [], codes, if◌then◌else◌, none, some, trim, ℤ, ◌++◌, ◌∷◌,
}
use aardbin.Cli.Host.{
  Action, ConfigFile, Failure, Host, ServerConfig, eprint, fail, io, message, or_fail, pure, ◌>>=◌,
  ◌>>◌,
}

pub data Cmd : Type 0 where
  paste : (title content : Option Text) (files : List Text) → Cmd
  list : (page : ℤ) (page_size : Option ℤ) → Cmd
  get : (id : Text) → Cmd
  delete : (id : Text) → Cmd
  upload : (record_id file : Text) → Cmd
  download : (id : Text) (output : Option Text) → Cmd

pub record Cli : Type 0 where
  pub cmd : Cmd
  pub url : Option Text
  pub key : Option Text

-- the first of two that is there
abbrev pub or_else {ℓ} : {A : Type ℓ} → Option A → Option A → Option A
or_else (some a) later = some a
or_else none later = later

abbrev pub and_then {ℓ κ} : {A : Type ℓ} {B : Type κ} → Option A → (A → Option B) → Option B
and_then none f = none
and_then (some a) f = f a

-- whether a path ends with a slash
abbrev pub ends_open : Text → Bool
ends_open [] = false
ends_open (c ∷ []) = c == b'/'
ends_open (c ∷ d ∷ s) = ends_open (d ∷ s)

-- `PathBuf::join` with a relative path
abbrev pub join : Text → Text → Text
join [] path = path
join (c ∷ s) path = if ends_open (c ∷ s) then c ∷ s ++ path else c ∷ s ++ (b'/' ∷ path)

unfoldable pub no_key : Failure
no_key = message (codes "No access key found. Set AARDBIN_ACCESS_KEY or use --key.")

-- `is_empty` on the trimmed line
unfoldable pub typed_key : {S : Type 0} → Text → Action S Text
typed_key [] = fail no_key
typed_key (c ∷ s) = pure (c ∷ s)

module _ {S : Type 0} (h : Host S) where
  unfoldable pub load_config_file : Option ConfigFile
  load_config_file = and_then (h.env_var (codes "HOME")) (λ home.
      and_then (h.read_text (join home (codes ".config/aardbin/config.toml"))) h.parse_config)

  abbrev pub configured : (ServerConfig → Option Text) → Option Text
  configured field = and_then load_config_file (λ cfg. and_then cfg.server field)

  unfoldable pub resolve_url : Option Text → Text
  resolve_url (some u) = u
  resolve_url none = elim (h.env_var (codes "AARDBIN_URL")) [
    | some u ↦ u
    | none ↦ elim (configured (λ s. s.url)) [ some u ↦ u | none ↦ codes "http://127.0.0.1:8080" ]
  ]

  unfoldable pub prompt_key : Action S Text
  unfolding typed_key
  prompt_key =
      if h.is_tty
      then (do eprint (codes "Access Key: "); line ← or_fail io h.stdin_line; typed_key (trim line))
      else fail no_key

  unfoldable pub resolve_key : Option Text → Action S Text
  unfolding prompt_key
  resolve_key (some k) = pure k
  resolve_key none = elim (h.env_var (codes "AARDBIN_ACCESS_KEY")) [
    | some k ↦ pure k
    | none ↦ elim (h.env_var (codes "ACCESS_KEY")) [
      | some k ↦ pure k
      | none ↦ elim (configured (λ s. s.access_key)) [ some k ↦ pure k | none ↦ prompt_key ]
    ]
  ]
