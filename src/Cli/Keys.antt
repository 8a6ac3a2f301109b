-- ===== src/Cli/Keys.antt =====
-- Where the client of src/cli/src/main.rs takes the address of the server and the key from.
use aardbin.Prelude.{
  List, Option, Option-cases, Text, [], arith, codes, false, none, refl, some, trim, true, ◌∙◌, ◌∷◌,
  ◌≡◌, ◌≢◌,
}
use aardbin.Cli.Host.{Host, Process, done, eprint, failed}
use aardbin.Cli.Settings.{configured, no_key, prompt_key, resolve_key, resolve_url, typed_key}

-- the first of the values that is there
abbrev pub first_of : List (Option Text) → Option Text
first_of [] = none
first_of (some v ∷ rest) = some v
first_of (none ∷ rest) = first_of rest

module _ {S : Type 0} (h : Host S) where
  -- the sources of the key, the first one first
  abbrev pub key_sources : Option Text → List (Option Text)
  key_sources given =
      given
      ∷ h.env_var (codes "AARDBIN_ACCESS_KEY")
      ∷ h.env_var (codes "ACCESS_KEY")
      ∷ configured h (λ s. s.access_key)
      ∷ []

  abbrev pub url_sources : Option Text → List (Option Text)
  url_sources given =
      given
      ∷ h.env_var (codes "AARDBIN_URL")
      ∷ configured h (λ s. s.url)
      ∷ some (codes "http://127.0.0.1:8080")
      ∷ []

  resolve_key_found :
      (given : Option Text) (p : Process S) (k : Text)
      → first_of (key_sources given) ≡ some k
      → resolve_key h given p ≡ (done k, p)
  unfolding resolve_key
  resolve_key_found (some g) p k e = ground arith
  resolve_key_found none p k e = ground (
    arith,
    Option-cases (h.env_var (codes "AARDBIN_ACCESS_KEY")),
    Option-cases (h.env_var (codes "ACCESS_KEY")),
    Option-cases (configured h (λ s. s.access_key)),
  )

  resolve_key_prompts :
      (given : Option Text) (p : Process S)
      → first_of (key_sources given) ≡ none
      → resolve_key h given p ≡ prompt_key h p
  unfolding resolve_key
  resolve_key_prompts (some g) p e = ground arith
  resolve_key_prompts none p e = ground arith

  resolve_url_lem :
      (given : Option Text) → first_of (url_sources given) ≡ some (resolve_url h given)
  unfolding resolve_url
  resolve_url_lem (some g) = refl
  resolve_url_lem none = ground arith

  typed_lem :
      (s : Text) (p : Process S)
      → (s ≡ [] → (typed_key s p).0 ≡ failed no_key) × (s ≢ [] → (typed_key s p).0 ≡ done s)
  unfolding typed_key
  typed_lem [] p = (λ e. refl, λ ne. absurd (ne refl))
  typed_lem (x ∷ s) p = (λ e. absurd (ground (arith, e)), λ ne. refl)

  prompt_lem :
      (p : Process S)
      → (h.is_tty ≡ false → prompt_key h p ≡ (failed no_key, p))
        × ((line : Text)
            → h.is_tty ≡ true
            → h.stdin_line ≡ some line
            → ((trim line ≡ [] → (prompt_key h p).0 ≡ failed no_key)
                × (trim line ≢ [] → (prompt_key h p).0 ≡ done (trim line))))
  unfolding prompt_key eprint
  prompt_lem p = (
    λ e. rw (e, prompt_key) refl,
    λ line tty got. rw (tty, got, prompt_key) (typed_lem (trim line) _),
  )

-- The key is the first that is there of the option `--key`, the variable AARDBIN_ACCESS_KEY, the
-- variable ACCESS_KEY and the configuration file; where none is, the user is asked at a terminal,
-- for a line that is not blank, and without a terminal the client ends with its error. The address
-- of the server is the first that is there of the option `--url`, the variable AARDBIN_URL and the
-- configuration file, and else the default.
pub resolve_lem :
    {S : Type 0} (h : Host S) (given : Option Text) (p : Process S)
    → ((k : Text) → first_of (key_sources h given) ≡ some k → resolve_key h given p ≡ (done k, p))
      × (first_of (key_sources h given) ≡ none
          → h.is_tty ≡ false
          → resolve_key h given p ≡ (failed no_key, p))
      × ((line : Text)
          → first_of (key_sources h given) ≡ none
          → h.is_tty ≡ true
          → h.stdin_line ≡ some line
          → ((trim line ≡ [] → (resolve_key h given p).0 ≡ failed no_key)
              × (trim line ≢ [] → (resolve_key h given p).0 ≡ done (trim line))))
      × (first_of (url_sources h given) ≡ some (resolve_url h given))
resolve_lem h given p = (
  resolve_key_found h given p,
  λ missing alone. resolve_key_prompts h given p missing ∙ (prompt_lem h p).0 alone,
  λ line missing tty got.
      rw (resolve_key_prompts h given p missing) ((prompt_lem h p).1 line tty got),
  resolve_url_lem h given,
)
