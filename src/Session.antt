-- ===== src/Session.antt =====
-- src/session.rs: the stateless session cookie `v1.{expiry}.{mac}`. The hash, the keyed hash and
-- the hex encoder are other crates' (`sha2`, `hmac`, `hex`): parameters of the model.
pub mod Token
pub mod Header
mod Tests
use aardbin.Prelude.{
  Bool, Bytes, List, Option, Text, [], as_bytes, codes, false, if◌then◌else◌, leb, none, some,
  splitn, strip_prefix, text_eq, ℕ, ◌%◌, ◌++◌, ◌+◌, ◌∷◌,
}
use aardbin.Prelude.Decimal.{parse_u64, show_u64, u64_mod}
use aardbin.Cookies.{cookie_pairs}

pub record Digest : Type 0 where
  pub sha256 : Bytes → Bytes
  pub hmac_sha256 : Bytes → Bytes → Bytes
  pub hex_encode : Bytes → Text

abbrev pub cookie_name : Text
cookie_name = codes "aardbin_session"

-- The lifetime is in seconds.
pub record SessionManager : Type 0 where
  pub key : Bytes
  pub ttl : ℕ
  pub cookie_secure : Bool

-- `{COOKIE_NAME}=`
abbrev pub cookie_prefix : Text
cookie_prefix = cookie_name ++ b'=' ∷ []

abbrev pub secure_suffix : Bool → Text
secure_suffix secure = if secure then codes "; Secure" else []

module _ (d : Digest) where
  unfoldable pub new : Text → ℕ → Bool → SessionManager
  new access_key ttl cookie_secure = record {
    key = d.sha256 (as_bytes (codes "aardbin-session-v1:") ++ as_bytes access_key);
    ttl = ttl;
    cookie_secure = cookie_secure;
  }

  unfoldable pub mac_for : SessionManager → ℕ → Text
  mac_for m expiry = d.hex_encode (d.hmac_sha256 m.key (as_bytes (codes "v1." ++ show_u64 expiry)))

  -- The sum of two `u64`, which wraps in a release build.
  unfoldable pub expiry_at : SessionManager → ℕ → ℕ
  expiry_at m now = (now + m.ttl) % u64_mod

  unfoldable pub issue : SessionManager → ℕ → Text
  issue m now =
      let expiry = expiry_at m now in codes "v1." ++ (show_u64 expiry ++ b'.' ∷ mac_for m expiry)

  -- the part of `validate` behind the split
  validate_parts : SessionManager → ℕ → List Text → Bool
  validate_parts m now (version ∷ expiry_s ∷ mac_hex ∷ []) =
      if text_eq version (codes "v1")
      then (elim (parse_u64 expiry_s) [
        | none ↦ false
        | some expiry ↦ if leb expiry now then false else text_eq (mac_for m expiry) mac_hex
      ])
      else false
  validate_parts m now _ = false

  unfoldable pub validate : SessionManager → ℕ → Text → Bool
  unfolding validate_parts
  validate m now value = validate_parts m now (splitn 3 b'.' value)

  unfoldable pub issue_set_cookie : SessionManager → ℕ → Text
  issue_set_cookie m now =
      cookie_prefix
      ++ (issue m now
          ++ (codes "; Path=/; HttpOnly; SameSite=Lax; Max-Age="
              ++ (show_u64 m.ttl ++ secure_suffix m.cookie_secure)))

  unfoldable pub clear_set_cookie : SessionManager → Text
  clear_set_cookie m =
      cookie_prefix
      ++ (codes "; Path=/; HttpOnly; SameSite=Lax; Max-Age=0" ++ secure_suffix m.cookie_secure)

  -- the loop over the pieces of the header
  session_in : SessionManager → ℕ → List Text → Bool
  session_in m now [] = false
  session_in m now (pair ∷ pairs) = elim (strip_prefix cookie_prefix pair) [
    | none ↦ session_in m now pairs
    | some value ↦ validate m now value
  ]

  unfoldable pub extract_valid_session : Option Text → SessionManager → ℕ → Bool
  unfolding session_in cookie_pairs
  extract_valid_session none m now = false
  extract_valid_session (some header) m now = session_in m now (cookie_pairs header)
