-- ===== src/Config/Parsing.antt =====
-- What the environment of src/config.rs is read as.
use mathlib.Core.Path.{subst}
use native.Mathlib.Nat.{mod-eq_of_lt}
use aardbin.Prelude.{
  All, All-append, Bool, Bool-cases, Bytes, Option, Option-cases, Text, [], ap, arith, as_bytes,
  as_i64, codes, false, if◌then◌else◌, inl, inr, is_whitespace, leb, length, ltb, none, refl, some,
  trim, true, ℕ, ◌%◌, ◌*◌, ◌++◌, ◌<◌, ◌∙◌, ◌∷◌, ◌≡◌, ◌≢◌, ◌≤◌, ◌⊎◌,
}
use aardbin.Prelude.Decimal.{
  IsDigit, length-show_u64, parse_u64, parse_u64-show_u64, show_u64, show_u64-IsDigit, u64_mod,
}
use aardbin.Config.{
  Config, Environment, Result, duration, duration_of, err, from_env, long_key, multiplier, ok,
  panic, parse_bool_env, parse_crypto_key, parse_duration, parse_duration_env, parse_trimmed,
  parse_u64_env, required, split_last, ◌>>=◌,
}
use aardbin.Cookies.{IsToken, trim_token}

bind_ok {ℓ κ} :
    {A : Type ℓ} {B : Type κ} (r : Result A) (f : A → Result B) (b : B)
    → (r >>= f) ≡ ok b
    → (a : A) × (r ≡ ok a) × (f a ≡ ok b)
bind_ok (ok a) f b h = (a, refl, h)
bind_ok (err e) f b h = absurd (ground (arith, h))
bind_ok panic f b h = absurd (ground (arith, h))

long_key_lem :
    (given key : Text) → long_key given ≡ ok key → (given ≡ key) × (16 ≤ length (as_bytes key))
long_key_lem given key h = elim (Bool-cases (ltb (length (as_bytes given)) 16)) [
  | inl short ↦ absurd (ground (arith, h, short))
  | inr long ↦
      let same : given ≡ key = ground (arith, h, long) in (same, rw (← same) (ground (arith, long)))
]

required_lem : (env : Environment) (name v : Text) → required env name ≡ ok v → env name ≡ some v
required_lem env name v h = elim (Option-cases (env name)) [
  | inl unset ↦ absurd (ground (arith, h, unset))
  | inr (w, given) ↦ ground (arith, h, given)
]

parse_crypto_key_lem :
    (hex_decode : Text → Option Bytes) (s : Text) (key : Bytes)
    → parse_crypto_key hex_decode s ≡ ok key
    → (length (as_bytes (trim s)) ≡ 64) × (hex_decode (trim s) ≡ some key)
unfolding parse_crypto_key
parse_crypto_key_lem hex_decode s key h = elim (Option-cases (hex_decode (trim s))) [
  | inl bad ↦ absurd (ground (arith, h, bad))
  | inr (bytes, good) ↦ (ground (arith, h, good), ground (arith, h, good))
]

parse_u64_env_lem :
    (env : Environment) (name : Text) (default n : ℕ)
    → parse_u64_env env name default ≡ ok n
    → ((env name ≡ none) × (n ≡ default))
      ⊎ ((v : Text) × (env name ≡ some v) × (parse_u64 (trim v) ≡ some n))
unfolding parse_u64_env
parse_u64_env_lem env name default n h = elim (Option-cases (env name)) [
  | inl unset ↦ inl (unset, ground (arith, h, unset))
  | inr (v, given) ↦ elim (Option-cases (parse_u64 (trim v))) [
    | inl bad ↦ absurd (ground (arith, h, given, bad))
    | inr (m, good) ↦ inr (v, given, ground (arith, h, given, good))
  ]
]

-- A number setting: the default where the variable is not set, else what its text is read as.
abbrev pub IsSetting : Environment → Text → ℕ → ℕ → Type 0
IsSetting env name default n =
    ((env name ≡ none) × (n ≡ default))
    ⊎ ((v : Text) × (env name ≡ some v) × (parse_u64 (trim v) ≡ some n))

abbrev ok_or : Config → Result Config → Config
ok_or d (ok c) = c
ok_or d (err e) = d
ok_or d panic = d

-- What an accepted configuration holds.
pub record IsAccepted (hex_decode : Text → Option Bytes) (env : Environment) (cfg : Config)
    : Type 0 where
  pub access_given : env (codes "ACCESS_KEY") ≡ some cfg.access_key
  pub access_long : 16 ≤ length (as_bytes cfg.access_key)
  pub crypto_given :
      (s : Text) × (env (codes "CRYPTO_KEY") ≡ some s)
      × (length (as_bytes (trim s)) ≡ 64)
      × (hex_decode (trim s) ≡ some cfg.crypto_key)
  pub attachment_bytes :
      IsSetting env (codes "MAX_ATTACHMENT_BYTES") (2 * 1024 * 1024) cfg.max_attachment_bytes
  pub request_bytes :
      IsSetting env (codes "MAX_REQUEST_BYTES") (8 * 1024 * 1024) cfg.max_request_bytes
  pub content_bytes : IsSetting env (codes "MAX_CONTENT_BYTES") (1024 * 1024) cfg.max_content_bytes
  pub page_size : (n : ℕ) × IsSetting env (codes "PAGE_SIZE") 20 n × (cfg.page_size ≡ as_i64 n)

-- A configuration that is accepted has the access key that was given, of sixteen bytes or more, the
-- decoding of a crypto key of 64 characters, and each number from its variable or its default.
pub from_env_lem :
    (hex_decode : Text → Option Bytes) (env : Environment) (cfg : Config)
    → from_env hex_decode env ≡ ok cfg
    → IsAccepted hex_decode env cfg
unfolding from_env
from_env_lem hex_decode env cfg h0 =
    let (given, e1, h1) = bind_ok (required env (codes "ACCESS_KEY")) _ cfg h0 in
    let (key, e2, h2) = bind_ok (long_key given) _ cfg h1 in
    let (hex, e3, h3) = bind_ok (required env (codes "CRYPTO_KEY")) _ cfg h2 in
    let (crypto, e4, h4) = bind_ok (parse_crypto_key hex_decode hex) _ cfg h3 in
    let (attachment, e5, h5) =
      bind_ok (parse_u64_env env (codes "MAX_ATTACHMENT_BYTES") (2 * 1024 * 1024)) _ cfg h4 in
    let (request, e6, h6) =
      bind_ok (parse_u64_env env (codes "MAX_REQUEST_BYTES") (8 * 1024 * 1024)) _ cfg h5 in
    let (content, e7, h7) =
      bind_ok (parse_u64_env env (codes "MAX_CONTENT_BYTES") (1024 * 1024)) _ cfg h6 in
    let (size, e8, h8) = bind_ok (parse_u64_env env (codes "PAGE_SIZE") 20) _ cfg h7 in
    let (ttl, e9, h9) =
      bind_ok (parse_duration_env env (codes "SESSION_TTL") (7 * 24 * 3600)) _ cfg h8 in
    let (secure, e10, h10) = bind_ok (parse_bool_env env (codes "COOKIE_SECURE") true) _ cfg h9 in
    let (same, long) = long_key_lem given key e2 in
    let (wide, decoded) = parse_crypto_key_lem hex_decode hex crypto e4 in
    subst (λ c. IsAccepted hex_decode env c) (ap (ok_or cfg) h10)
      (record {
        access_given = required_lem env (codes "ACCESS_KEY") given e1 ∙ ap some same;
        access_long = long;
        crypto_given = (hex, required_lem env (codes "CRYPTO_KEY") hex e3, wide, decoded);
        attachment_bytes = parse_u64_env_lem env _ _ attachment e5;
        request_bytes = parse_u64_env_lem env _ _ request e6;
        content_bytes = parse_u64_env_lem env _ _ content e7;
        page_size = (size, parse_u64_env_lem env _ _ size e8, refl);
      })

split_last-append : (c : ℕ) (s : Text) (u : ℕ) → split_last c (s ++ u ∷ []) ≡ (c ∷ s, u)
split_last-append c [] u = refl
split_last-append c (d ∷ s) u = rw (split_last-append d s u) refl

digits-IsToken : (s : Text) → All IsDigit s → IsToken s
digits-IsToken [] h = tt
digits-IsToken (c ∷ s) (h, hs) = (ground (arith, h), digits-IsToken s hs)

unit-IsToken : (u k : ℕ) → multiplier u ≡ some k → IsToken (u ∷ [])
unit-IsToken u k h = ground (arith, h)

unit_ascii : (u k : ℕ) → multiplier u ≡ some k → leb 0x80 u ≡ false
unit_ascii u k h = ground (arith, h)

unit_digit : (u : ℕ) → IsDigit u → (multiplier u ≡ none) × (leb 0x80 u ≡ false)
unit_digit u h = (ground (arith, h), ground (arith, h))

duration_unit :
    (s : Text) (num : Text) (u k n : ℕ)
    → multiplier u ≡ some k
    → parse_u64 num ≡ some n
    → duration_of s (num, u) ≡ duration (n * k % u64_mod)
unfolding duration_of
duration_unit s num u k n h p = rw (unit_ascii u k h, h, p) refl

parse_trimmed-append :
    (s : Text) (u : ℕ)
    → 1 ≤ length s
    → parse_trimmed (s ++ u ∷ []) ≡ duration_of (s ++ u ∷ []) (s, u)
unfolding parse_trimmed
parse_trimmed-append [] u h = absurd (omega (arith, h))
parse_trimmed-append (c ∷ s) u h =
    ap (λ x. duration_of (c ∷ (s ++ u ∷ [])) x) (split_last-append c s u)

-- The units of a duration, the letter of each, and its length.
pub data TimeUnit : Type 0 where
  day hour minute second : TimeUnit

abbrev pub letter : TimeUnit → Bool → ℕ
letter day upper = if upper then b'D' else b'd'
letter hour upper = if upper then b'H' else b'h'
letter minute upper = if upper then b'M' else b'm'
letter second upper = if upper then b'S' else b's'

abbrev pub in_seconds : TimeUnit → ℕ
in_seconds day = 24 * 60 * 60
in_seconds hour = 60 * 60
in_seconds minute = 60
in_seconds second = 1

multiplier_lem : (t : TimeUnit) (upper : Bool) → multiplier (letter t upper) ≡ some (in_seconds t)
multiplier_lem day false = refl
multiplier_lem day true = refl
multiplier_lem hour false = refl
multiplier_lem hour true = refl
multiplier_lem minute false = refl
multiplier_lem minute true = refl
multiplier_lem second false = refl
multiplier_lem second true = refl

-- A duration is written as its number and the letter of its unit, d, h, m or s, small or capital:
-- it is read as that many days of 24 hours, hours, minutes or seconds, if the number and the
-- seconds fit into a `u64`.
pub parse_duration-show_u64 :
    (n : ℕ) (t : TimeUnit) (upper : Bool)
    → n * in_seconds t < u64_mod
    → n < u64_mod
    → parse_duration (show_u64 n ++ letter t upper ∷ []) ≡ duration (n * in_seconds t)
unfolding parse_duration
parse_duration-show_u64 n t upper small fits =
    let u = letter t upper in
    let k = in_seconds t in
    let unit = multiplier_lem t upper in
    let token =
      All-append (λ c. (is_whitespace c ≡ false) × (c ≢ b';')) (show_u64 n) (u ∷ [])
        (digits-IsToken (show_u64 n) (show_u64-IsDigit n)) (unit-IsToken u k unit) in
    ap parse_trimmed (trim_token (show_u64 n ++ u ∷ []) token)
    ∙ parse_trimmed-append (show_u64 n) u (length-show_u64 n)
    ∙ duration_unit (show_u64 n ++ u ∷ []) (show_u64 n) u k n unit (parse_u64-show_u64 n fits)
    ∙ ap duration (mod-eq_of_lt small)
