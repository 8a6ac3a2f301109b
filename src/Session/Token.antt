-- ===== src/Session/Token.antt =====
-- The session token of src/session.rs: which texts `validate` accepts.
use native.Mathlib.Nat.{mod-eq_of_lt}
use aardbin.Prelude.{
  Avoids, Text, [], arith, codes, cut-append, ltb, refl, some, splitn, text_eq_refl, ap, ℕ, ◌++◌,
  ◌+◌, ◌<◌, ◌∷◌, ◌≡◌,
}
use aardbin.Prelude.Decimal.{parse_u64, parse_u64-Avoids, parse_u64-show_u64, show_u64, u64_mod}
use aardbin.Session.{Digest, SessionManager, expiry_at, issue, mac_for, validate, validate_parts}

-- A text is signed for an expiry: its middle part reads as the expiry, its last is the code of it.
pub record IsSigned (d : Digest) (m : SessionManager) (expiry : ℕ) (value : Text) : Type 0 where
  pub middle : Text
  pub reads : parse_u64 middle ≡ some expiry
  pub shape : value ≡ codes "v1." ++ (middle ++ b'.' ∷ mac_for d m expiry)

-- What is accepted depends on the key alone, and on no lifetime.
pub validate-key :
    (d : Digest) (m m' : SessionManager)
    → m.key ≡ m'.key
    → (now : ℕ) (value : Text) → validate d m now value ≡ validate d m' now value
unfolding validate validate_parts mac_for
validate-key d m m' h now value = ap (λ k. validate d (record m { key = k }) now value) h

module _ (d : Digest) (m : SessionManager) where
  validate_parts_of_signed :
      (now expiry : ℕ) (middle : Text)
      → parse_u64 middle ≡ some expiry
      → validate_parts d m now (codes "v1" ∷ middle ∷ mac_for d m expiry ∷ []) ≡ ltb now expiry
  unfolding validate_parts
  validate_parts_of_signed now expiry middle h =
      rw h (ground (arith, text_eq_refl (mac_for d m expiry)))

  splitn_signed :
      (middle mac : Text)
      → Avoids b'.' middle
      → splitn 3 b'.' (codes "v1." ++ (middle ++ b'.' ∷ mac)) ≡ codes "v1" ∷ middle ∷ mac ∷ []
  splitn_signed middle mac h = rw (cut-append b'.' middle mac h)

  -- A signed text is accepted exactly before its expiry.
  pub validate_signed :
      (now expiry : ℕ) (value : Text)
      → IsSigned d m expiry value
      → validate d m now value ≡ ltb now expiry
  unfolding validate
  validate_signed now expiry value s =
      rw
        (
          s.shape,
          splitn_signed s.middle (mac_for d m expiry) (parse_u64-Avoids s.middle expiry s.reads),
        )
        (validate_parts_of_signed now expiry s.middle s.reads)

  issue-IsSigned : (now : ℕ) → now + m.ttl < u64_mod → IsSigned d m (now + m.ttl) (issue d m now)
  unfolding issue expiry_at
  issue-IsSigned now h = rw (mod-eq_of_lt h) (record {
    middle = show_u64 (now + m.ttl);
    reads = parse_u64-show_u64 (now + m.ttl) h;
    shape = refl;
  })

  -- The token issued at `now` is accepted exactly until the lifetime has passed, if the sum of
  -- the two is a `u64`.
  pub validate-issue :
      (now later : ℕ)
      → now + m.ttl < u64_mod
      → validate d m later (issue d m now) ≡ ltb later (now + m.ttl)
  validate-issue now later h =
      validate_signed later (now + m.ttl) (issue d m now) (issue-IsSigned now h)

  abbrev Accepted : ℕ → Text → Type 0
  Accepted now value = (expiry : ℕ) × IsSigned d m expiry value × (now < expiry)
