-- ===== src/Ratelimit/History.antt =====
-- The limiter of src/ratelimit.rs against its history: the calls made on it, the latest first.
use aardbin.Prelude.{
  All-append, Bool, List, [], arith, false, if◌then◌else◌, keep, length, map, refl, text_eq,
  text_eq_iff, true, ℕ, ◌++◌, ◌<◌, ◌↔◌, ◌∷◌, ◌≡◌, ◌≤◌,
}
use aardbin.Ratelimit.{
  Failures, IpAddr, allowed, check, drain_old, entry, max_failures, record_failure, record_success,
  verdict,
}
use aardbin.Ratelimit.Window.{
  NotAfter, NotAfter-mono, drain_old-NotAfter, drain_old-append, drain_old-drain_old,
  entry-put_entry, entry-remove, is_fresh, keep-append,
}

pub data Call : Type 0 where
  checked failed : IpAddr → ℕ → Call
  succeeded : IpAddr → Call

abbrev pub apply : Call → Failures → Failures
apply (checked ip t) map = (check ip t map).1
apply (failed ip t) map = record_failure ip t map
apply (succeeded ip) map = record_success ip map

-- The limiter's map after the calls, from the empty map of `new`.
unfoldable pub replay : List Call → Failures
replay [] = []
replay (c ∷ past) = apply c (replay past)

-- The clock of the calls does not run backwards, and has not passed `now`.
abbrev pub Ordered : ℕ → List Call → Type 0
Ordered now [] = Unit
Ordered now (checked ip t ∷ past) = (t ≤ now) × Ordered t past
Ordered now (failed ip t ∷ past) = (t ≤ now) × Ordered t past
Ordered now (succeeded ip ∷ past) = Ordered now past

-- The specification: the failures of an address since its last success, the earliest first.
abbrev pub failures_of : IpAddr → List Call → List ℕ
failures_of ip [] = []
failures_of ip (checked j t ∷ past) = failures_of ip past
failures_of ip (failed j t ∷ past) =
    if text_eq j ip then failures_of ip past ++ t ∷ [] else failures_of ip past
failures_of ip (succeeded j ∷ past) = if text_eq j ip then [] else failures_of ip past

entry-check :
    (ip j : IpAddr) (t : ℕ) (map : Failures)
    → entry ip (check j t map).1
      ≡ (if text_eq j ip then drain_old (entry j map) t else entry ip map)
unfolding check
entry-check ip j t map = entry-put_entry j ip (drain_old (entry j map) t) map

entry-record_failure :
    (ip j : IpAddr) (t : ℕ) (map : Failures)
    → entry ip (record_failure j t map)
      ≡ (if text_eq j ip then drain_old (entry j map) t ++ t ∷ [] else entry ip map)
unfolding record_failure
entry-record_failure ip j t map = entry-put_entry j ip (drain_old (entry j map) t ++ t ∷ []) map

entry-record_success :
    (ip j : IpAddr) (map : Failures)
    → entry ip (record_success j map) ≡ (if text_eq j ip then [] else entry ip map)
unfolding record_success
entry-record_success ip j map = entry-remove j ip map

Ordered-mono : {t now : ℕ} (past : List Call) → t ≤ now → Ordered t past → Ordered now past
Ordered-mono [] le o = tt
Ordered-mono (checked j s ∷ past) le o = (omega arith, o.1)
Ordered-mono (failed j s ∷ past) le o = (omega arith, o.1)
Ordered-mono (succeeded j ∷ past) le o = Ordered-mono past le o

drain_old_nil : (now : ℕ) → drain_old [] now ≡ []
unfolding drain_old
drain_old_nil now = refl

if-NotAfter :
    (now : ℕ) (b : Bool) (p q : List ℕ)
    → NotAfter now p
    → NotAfter now q
    → NotAfter now (if b then p else q)
if-NotAfter now true p q h k = h
if-NotAfter now false p q h k = k

pub replay-NotAfter :
    (ip : IpAddr) (now : ℕ) (past : List Call)
    → Ordered now past
    → NotAfter now (entry ip (replay past))
unfolding replay
replay-NotAfter ip now [] o = unfold entry in tt
replay-NotAfter ip now (checked j t ∷ past) o =
    let before =
      λ (k : IpAddr). NotAfter-mono (entry k (replay past)) o.0 (replay-NotAfter k t past o.1) in
    rw entry-check (
      if-NotAfter now (text_eq j ip) _ _
        (drain_old-NotAfter now t (entry j (replay past)) (before j)) (before ip))
replay-NotAfter ip now (failed j t ∷ past) o =
    let before =
      λ (k : IpAddr). NotAfter-mono (entry k (replay past)) o.0 (replay-NotAfter k t past o.1) in
    rw entry-record_failure (
      if-NotAfter now (text_eq j ip) _ _
        (All-append (λ s. s ≤ now) (drain_old (entry j (replay past)) t) (t ∷ [])
          (drain_old-NotAfter now t (entry j (replay past)) (before j)) (o.0, tt))
        (before ip))
replay-NotAfter ip now (succeeded j ∷ past) o =
    rw entry-record_success (if-NotAfter now (text_eq j ip) _ _ tt (replay-NotAfter ip now past o))

failures_of-NotAfter :
    (ip : IpAddr) (now : ℕ) (past : List Call)
    → Ordered now past
    → NotAfter now (failures_of ip past)
failures_of-NotAfter ip now [] o = tt
failures_of-NotAfter ip now (checked j t ∷ past) o =
    NotAfter-mono (failures_of ip past) o.0 (failures_of-NotAfter ip t past o.1)
failures_of-NotAfter ip now (failed j t ∷ past) o =
    let before = NotAfter-mono (failures_of ip past) o.0 (failures_of-NotAfter ip t past o.1) in
    if-NotAfter now (text_eq j ip) _ _
      (All-append (λ s. s ≤ now) (failures_of ip past) (t ∷ []) before (o.0, tt)) before
failures_of-NotAfter ip now (succeeded j ∷ past) o =
    if-NotAfter now (text_eq j ip) _ _ tt (failures_of-NotAfter ip now past o)

-- The drained queue of an address is its fresh failures since its last success.
pub drain_old-replay :
    (ip : IpAddr) (now : ℕ) (past : List Call)
    → Ordered now past
    → drain_old (entry ip (replay past)) now ≡ keep (is_fresh now) (failures_of ip past)
unfolding replay
drain_old-replay ip now [] o = unfold entry drain_old in refl
drain_old-replay ip now (checked j t ∷ past) o = rw entry-check (
    ground (
      arith,
      text_eq_iff j ip,
      drain_old-drain_old (entry j (replay past)) t now o.0,
      drain_old-replay ip now past (Ordered-mono past o.0 o.1),
    ))
drain_old-replay ip now (failed j t ∷ past) o = rw entry-record_failure (
    ground (
      arith,
      text_eq_iff j ip,
      drain_old-append (drain_old (entry j (replay past)) t) t now,
      drain_old-NotAfter t t (entry j (replay past)) (replay-NotAfter j t past o.1),
      drain_old-drain_old (entry j (replay past)) t now o.0,
      keep-append (failures_of ip past) t now (failures_of-NotAfter ip t past o.1),
      drain_old-replay ip now past (Ordered-mono past o.0 o.1),
    ))
drain_old-replay ip now (succeeded j ∷ past) o =
    rw entry-record_success
      (ground (arith, text_eq_iff j ip, drain_old-replay ip now past o, drain_old_nil now))

-- The first fresh failure decides how long a lockout lasts.
abbrev pub fresh_failures : IpAddr → ℕ → List Call → List ℕ
fresh_failures ip now past = keep (is_fresh now) (failures_of ip past)

verdict_allowed : (q : List ℕ) (now : ℕ) → (verdict q now ≡ allowed) ↔ (length q < max_failures)
unfolding verdict
verdict_allowed [] now = ground arith
verdict_allowed (t ∷ q) now = ground arith

-- A login attempt is allowed exactly while fewer than five failures of the address, since its
-- last success, are younger than the window, whatever calls came before in the order of the clock.
pub check_allowed_iff :
    (ip : IpAddr) (now : ℕ) (past : List Call)
    → Ordered now past
    → ((check ip now (replay past)).0 ≡ allowed)
      ↔ (length (fresh_failures ip now past) < max_failures)
unfolding check
check_allowed_iff ip now past o =
    rw drain_old-replay (verdict_allowed (fresh_failures ip now past) now)
