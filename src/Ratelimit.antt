-- ===== src/Ratelimit.antt =====
-- src/ratelimit.rs: the sliding window over failed logins. Instants and durations are in
-- nanoseconds, as `Duration` keeps them; the map under the mutex is an association list, and
-- each method holds the lock for its whole body.
pub mod Window
pub mod History
pub mod Lockout
mod Tests
use aardbin.Prelude.{
  List, Text, [], if◌then◌else◌, leb, length, map, max, text_eq, ℕ, ◌*◌, ◌++◌, ◌-◌, ◌/◌, ◌∷◌,
}

abbrev pub second : ℕ
second = 1_000_000_000

abbrev pub window : ℕ
window = 5 * 60 * second

abbrev pub max_failures : ℕ
max_failures = 5

-- `IpAddr`, by its text; only equality is used.
abbrev pub IpAddr : Type 0
IpAddr = Text

abbrev pub Failures : Type 0
Failures = List (IpAddr × List ℕ)

-- `Ok(())`, or the remaining lockout
pub data Verdict : Type 0 where
  allowed : Verdict
  locked : ℕ → Verdict

-- `Instant::duration_since` saturates at zero, as `-` does.
unfoldable pub drain_old : List ℕ → ℕ → List ℕ
drain_old [] now = []
drain_old (front ∷ queue) now =
    let rest = drain_old queue now in if leb window (now - front) then rest else front ∷ queue

-- `map.entry(ip).or_default()`, read
unfoldable pub entry : IpAddr → Failures → List ℕ
entry ip [] = []
entry ip ((other, queue) ∷ map) = if text_eq other ip then queue else entry ip map

-- `map.entry(ip).or_default()`, written through
unfoldable pub put_entry : IpAddr → List ℕ → Failures → Failures
put_entry ip queue [] = (ip, queue) ∷ []
put_entry ip queue ((other, old) ∷ map) =
    if text_eq other ip then (ip, queue) ∷ map else (other, old) ∷ put_entry ip queue map

-- `map.remove(&ip)`
unfoldable pub remove : IpAddr → Failures → Failures
remove ip [] = []
remove ip ((other, old) ∷ map) =
    let rest = remove ip map in if text_eq other ip then rest else (other, old) ∷ rest

-- the test on the drained queue; its front is there, since the queue is not empty
unfoldable pub verdict : List ℕ → ℕ → Verdict
verdict [] now = allowed
verdict (oldest ∷ queue) now =
    if leb max_failures (length (oldest ∷ queue))
    then locked (max (window - (now - oldest)) second)
    else allowed

unfoldable pub check : IpAddr → ℕ → Failures → Verdict × Failures
check ip now map =
    let queue = drain_old (entry ip map) now in (verdict queue now, put_entry ip queue map)

unfoldable pub record_failure : IpAddr → ℕ → Failures → Failures
record_failure ip now map = put_entry ip (drain_old (entry ip map) now ++ now ∷ []) map

unfoldable pub record_success : IpAddr → Failures → Failures
unfolding remove
record_success ip map = remove ip map

-- `Duration::as_secs`
abbrev pub as_secs : ℕ → ℕ
as_secs d = d / second
