-- ===== src/Ratelimit/Lockout.antt =====
-- How long a lockout of src/ratelimit.rs lasts, and whom it touches.
use aardbin.Prelude.{
  List, [], arith, length, refl, text_eq_refl, text_ne, ℕ, ◌+◌, ◌<◌, ◌∷◌, ◌≡◌, ◌≢◌, ◌≤◌,
}
use aardbin.Ratelimit.{
  Failures, IpAddr, allowed, check, drain_old, entry, locked, max_failures, record_failure,
  record_success, second, verdict, window,
}
use aardbin.Ratelimit.Window.{NotAfter, drain_old-NotAfter, entry-put_entry, entry-remove}
use aardbin.Ratelimit.History.{
  Call, Ordered, checked, drain_old-replay, fresh_failures, replay, replay-NotAfter,
}

verdict_locked : (q : List ℕ) (now r : ℕ) → verdict q now ≡ locked r → (second ≤ r) × (r ≤ window)
unfolding verdict
verdict_locked [] now r h = cc
verdict_locked (t ∷ q) now r h = ground arith

-- A lockout names at least one second and at most the window, in any state of the limiter.
pub check_locked_bounds :
    (ip : IpAddr) (now r : ℕ) (m : Failures)
    → (check ip now m).0 ≡ locked r
    → (second ≤ r) × (r ≤ window)
unfolding check
check_locked_bounds ip now r m h = verdict_locked (drain_old (entry ip m) now) now r h

length-drain_old : (q : List ℕ) (now : ℕ) → length (drain_old q now) ≤ length q
unfolding drain_old
length-drain_old [] now = omega arith
length-drain_old (t ∷ q) now = ground (arith, length-drain_old q now)

verdict_of_short : (q : List ℕ) (now : ℕ) → length q < max_failures → verdict q now ≡ allowed
unfolding verdict
verdict_of_short [] now h = refl
verdict_of_short (t ∷ q) now h = ground arith

-- The lockout that a full queue names is enough for its oldest failure to leave the window.
oldest_leaves :
    (q : List ℕ) (now r later : ℕ)
    → verdict q now ≡ locked r
    → length q ≡ max_failures
    → NotAfter now q
    → now + r ≤ later
    → length (drain_old q later) < max_failures
unfolding verdict drain_old
oldest_leaves [] now r later h n past le = cc
oldest_leaves (t ∷ q) now r later h n past le = ground (arith, length-drain_old q later)

-- When five failures of the address since its last success are in the window, after calls in the
-- order of the clock, and a check locks it for `r`, an attempt made `r` or more later, with no
-- call on the limiter between, is allowed.
pub lockout_ends :
    (ip : IpAddr) (now r later : ℕ) (past : List Call)
    → Ordered now past
    → (check ip now (replay past)).0 ≡ locked r
    → length (fresh_failures ip now past) ≡ max_failures
    → now + r ≤ later
    → (check ip later (replay (checked ip now ∷ past))).0 ≡ allowed
unfolding check replay
lockout_ends ip now r later past o h n le =
    let queue = drain_old (entry ip (replay past)) now in
    simp (entry-put_entry, text_eq_refl)
      (verdict_of_short (drain_old queue later) later (
        oldest_leaves queue now r later h (rw drain_old-replay n)
          (drain_old-NotAfter now now (entry ip (replay past)) (replay-NotAfter ip now past o)) le))

-- A failure, a success or a check of one address changes no verdict on another address; after a
-- success of an address its next attempt is allowed.
pub addresses_independent :
    (ip j : IpAddr) (t now : ℕ) (m : Failures)
    → ip ≢ j
    → ((check j now (record_failure ip t m)).0 ≡ (check j now m).0)
      × ((check j now (record_success ip m)).0 ≡ (check j now m).0)
      × ((check j now (check ip t m).1).0 ≡ (check j now m).0)
      × ((check ip now (record_success ip m)).0 ≡ allowed)
unfolding check record_failure record_success verdict drain_old
addresses_independent ip j t now m ne =
    let other = text_ne ip j ne in
    (
      simp (entry-put_entry, other),
      simp (entry-remove, other),
      simp (entry-put_entry, other),
      simp (entry-remove, text_eq_refl),
    )
