-- ===== src/Ratelimit/Tests.antt =====
-- Runs of the limiter of src/ratelimit.rs, and its theorems at concrete calls.
use aardbin.Prelude.{List, [], arith, codes, length, refl, ◌*◌, ◌<◌, ◌↔◌, ◌∷◌, ◌≡◌, ◌≢◌}
use aardbin.Ratelimit.{
  IpAddr, allowed, check, drain_old, entry, locked, max_failures, put_entry, record_failure,
  record_success, second, verdict,
}
use aardbin.Ratelimit.History.{Call, check_allowed_iff, checked, failed, fresh_failures, replay}
use aardbin.Ratelimit.Lockout.{addresses_independent, lockout_ends}

abbrev home : IpAddr
home = codes "1.2.3.4"

abbrev away : IpAddr
away = codes "10.0.0.9"

-- Five failures, a second apart.
abbrev five : List Call
five =
    failed home (5 * second)
    ∷ failed home (4 * second)
    ∷ failed home (3 * second)
    ∷ failed home (2 * second)
    ∷ failed home (1 * second)
    ∷ []

locks_out : (check home (6 * second) (replay five)).0 ≡ locked (295 * second)
unfolding check replay record_failure put_entry entry drain_old verdict
locks_out = refl

check_allowed_iff_example :
    ((check home (301 * second) (replay five)).0 ≡ allowed)
    ↔ (length (fresh_failures home (301 * second) five) < max_failures)
check_allowed_iff_example = check_allowed_iff home (301 * second) five (omega arith)

lockout_ends_example :
    (check home (301 * second) (replay (checked home (6 * second) ∷ five))).0 ≡ allowed
lockout_ends_example =
    lockout_ends home (6 * second) (295 * second) (301 * second) five (omega arith) locks_out refl
      (omega arith)

home_not_away : home ≢ away
home_not_away e = cc e

addresses_independent_example :
    ((check away 9 (record_failure home 8 [])).0 ≡ (check away 9 []).0)
    × ((check away 9 (record_success home [])).0 ≡ (check away 9 []).0)
    × ((check away 9 (check home 8 []).1).0 ≡ (check away 9 []).0)
    × ((check home 9 (record_success home [])).0 ≡ allowed)
addresses_independent_example = addresses_independent home away 8 9 [] home_not_away
