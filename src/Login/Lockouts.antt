-- ===== src/Login/Lockouts.antt =====
-- `post_login` of src/routes.rs against the history of the limiter.
use aardbin.Prelude.{List, Text, ap, arith, false, length, refl, true, ℕ, ◌<◌, ◌∙◌, ◌∷◌, ◌≡◌, ◌≤◌}
use aardbin.Http.{Headers}
use aardbin.App.{Env, World}
use aardbin.Ratelimit.{
  IpAddr, Verdict, allowed, check, locked, max_failures, record_failure, record_success,
}
use aardbin.Ratelimit.History.{
  Call, Ordered, check_allowed_iff, checked, failed, fresh_failures, replay, succeeded,
}
use aardbin.Login.{checked_login, key_matches, logged_in, login_failed, post_login}

pub check_locked_iff :
    (ip : IpAddr) (now : ℕ) (past : List Call)
    → Ordered now past
    → max_failures ≤ length (fresh_failures ip now past)
    → (r : ℕ) × ((check ip now (replay past)).0 ≡ locked r)
check_locked_iff ip now past o le =
    Verdict-locked (check ip now (replay past)).0
      (λ h. absurd (omega (arith, le, (check_allowed_iff ip now past o).0 h)))
  where
    Verdict-locked : (v : Verdict) → ¬ (v ≡ allowed) → (r : ℕ) × (v ≡ locked r)
    Verdict-locked allowed h = absurd (h refl)
    Verdict-locked (locked r) h = (r, refl)

module _ (e : Env) (ip : IpAddr) (checked_at failed_at now : ℕ) (hs : Headers) (key : Text) where
  checked_login-replay :
      (past : List Call) (w : World) (v : Verdict)
      → w.failures ≡ replay (checked ip checked_at ∷ past)
      → ((r : ℕ)
          → v ≡ locked r
          → ((checked_login e ip failed_at now hs key w v).0.status ≡ 429)
            × ((checked_login e ip failed_at now hs key w v).1.failures
                ≡ replay (checked ip checked_at ∷ past)))
        × (v ≡ allowed
            → key_matches e key ≡ true
            → ((checked_login e ip failed_at now hs key w v).0 ≡ logged_in e now)
              × ((checked_login e ip failed_at now hs key w v).1.failures
                  ≡ replay (succeeded ip ∷ checked ip checked_at ∷ past)))
        × (v ≡ allowed
            → key_matches e key ≡ false
            → ((checked_login e ip failed_at now hs key w v).0 ≡ login_failed)
              × ((checked_login e ip failed_at now hs key w v).1.failures
                  ≡ replay (failed ip failed_at ∷ checked ip checked_at ∷ past)))
  unfolding checked_login replay
  checked_login-replay past w allowed h = (
    λ r c. absurd (ground (arith, c)),
    λ c m. (ground (arith, m), rw m (ap (λ f. record_success ip f) h)),
    λ c m. (ground (arith, m), rw m (ap (λ f. record_failure ip failed_at f) h)),
  )
  checked_login-replay past w (locked r) h =
      (λ s c. (refl, h), λ c. absurd (ground (arith, c)), λ c. absurd (ground (arith, c)))

  -- Login follows the history of the limiter, if its state came of calls in the order of the
  -- clock. With five failures of the address or more since its last success within the window, any
  -- key gets status 429 and nothing is counted; with fewer, the right key gets a session cookie
  -- and clears the failures of the address, and a wrong key is redirected to the error page and
  -- counted.
  pub post_login-replay :
      (past : List Call) (w : World)
      → Ordered checked_at past
      → w.failures ≡ replay past
      → (max_failures ≤ length (fresh_failures ip checked_at past)
          → ((post_login e ip checked_at failed_at now hs key w).0.status ≡ 429)
            × ((post_login e ip checked_at failed_at now hs key w).1.failures
                ≡ replay (checked ip checked_at ∷ past)))
        × (length (fresh_failures ip checked_at past) < max_failures
            → key_matches e key ≡ true
            → ((post_login e ip checked_at failed_at now hs key w).0 ≡ logged_in e now)
              × ((post_login e ip checked_at failed_at now hs key w).1.failures
                  ≡ replay (succeeded ip ∷ checked ip checked_at ∷ past)))
        × (length (fresh_failures ip checked_at past) < max_failures
            → key_matches e key ≡ false
            → ((post_login e ip checked_at failed_at now hs key w).0 ≡ login_failed)
              × ((post_login e ip checked_at failed_at now hs key w).1.failures
                  ≡ replay (failed ip failed_at ∷ checked ip checked_at ∷ past)))
  unfolding post_login
  post_login-replay past w o h =
      let w' : World = record w { failures = (check ip checked_at w.failures).1 } in
      let steps =
        checked_login-replay past w' (check ip checked_at w.failures).0
          (unfold replay in ap (λ f. (check ip checked_at f).1) h) in
      let verdicts = ap (λ f. (check ip checked_at f).0) h in
      let open_now : length (fresh_failures ip checked_at past) < max_failures
          → (check ip checked_at w.failures).0 ≡ allowed =
        λ lt. verdicts ∙ (check_allowed_iff ip checked_at past o).1 lt in
      (
        λ le.
            let (r, closed) = check_locked_iff ip checked_at past o le in
            steps.0 r (verdicts ∙ closed),
        λ lt m. steps.1 (open_now lt) m,
        λ lt m. steps.2 (open_now lt) m,
      )
