-- ===== src/Api/Auth.antt =====
-- `ApiAuth` of src/api.rs against the history of the limiter that it shares with the login.
use aardbin.Prelude.{
  Bool-cases, List, Option, Option-cases, Text, ap, arith, as_bytes, codes, inl, inr, length, none,
  refl, some, strip_prefix, strip_prefix-append, strip_prefix_sound, text_eq_iff, true, ℕ, ◌++◌,
  ◌<◌, ◌↔◌, ◌∙◌, ◌∷◌, ◌≡◌, ◌≤◌,
}
use aardbin.Http.{Headers, Response, header_text}
use aardbin.App.{Env, World}
use aardbin.Ratelimit.{
  Failures, IpAddr, Verdict, allowed, check, locked, max_failures, record_failure,
}
use aardbin.Login.{key_matches}
use aardbin.Api.{api_auth, api_verdict, bearer, checked_token, json_error, locked_out}
use aardbin.Ratelimit.History.{
  Call, Ordered, check_allowed_iff, checked, failed, fresh_failures, replay,
}
use aardbin.Login.Lockouts.{check_locked_iff}

-- The header is `Bearer ` and the bytes of the access key.
pub record HasKey (e : Env) (header : Option Text) : Type 0 where
  pub token : Text
  pub sent : header ≡ some (codes "Bearer " ++ token)
  pub right : as_bytes token ≡ as_bytes e.cfg.access_key

-- The header is `Bearer ` and some token.
abbrev pub HasToken : Option Text → Type 0
HasToken header = (token : Text) × (header ≡ some (codes "Bearer " ++ token))

token_stripped :
    (header : Text) (t : HasToken (some header)) → strip_prefix (codes "Bearer ") header ≡ some t.0
token_stripped header (token, sent) =
    let shape : header ≡ codes "Bearer " ++ token = ground (arith, sent) in
    rw shape (strip_prefix-append (codes "Bearer ") token)

module _ (e : Env) (ip : IpAddr) (failed_at : ℕ) where
  key_matches_iff :
      (token : Text) → (key_matches e token ≡ true) ↔ (as_bytes token ≡ as_bytes e.cfg.access_key)
  key_matches_iff token = text_eq_iff (as_bytes token) (as_bytes e.cfg.access_key)

  stripped :
      (header : Text) (h : HasKey e (some header))
      → strip_prefix (codes "Bearer ") header ≡ some h.token
  stripped header h =
      let shape : header ≡ codes "Bearer " ++ h.token = ground (arith, h.sent) in
      rw shape (strip_prefix-append (codes "Bearer ") h.token)

  -- what a refusal leaves of the failures: only a token that is read and wrong is counted
  abbrev Counts : Option Text → Failures → Failures → Type 0
  Counts header before after =
      (HasToken header → after ≡ record_failure ip failed_at before)
      × (¬ HasToken header → after ≡ before)

  -- the three ways in which a token is refused or not
  token_lem :
      (header : Option Text) (w : World)
      → (HasKey e header → checked_token e ip failed_at header w ≡ (none, w))
        × (¬ HasKey e header
            → (resp : Response) × ((checked_token e ip failed_at header w).0 ≡ some resp)
              × (resp.status ≡ 401)
              × Counts header w.failures (checked_token e ip failed_at header w).1.failures)
  unfolding checked_token json_error bearer
  token_lem none w = (
    λ h. absurd (ground (arith, h.sent)),
    λ h. (
      json_error e 401 (codes "missing Authorization header"),
      refl,
      refl,
      (λ t. absurd (cc t.1), λ t. refl),
    ),
  )
  token_lem (some header) w = elim (Option-cases (strip_prefix (codes "Bearer ") header)) [
    | inl malformed ↦ (
      λ h. absurd (ground (arith, malformed, stripped header h)),
      λ h. (
        json_error e 401 (codes "invalid Authorization format"),
        rw (malformed, checked_token) refl,
        refl,
        (
          λ t. absurd (ground (arith, malformed, token_stripped header t)),
          λ t. rw (malformed, checked_token) refl,
        ),
      ),
    )
    | inr (token, given) ↦
        let shape = strip_prefix_sound (codes "Bearer ") header token given in
        elim (Bool-cases (key_matches e token)) [
          | inl good ↦ (
            λ h. rw (given, good, checked_token) refl,
            λ h. absurd (
                h (record {
                  token = token;
                  sent = ap some shape;
                  right = (key_matches_iff token).0 good;
                })),
          )
          | inr bad ↦ (
            λ h.
                let same : token ≡ h.token = ground (arith, given, stripped header h) in
                absurd
                  (ground (arith, bad, (key_matches_iff token).1 (ap as_bytes same ∙ h.right))),
            λ h. (
              json_error e 401 (codes "invalid access key"),
              rw (given, bad, checked_token) refl,
              refl,
              (λ t. rw (given, bad, checked_token) refl, λ t. absurd (t (token, ap some shape))),
            ),
          )
        ]
  ]

  verdict_lem :
      (header : Option Text) (w : World) (v : Verdict)
      → (v ≡ allowed
          → api_verdict e ip failed_at header w v ≡ checked_token e ip failed_at header w)
        × ((r : ℕ)
            → v ≡ locked r
            → api_verdict e ip failed_at header w v ≡ (some (locked_out e r), w))
  unfolding api_verdict
  verdict_lem header w allowed = (λ h. refl, λ r h. absurd (ground (arith, h)))
  verdict_lem header w (locked s) = (
    λ h. absurd (ground (arith, h)),
    λ r h. ap (λ n. (some (locked_out e n), w)) (ground (arith, h)),
  )

  -- The API shares the login's limiter, whose state came of calls in the order of the clock. With
  -- fewer than five failures of the address since its last successful login within the window, a
  -- request passes with the Bearer key, and passing clears nothing; without it the answer is 401.
  -- Then a wrong Bearer token counts as one more failure of the address, and a header that is not
  -- there or is no Bearer token does not count. With five or more the answer is 429, whatever the
  -- header holds, and nothing is counted.
  pub api_auth-replay :
      (checked_at : ℕ) (hs : Headers) (past : List Call) (w : World)
      → Ordered checked_at past
      → w.failures ≡ replay past
      → (length (fresh_failures ip checked_at past) < max_failures
          → HasKey e (header_text (codes "authorization") hs)
          → ((api_auth e ip checked_at failed_at hs w).0 ≡ none)
            × ((api_auth e ip checked_at failed_at hs w).1.failures
                ≡ replay (checked ip checked_at ∷ past)))
        × (length (fresh_failures ip checked_at past) < max_failures
            → ¬ HasKey e (header_text (codes "authorization") hs)
            → (resp : Response) × ((api_auth e ip checked_at failed_at hs w).0 ≡ some resp)
              × (resp.status ≡ 401)
              × (HasToken (header_text (codes "authorization") hs)
                  → (api_auth e ip checked_at failed_at hs w).1.failures
                    ≡ replay (failed ip failed_at ∷ checked ip checked_at ∷ past))
              × (¬ HasToken (header_text (codes "authorization") hs)
                  → (api_auth e ip checked_at failed_at hs w).1.failures
                    ≡ replay (checked ip checked_at ∷ past)))
        × (max_failures ≤ length (fresh_failures ip checked_at past)
            → (resp : Response) × ((api_auth e ip checked_at failed_at hs w).0 ≡ some resp)
              × (resp.status ≡ 429)
              × ((api_auth e ip checked_at failed_at hs w).1.failures
                  ≡ replay (checked ip checked_at ∷ past)))
  unfolding api_auth
  api_auth-replay checked_at hs past w o h =
      let header = header_text (codes "authorization") hs in
      let w' : World = record w { failures = (check ip checked_at w.failures).1 } in
      let seen : w'.failures ≡ replay (checked ip checked_at ∷ past) =
        unfold replay in ap (λ f. (check ip checked_at f).1) h in
      let verdicts = ap (λ f. (check ip checked_at f).0) h in
      let v = (check ip checked_at w.failures).0 in
      let passes : length (fresh_failures ip checked_at past) < max_failures
          → api_verdict e ip failed_at header w' v ≡ checked_token e ip failed_at header w' =
        λ lt.
          (verdict_lem header w' v).0 (verdicts ∙ (check_allowed_iff ip checked_at past o).1 lt) in
      (
        λ lt key.
            let same = passes lt ∙ (token_lem header w').0 key in
            (ap (λ x. x.0) same, ap (λ x. x.1.failures) same ∙ seen),
        λ lt bad.
            let (resp, out, status, failures) = (token_lem header w').1 bad in
            let moved = ap (λ x. x.1.failures) (passes lt) in
            (
              resp,
              ap (λ x. x.0) (passes lt) ∙ out,
              status,
              λ t.
                  moved
                  ∙ failures.0 t
                  ∙ unfold replay in ap (λ f. record_failure ip failed_at f) seen,
              λ t. moved ∙ failures.1 t ∙ seen,
            ),
        λ le.
            let (r, closed) = check_locked_iff ip checked_at past o le in
            let same = (verdict_lem header w' v).1 r (verdicts ∙ closed) in
            (
              locked_out e r,
              ap (λ x. x.0) same,
              unfold locked_out in refl,
              ap (λ x. x.1.failures) same ∙ seen,
            ),
      )
