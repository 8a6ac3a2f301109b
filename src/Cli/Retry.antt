-- ===== src/Cli/Retry.antt =====
-- `send_with_retry` of src/cli/src/main.rs: how often it sends a request and how long it waits.
use native.Mathlib.Nat.{mul-le-mul_right}
use mathlib.Core.Path.{subst}
use aardbin.Prelude.{
  ◌∙◌, ap, sym, Bool-cases, List, Option, Option-cases, [], arith, false, inl, inr, min, none, refl,
  some, suc, true, zero, ℕ, ◌*◌, ◌++◌, ◌+◌, ◌<◌, ◌∷◌, ◌≡◌, ◌≢◌, ◌≤◌, ◌⊎◌,
}
use aardbin.Cli.Host.{
  Host, HttpRequest, HttpResponse, Outcome, Process, continue, done, eprint, exchange, failed,
  sleep, transport,
}
use aardbin.Cli.Client.{
  Client, execute, is_final, retry_after, send_loop, send_with_retry, wait_of, back_off,
}

abbrev pub repeat : ℕ → HttpRequest → List HttpRequest
repeat zero req = []
repeat (suc n) req = req ∷ repeat n req

repeat-suc :
    (n : ℕ) (req : HttpRequest) (rest : List HttpRequest)
    → repeat n req ++ req ∷ rest ≡ req ∷ (repeat n req ++ rest)
repeat-suc zero req rest = refl
repeat-suc (suc n) req rest = ground (arith, repeat-suc n req rest)

-- the request with the headers of the client
abbrev pub signed : Client → HttpRequest → HttpRequest
signed c req = record req { headers = req.headers ++ c.default_headers }

module _ {S : Type 0} (h : Host S) where
  -- the state of the server after a request has come `n` times
  abbrev pub after : ℕ → HttpRequest → S → S
  after zero req s = s
  after (suc n) req s = after n req (h.execute req s).1

  -- what `execute` makes of an answer
  abbrev pub outcome_of : Option HttpResponse → Outcome HttpResponse
  outcome_of none = failed transport
  outcome_of (some resp) = done resp

  -- the longest waits of the rounds that are left
  abbrev pub allowance : ℕ → ℕ → ℕ
  allowance zero attempts = 0
  allowance (suc zero) attempts = 0
  allowance (suc (suc fuel)) attempts = 30 * (attempts + 1) + allowance (suc fuel) (attempts + 1)

  pub execute_lem :
      (c : Client) (req : HttpRequest) (p : Process S)
      → ((execute h c req p).0 ≡ outcome_of (h.execute (signed c req) p.server).0)
        × ((execute h c req p).1.sent ≡ signed c req ∷ p.sent)
        × ((execute h c req p).1.server ≡ (h.execute (signed c req) p.server).1)
        × ((execute h c req p).1.slept ≡ p.slept)
  unfolding execute exchange
  execute_lem c req p = elim (Option-cases (h.execute (signed c req) p.server).0) [
    | inl lost ↦ rw (lost, execute, exchange) (refl, refl, refl, refl)
    | inr (resp, came) ↦ rw (came, execute, exchange) (refl, refl, refl, refl)
  ]

  -- The request went out `rounds` times, the last answer is the result, and all answers before it
  -- had the status 429.
  pub record IsSent (c : Client) (req : HttpRequest) (attempts : ℕ) (p : Process S)
      (r : Outcome HttpResponse × Process S) : Type 0 where
    pub again : ℕ
    pub few : again + attempts ≤ 3
    pub result : r.0 ≡ outcome_of (h.execute (signed c req) (after again (signed c req) p.server)).0
    pub sent : r.1.sent ≡ repeat (suc again) (signed c req) ++ p.sent
    pub server : r.1.server ≡ after (suc again) (signed c req) p.server
    pub refused :
        (i : ℕ)
        → i < again
        → (resp : HttpResponse) × ((h.execute (signed c req) (after i (signed c req) p.server)).0
            ≡ some resp)
          × (resp.status ≡ 429)
    pub last :
        (resp : HttpResponse) → r.0 ≡ done resp → (resp.status ≢ 429) ⊎ (again + attempts ≡ 3)
    pub slept : r.1.slept ≤ p.slept + allowance (suc again) attempts

  wait_bound :
      (attempts : ℕ) (resp : HttpResponse) (s : ℕ)
      → s + wait_of attempts resp ≤ s + 30 * (attempts + 1)
  wait_bound attempts resp s =
      let le : min (retry_after resp) 30 ≤ 30 = omega arith in
      omega (arith, mul-le-mul_right (attempts + 1) le)

  back_off_lem :
      (attempts : ℕ) (resp : HttpResponse) (p : Process S)
      → ((back_off h attempts resp p).0 ≡ done tt)
        × ((back_off h attempts resp p).1.sent ≡ p.sent)
        × ((back_off h attempts resp p).1.server ≡ p.server)
        × ((back_off h attempts resp p).1.slept ≤ p.slept + 30 * (attempts + 1))
  unfolding back_off eprint sleep
  back_off_lem attempts resp p = (refl, refl, refl, wait_bound attempts resp p.slept)

  module _ (c : Client) (req : HttpRequest) (attempts : ℕ) (p : Process S) where
    once :
        attempts ≤ 3
        → ((resp : HttpResponse)
            → (h.execute (signed c req) p.server).0 ≡ some resp
            → (resp.status ≢ 429) ⊎ (attempts ≡ 3))
        → IsSent c req attempts p (execute h c req p)
    once le last =
        let (out, sent, server, slept) = execute_lem c req p in
        record {
          again = 0;
          few = omega arith;
          result = out;
          sent = sent;
          server = server;
          refused = λ i lt. absurd (omega arith);
          last = λ resp got.
              ground (arith, out, last resp, Option-cases (h.execute (signed c req) p.server).0);
          slept = omega (arith, slept);
        }

    final_eq :
        (fuel : ℕ) (resp : HttpResponse)
        → h.try_clone req ≡ true
        → (execute h c req p).0 ≡ done resp
        → is_final attempts resp ≡ true
        → send_loop h c (suc fuel) attempts req p ≡ execute h c req p
    unfolding send_loop
    final_eq fuel resp clone out end = rw (clone, out, end) refl

    lost_eq :
        (fuel : ℕ)
        → h.try_clone req ≡ true
        → (execute h c req p).0 ≡ failed transport
        → send_loop h c (suc fuel) attempts req p ≡ execute h c req p
    unfolding send_loop
    lost_eq fuel clone out = rw (clone, out) refl

    again_eq :
        (fuel : ℕ) (resp : HttpResponse)
        → h.try_clone req ≡ true
        → (execute h c req p).0 ≡ done resp
        → is_final attempts resp ≡ false
        → send_loop h c (suc fuel) attempts req p
          ≡ send_loop h c fuel (attempts + 1) req (back_off h attempts resp (execute h c req p).1).1
    unfolding send_loop
    again_eq fuel resp clone out more =
        let q = (execute h c req p).1 in
        let waits : back_off h attempts resp q ≡ (done tt, (back_off h attempts resp q).1) =
          ap (λ o. (o, (back_off h attempts resp q).1)) (back_off_lem attempts resp q).0 in
        rw (clone, out, more)
          (ap (λ x. continue x (λ _. send_loop h c fuel (attempts + 1) req)) waits)

  next_round :
      (c : Client) (req : HttpRequest) (attempts : ℕ) (p : Process S) (resp : HttpResponse)
      → (h.execute (signed c req) p.server).0 ≡ some resp
      → resp.status ≡ 429
      → (r : Outcome HttpResponse × Process S)
      → IsSent c req (attempts + 1) (back_off h attempts resp (execute h c req p).1).1 r
      → IsSent c req attempts p r
  next_round c req attempts p resp came limited r s =
      let (out, sent, server, slept) = execute_lem c req p in
      let (paused, sent', server', slept') = back_off_lem attempts resp (execute h c req p).1 in
      let moved = server' ∙ server in
      record {
        again = suc s.again;
        few = omega (arith, s.few);
        result =
            s.result
            ∙ ap (λ x. outcome_of (h.execute (signed c req) (after s.again (signed c req) x)).0)
                moved;
        sent =
            s.sent
            ∙ ap (λ x. signed c req ∷ (repeat s.again (signed c req) ++ x)) (sent' ∙ sent)
            ∙ ap (λ x. signed c req ∷ x) (repeat-suc s.again (signed c req) p.sent);
        server =
            s.server ∙ ap (λ x. after s.again (signed c req) (h.execute (signed c req) x).1) moved;
        refused = elim [
          | zero ↦ λ lt. (resp, came, limited)
          | suc i ↦ λ lt.
              let (x, got, status) = s.refused i (omega arith) in
              (
                x,
                ap (λ y. (h.execute (signed c req) (after i (signed c req) y)).0) (sym moved) ∙ got,
                status,
              )
        ];
        last = λ x got. ground (arith, s.last x got);
        slept = omega (arith, s.slept, slept', slept);
      }

  allowance_le : (again : ℕ) → again ≤ 3 → allowance (suc again) 0 ≤ 180
  allowance_le zero le = omega arith
  allowance_le (suc zero) le = omega arith
  allowance_le (suc (suc zero)) le = omega arith
  allowance_le (suc (suc (suc zero))) le = omega arith
  allowance_le (suc (suc (suc (suc n)))) le = absurd (omega arith)

  module _ (c : Client) (req : HttpRequest) (clone : h.try_clone req ≡ true) where
    round_lem :
        (fuel attempts : ℕ) (p : Process S)
        → fuel + attempts ≡ 3
        → (attempts ≢ 3
            → (q : Process S)
            → IsSent c req (attempts + 1) q (send_loop h c fuel (attempts + 1) req q))
        → IsSent c req attempts p (send_loop h c (suc fuel) attempts req p)
    round_lem fuel attempts p total rest =
        elim (Option-cases (h.execute (signed c req) p.server).0) [
          | inl lost ↦
              subst (IsSent c req attempts p)
                (sym (
                  lost_eq c req attempts p fuel clone
                    (ground (arith, lost, (execute_lem c req p).0))))
                (once c req attempts p (omega arith) (λ resp got. ground (arith, lost, got)))
          | inr (resp, came) ↦ elim (Bool-cases (is_final attempts resp)) [
            | inl final ↦
                subst (IsSent c req attempts p)
                  (sym (
                    final_eq c req attempts p fuel resp clone
                      (ground (arith, came, (execute_lem c req p).0)) final))
                  (once c req attempts p (omega arith) (λ x got. ground (arith, came, got, final)))
            | inr more ↦
                subst (IsSent c req attempts p)
                  (sym (
                    again_eq c req attempts p fuel resp clone
                      (ground (arith, came, (execute_lem c req p).0)) more))
                  (next_round c req attempts p resp came (ground (arith, more)) _ (
                    rest (ground (arith, more)) (back_off h attempts resp (execute h c req p).1).1))
          ]
        ]

    loop_lem :
        (fuel attempts : ℕ) (p : Process S)
        → fuel + attempts ≡ 3
        → IsSent c req attempts p (send_loop h c (suc fuel) attempts req p)
    loop_lem zero attempts p total = round_lem zero attempts p total (λ ne. absurd (omega arith))
    loop_lem (suc f) attempts p total =
        round_lem (suc f) attempts p total (λ ne q. loop_lem f (attempts + 1) q (omega arith))

-- The loop of `send_with_retry` ends within four rounds, whatever the server answers. The request
-- is sent at least once and at most four times, and only after an answer of status 429 again; the
-- last answer is the result, and where it is a 429 the request has been sent four times. The waits
-- together take at most three minutes. A request that cannot be cloned is sent once, with no wait.
pub send_with_retry-IsSent :
    {S : Type 0} (h : Host S) (c : Client) (req : HttpRequest) (p : Process S)
    → (h.try_clone req ≡ true
        → IsSent h c req 0 p (send_with_retry h c req p)
          × ((send_with_retry h c req p).1.slept ≤ p.slept + 180))
      × (h.try_clone req ≡ false → send_with_retry h c req p ≡ execute h c req p)
unfolding send_with_retry
send_with_retry-IsSent h c req p = (
  λ clone.
      let s = loop_lem h c req clone 3 0 p (omega arith) in
      (s, omega (arith, s.slept, allowance_le h s.again (omega (arith, s.few)))),
  λ single. rw (single, send_loop) refl,
)
