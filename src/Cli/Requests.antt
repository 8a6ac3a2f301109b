-- ===== src/Cli/Requests.antt =====
-- The requests that a command of src/cli/src/main.rs sends.
use aardbin.Prelude.{
  All, All-append, Bool, List, [], ap, append_assoc, arith, false, if◌then◌else◌, length,
  length-append, refl, sym, true, ℕ, ◌++◌, ◌+◌, ◌∙◌, ◌∷◌, ◌≡◌, ◌≢◌, ◌≤◌,
}
use aardbin.Cli.Host.{
  Action, Failure, Host, HttpRequest, Outcome, Process, continue, done, fail, failed, fuel_spent,
  pure, ◌>>=◌,
}

module _ {S : Type 0} (h : Host S) where
  -- the state of the server after the requests, the last one first
  abbrev pub replayed : List HttpRequest → S → S
  replayed [] s = s
  replayed (req ∷ reqs) s = (h.execute req (replayed reqs s)).1

  replayed-append :
      (new old : List HttpRequest) (s : S) → replayed (new ++ old) s ≡ replayed new (replayed old s)
  replayed-append [] old s = refl
  replayed-append (req ∷ new) old s = ap (λ x. (h.execute req x).1) (replayed-append new old s)

  -- At most `n` requests were sent, each as `P` says, and there was no wait.
  pub record Does (P : HttpRequest → Type 0) (n : ℕ) (p p' : Process S) : Type 0 where
    pub new : List HttpRequest
    pub few : length new ≤ n
    pub each : All P new
    pub sent : p'.sent ≡ new ++ p.sent
    pub server : p'.server ≡ replayed new p.server
    pub slept : p'.slept ≡ p.slept

  pub record Makes (P : HttpRequest → Type 0) (n : ℕ) {A : Type 0} (m : Action S A) : Type 0 where
    pub does : (p : Process S) → Does P n p (m p).1
    pub ends : (p : Process S) → (m p).0 ≢ failed fuel_spent

  module _ {P : HttpRequest → Type 0} where
    pub Does-none :
        {n : ℕ} {p p' : Process S}
        → p'.sent ≡ p.sent
        → p'.server ≡ p.server
        → p'.slept ≡ p.slept
        → Does P n p p'
    Does-none sent server slept = record {
      new = [];
      few = omega arith;
      each = tt;
      sent = sent;
      server = server;
      slept = slept;
    }

    pub Does-le : {n k : ℕ} {p q : Process S} → n ≤ k → Does P n p q → Does P k p q
    Does-le le d = record {
      new = d.new;
      few = omega (arith, d.few, le);
      each = d.each;
      sent = d.sent;
      server = d.server;
      slept = d.slept;
    }

    pub Does-trans :
        {n k : ℕ} {p q r : Process S} → Does P n p q → Does P k q r → Does P (n + k) p r
    Does-trans {p = p} a b = record {
      new = b.new ++ a.new;
      few = omega (arith, length-append b.new a.new, a.few, b.few);
      each = All-append P b.new a.new b.each a.each;
      sent = b.sent ∙ ap (λ x. b.new ++ x) a.sent ∙ sym (append_assoc b.new a.new p.sent);
      server = b.server ∙ ap (replayed b.new) a.server ∙ sym (replayed-append b.new a.new p.server);
      slept = b.slept ∙ a.slept;
    }

    module _ {A : Type 0} where
      pub Makes-pure : (a : A) → Makes P 0 (pure {S = S} a)
      Makes-pure a = record { does = λ p. Does-none refl refl refl; ends = λ p. cc }

      pub Makes-fail : {why : Failure} → why ≢ fuel_spent → Makes P 0 (fail {S = S} {A = A} why)
      Makes-fail ne = record { does = λ p. Does-none refl refl refl; ends = λ p e. ne cc }

      pub Makes-if :
          {n : ℕ} (b : Bool) {m k : Action S A}
          → Makes P n m
          → Makes P n k
          → Makes P n (if b then m else k)
      Makes-if true hm hk = hm
      Makes-if false hm hk = hk

      pub Makes-weaken : {n k : ℕ} {m : Action S A} → n ≤ k → Makes P n m → Makes P k m
      Makes-weaken le hm = record { does = λ p. Does-le le (hm.does p); ends = hm.ends }

    module _ {A B : Type 0} where
      continue_lem :
          {n k : ℕ} (f : A → Action S B) (p : Process S) (r : Outcome A × Process S)
          → Does P n p r.1
          → r.0 ≢ failed fuel_spent
          → ((a : A) → Makes P k (f a))
          → Does P (n + k) p (continue r f).1 × ((continue r f).0 ≢ failed fuel_spent)
      continue_lem f p (done a, q) d ne kf = (Does-trans d ((kf a).does q), (kf a).ends q)
      continue_lem f p (failed why, q) d ne kf = (Does-le (omega arith) d, λ e. ne (ap failed cc))

      pub Makes-bind :
          {n k : ℕ} {m : Action S A} {f : A → Action S B}
          → Makes P n m
          → ((a : A) → Makes P k (f a))
          → Makes P (n + k) (m >>= f)
      Makes-bind {m} {f} hm kf = record {
        does = λ p. (continue_lem f p (m p) (hm.does p) (hm.ends p) kf).0;
        ends = λ p. (continue_lem f p (m p) (hm.does p) (hm.ends p) kf).1;
      }
