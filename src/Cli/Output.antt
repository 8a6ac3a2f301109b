-- ===== src/Cli/Output.antt =====
-- What a command of src/cli/src/main.rs prints and writes where it fails.
use aardbin.Prelude.{Bool, Option, false, if◌then◌else◌, none, refl, some, true, ◌∙◌, ◌≡◌, ◌≢◌}
use aardbin.Cli.Host.{
  Action, Failure, Outcome, Process, continue, done, fail, failed, or_fail, pure, ◌>>=◌,
}

module _ {S : Type 0} where
  -- Nothing was printed to the standard output, and no file was written.
  pub record IsSilent (p p' : Process S) : Type 0 where
    pub stdout : p'.stdout ≡ p.stdout
    pub written : p'.written ≡ p.written

  pub silent : (p : Process S) → IsSilent p p
  silent p = record { stdout = refl; written = refl }

  pub IsSilent-trans : {p q r : Process S} → IsSilent p q → IsSilent q r → IsSilent p r
  IsSilent-trans a b = record { stdout = b.stdout ∙ a.stdout; written = b.written ∙ a.written }

  -- Silent however it ends, silent where it fails, and never failing.
  pub record IsMute {A : Type 0} (m : Action S A) : Type 0 where
    pub at : (p : Process S) → IsSilent p (m p).1

  pub record IsClean {A : Type 0} (m : Action S A) : Type 0 where
    pub at : (p : Process S) (why : Failure) → (m p).0 ≡ failed why → IsSilent p (m p).1

  pub record IsTotal {A : Type 0} (m : Action S A) : Type 0 where
    pub at : (p : Process S) (why : Failure) → (m p).0 ≢ failed why

  module _ {A : Type 0} where
    pub IsClean-of_IsMute : {m : Action S A} → IsMute m → IsClean m
    IsClean-of_IsMute mute = record { at = λ p why e. mute.at p }

    pub IsClean-of_IsTotal : {m : Action S A} → IsTotal m → IsClean m
    IsClean-of_IsTotal total = record { at = λ p why e. absurd (total.at p why e) }

    pub IsMute-pure : (a : A) → IsMute (pure a)
    IsMute-pure a = record { at = λ p. silent p }

    pub IsMute-fail : (why : Failure) → IsMute (fail {A = A} why)
    IsMute-fail why = record { at = λ p. silent p }

    pub IsMute-or_fail : (why : Failure) (o : Option A) → IsMute (or_fail why o)
    IsMute-or_fail why none = IsMute-fail why
    IsMute-or_fail why (some a) = IsMute-pure a

    pub IsMute-if :
        (b : Bool) {m k : Action S A} → IsMute m → IsMute k → IsMute (if b then m else k)
    IsMute-if true hm hk = hm
    IsMute-if false hm hk = hk

    pub IsClean-if :
        (b : Bool) {m k : Action S A} → IsClean m → IsClean k → IsClean (if b then m else k)
    IsClean-if true hm hk = hm
    IsClean-if false hm hk = hk

  module _ {A B : Type 0} (f : A → Action S B) where
    continue-mute :
        (p : Process S) (r : Outcome A × Process S)
        → IsSilent p r.1
        → ((a : A) → IsMute (f a))
        → IsSilent p (continue r f).1
    continue-mute p (done a, q) s kf = IsSilent-trans s ((kf a).at q)
    continue-mute p (failed why, q) s kf = s

    continue-clean :
        (p : Process S) (r : Outcome A × Process S) (why : Failure)
        → IsSilent p r.1
        → ((a : A) → IsClean (f a))
        → (continue r f).0 ≡ failed why
        → IsSilent p (continue r f).1
    continue-clean p (done a, q) why s kf e = IsSilent-trans s ((kf a).at q why e)
    continue-clean p (failed x, q) why s kf e = s

    continue-end :
        (p : Process S) (r : Outcome A × Process S) (why : Failure)
        → ((x : Failure) → r.0 ≡ failed x → IsSilent p r.1)
        → ((a : A) → IsTotal (f a))
        → (continue r f).0 ≡ failed why
        → IsSilent p (continue r f).1
    continue-end p (done a, q) why s kf e = absurd ((kf a).at q why e)
    continue-end p (failed x, q) why s kf e = s x refl

    continue-total :
        (r : Outcome A × Process S) (why : Failure)
        → ((x : Failure) → r.0 ≢ failed x)
        → ((a : A) → IsTotal (f a))
        → (continue r f).0 ≢ failed why
    continue-total (done a, q) why s kf = (kf a).at q why
    continue-total (failed x, q) why s kf = absurd (s x refl)

    module _ {m : Action S A} where
      pub IsMute-bind : IsMute m → ((a : A) → IsMute (f a)) → IsMute (m >>= f)
      IsMute-bind hm kf = record { at = λ p. continue-mute p (m p) (hm.at p) kf }

      pub IsClean-bind : IsMute m → ((a : A) → IsClean (f a)) → IsClean (m >>= f)
      IsClean-bind hm kf = record { at = λ p why. continue-clean p (m p) why (hm.at p) kf }

      pub IsClean-end : IsClean m → ((a : A) → IsTotal (f a)) → IsClean (m >>= f)
      IsClean-end hm kf = record { at = λ p why. continue-end p (m p) why (hm.at p) kf }

      pub IsTotal-bind : IsTotal m → ((a : A) → IsTotal (f a)) → IsTotal (m >>= f)
      IsTotal-bind hm kf = record { at = λ p why. continue-total (m p) why (hm.at p) kf }
