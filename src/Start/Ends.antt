-- ===== src/Start/Ends.antt =====
-- How a task of a start ends: with a result and files that are of the one kind, or early, with files
-- of the other kind.
use mathlib.Core.Path.{subst}
use aardbin.Prelude.{Bool-cases, Option, arith, false, inl, inr, none, some, sym, true, ◌≡◌}
use aardbin.App.{head_fault}
use aardbin.Start.Volume.{Task, Volume, call, continue, spend}

abbrev EndsWith :
    {A : Type 0} → (A → Volume → Type 0) → (Volume → Type 0) → Option A × Volume → Type 0
EndsWith P Q (none, v) = Q v
EndsWith P Q (some a, v) = P a v

pub record Ends {A : Type 0} (P : A → Volume → Type 0) (Q : Volume → Type 0) (r : Option A × Volume)
    : Type 0 where
  pub how : EndsWith P Q r

module _ {A : Type 0} (f : Volume → Option (A × Volume)) (v : Volume) where
  call_refused : head_fault v.faults ≡ true → call f v ≡ (none, spend v)
  unfolding call
  call_refused bad = rw bad

  pub call_done :
      (a : A) (v' : Volume)
      → head_fault v.faults ≡ false
      → f (spend v) ≡ some (a, v')
      → call f v ≡ (some a, v')
  unfolding call
  call_done a v' good works = rw (good, works)

  pub call_stuck : f (spend v) ≡ none → call f v ≡ (none, spend v)
  unfolding call
  call_stuck stuck = ground (arith, stuck)

module _ {A : Type 0} {P : A → Volume → Type 0} {Q : Volume → Type 0} where
  pub Ends-continue :
      {B : Type 0} {P' : B → Volume → Type 0} (r : Option A × Volume) (f : A → Task B)
      → Ends P Q r
      → ((a : A) (v : Volume) → P a v → Ends P' Q (f a v))
      → Ends P' Q (continue r f)
  Ends-continue (none, v) f h next = record { how = h.how }
  Ends-continue (some a, v) f h next = next a v h.how

  -- a call that does its work, unless it fails
  pub Ends-call :
      (f : Volume → Option (A × Volume)) (v : Volume) (a : A) (v' : Volume)
      → f (spend v) ≡ some (a, v')
      → (head_fault v.faults ≡ true → Q (spend v))
      → P a v'
      → Ends P Q (call f v)
  Ends-call f v a v' works early done = elim (Bool-cases (head_fault v.faults)) [
    | inl bad ↦ subst (Ends P Q) (sym (call_refused f v bad)) (record { how = early bad })
    | inr good ↦ subst (Ends P Q) (sym (call_done f v a v' good works)) (record { how = done })
  ]

  -- a call that cannot do its work
  pub Ends-call-none :
      (f : Volume → Option (A × Volume)) (v : Volume)
      → f (spend v) ≡ none
      → Q (spend v)
      → Ends P Q (call f v)
  Ends-call-none f v stuck early =
      subst (Ends P Q) (sym (call_stuck f v stuck)) (record { how = early })

  pub Ends-mono :
      {P' : A → Volume → Type 0} {Q' : Volume → Type 0} (r : Option A × Volume)
      → Ends P Q r
      → ((a : A) (v : Volume) → P a v → P' a v)
      → ((v : Volume) → Q v → Q' v)
      → Ends P' Q' r
  Ends-mono (none, v) h one other = record { how = other v h.how }
  Ends-mono (some a, v) h one other = record { how = one a v h.how }
