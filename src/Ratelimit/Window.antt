-- ===== src/Ratelimit/Window.antt =====
-- The map and the queues of src/ratelimit.rs: what each method leaves in the entries.
use aardbin.Prelude.{
  All, All-append, Bool, Bool-cases, List, [], arith, if◌then◌else◌, inl, inr, keep, ltb, map, refl,
  text_eq, text_eq_iff, ℕ, ◌++◌, ◌-◌, ◌<◌, ◌∷◌, ◌≡◌, ◌≤◌,
}
use aardbin.Ratelimit.{Failures, IpAddr, drain_old, entry, put_entry, remove, window}

pub entry-put_entry :
    (ip j : IpAddr) (q : List ℕ) (map : Failures)
    → entry j (put_entry ip q map) ≡ (if text_eq ip j then q else entry j map)
unfolding entry put_entry
entry-put_entry ip j q [] = refl
entry-put_entry ip j q ((o, old) ∷ map) =
    ground (arith, entry-put_entry ip j q map, text_eq_iff o ip, text_eq_iff o j, text_eq_iff ip j)

pub entry-remove :
    (ip j : IpAddr) (map : Failures)
    → entry j (remove ip map) ≡ (if text_eq ip j then [] else entry j map)
unfolding entry remove
entry-remove ip j [] = ground arith
entry-remove ip j ((o, old) ∷ map) =
    ground (arith, entry-remove ip j map, text_eq_iff o ip, text_eq_iff o j, text_eq_iff ip j)

-- A failure counts for as long as its age is below the window.
abbrev pub is_fresh : ℕ → ℕ → Bool
is_fresh now t = ltb (now - t) window

abbrev pub NotAfter : ℕ → List ℕ → Type 0
NotAfter now = All (λ t. t ≤ now)

pub NotAfter-mono : {t now : ℕ} (q : List ℕ) → t ≤ now → NotAfter t q → NotAfter now q
NotAfter-mono [] le h = tt
NotAfter-mono (s ∷ q) le (h, hs) = (omega arith, NotAfter-mono q le hs)

pub drain_old-NotAfter : (t now : ℕ) (q : List ℕ) → NotAfter t q → NotAfter t (drain_old q now)
unfolding drain_old
drain_old-NotAfter t now [] h = tt
drain_old-NotAfter t now (s ∷ q) h = ground (arith, drain_old-NotAfter t now q h.1)

-- What an earlier drain has popped, a later one would have popped too.
pub drain_old-drain_old :
    (q : List ℕ) (t now : ℕ) → t ≤ now → drain_old (drain_old q t) now ≡ drain_old q now
unfolding drain_old
drain_old-drain_old [] t now le = refl
drain_old-drain_old (s ∷ q) t now le = ground (arith, drain_old-drain_old q t now le)

drain_old_stale : (q : List ℕ) (t now : ℕ) → NotAfter t q → window ≤ now - t → drain_old q now ≡ []
unfolding drain_old
drain_old_stale [] t now h old = refl
drain_old_stale (s ∷ q) t now h old = ground (arith, drain_old_stale q t now h.1 old)

drain_old-append_fresh :
    (q : List ℕ) (t now : ℕ)
    → now - t < window
    → drain_old (q ++ t ∷ []) now ≡ drain_old q now ++ t ∷ []
unfolding drain_old
drain_old-append_fresh [] t now h = ground arith
drain_old-append_fresh (s ∷ q) t now h = ground (arith, drain_old-append_fresh q t now h)

drain_old-append_stale :
    (q : List ℕ) (t now : ℕ) → NotAfter t q → window ≤ now - t → drain_old (q ++ t ∷ []) now ≡ []
drain_old-append_stale q t now h old =
    drain_old_stale (q ++ t ∷ []) t now (All-append (λ s. s ≤ t) q (t ∷ []) h (omega arith, tt)) old

pub drain_old-append :
    (q : List ℕ) (t now : ℕ)
    → NotAfter t q
    → drain_old (q ++ t ∷ []) now ≡ (if is_fresh now t then drain_old q now ++ t ∷ [] else [])
drain_old-append q t now h = elim (Bool-cases (is_fresh now t)) [
  | inl e ↦ rw e (drain_old-append_fresh q t now (ground arith))
  | inr e ↦ rw e (drain_old-append_stale q t now h (ground arith))
]

keep_stale : (q : List ℕ) (t now : ℕ) → NotAfter t q → window ≤ now - t → keep (is_fresh now) q ≡ []
keep_stale [] t now h old = refl
keep_stale (s ∷ q) t now h old = ground (arith, keep_stale q t now h.1 old)

keep-append_fresh :
    (q : List ℕ) (t now : ℕ)
    → now - t < window
    → keep (is_fresh now) (q ++ t ∷ []) ≡ keep (is_fresh now) q ++ t ∷ []
keep-append_fresh [] t now h = ground arith
keep-append_fresh (s ∷ q) t now h = ground (arith, keep-append_fresh q t now h)

pub keep-append :
    (q : List ℕ) (t now : ℕ)
    → NotAfter t q
    → keep (is_fresh now) (q ++ t ∷ [])
      ≡ (if is_fresh now t then keep (is_fresh now) q ++ t ∷ [] else [])
keep-append q t now h = elim (Bool-cases (is_fresh now t)) [
  | inl e ↦ rw e (keep-append_fresh q t now (ground arith))
  | inr e ↦ rw e (
      keep_stale (q ++ t ∷ []) t now (All-append (λ s. s ≤ t) q (t ∷ []) h (omega arith, tt))
        (ground arith))
]
