-- ===== src/Prelude/Decimal.antt =====
-- Printing a `u64` in decimal and `parse::<u64>`.
use aardbin.Prelude.Tests.{ltb, ◌==◌, if◌then◌else◌}
use aardbin.Prelude.Lists.{All, length}
use aardbin.Prelude.Str.{Text, is_digit, Avoids}
use Prim.Native.Nat.{ℕ, zero, suc, ◌+◌, ◌-◌, ◌*◌, ◌/◌, ◌%◌, ◌^◌, ◌≤◌, ◌<◌}
use mathlib.Core.Path.{◌≡◌, ◌∙◌}
use mathlib.Core.Logic.{◌⊎◌}
use mathlib.Core.Bool.{◌&&◌}
use mathlib.Core.Option.{Option, none, some}
use mathlib.Core.List.{[], ◌∷◌}
use native.Mathlib.Omega.{arith}
use native.Mathlib.Nat.{pow-suc}

abbrev pub u64_mod : ℕ
u64_mod = 2 ^ 64

-- The digits of `n` in front of `tail`; `fuel` bounds their number.
unfoldable pub show_from : ℕ → ℕ → Text → Text
show_from zero n tail = tail
show_from (suc fuel) n tail =
    let more = show_from fuel (n / 10) ((b'0' + n % 10) ∷ tail) in
    if n / 10 == 0 then (b'0' + n % 10) ∷ tail else more

-- `to_string` of a `u64`, which has at most twenty digits
unfoldable pub show_u64 : ℕ → Text
show_u64 n = show_from 20 n []

-- The digits are read from the left; a value past the type is an error.
parse_from : ℕ → Text → Option ℕ
parse_from n [] = some n
parse_from n (c ∷ s) =
    if is_digit c && ltb (n * 10 + (c - b'0')) u64_mod
    then parse_from (n * 10 + (c - b'0')) s
    else none

parse_digits : Text → Option ℕ
unfolding parse_from
parse_digits [] = none
parse_digits (c ∷ s) = parse_from 0 (c ∷ s)

-- `parse::<u64>()`: one leading plus sign is accepted, and an empty text is not
unfoldable pub parse_u64 : Text → Option ℕ
unfolding parse_digits
parse_u64 [] = none
parse_u64 (c ∷ s) = if c == b'+' then parse_digits s else parse_digits (c ∷ s)

-- Reading the printed digits puts the number in front of what follows them.
parse_from-show_from :
    (fuel n : ℕ) (tail : Text)
    → n < 10 ^ fuel
    → n < u64_mod
    → parse_from 0 (show_from fuel n tail) ≡ parse_from n tail
unfolding show_from parse_from
parse_from-show_from zero n tail h b = ground arith
parse_from-show_from (suc fuel) n tail h b =
    let wide : n < 10 * 10 ^ fuel = omega (arith, pow-suc 10 fuel) in
    ground (arith, parse_from-show_from fuel (n / 10) ((b'0' + n % 10) ∷ tail))

abbrev pub IsDigit : ℕ → Type 0
IsDigit c = (b'0' ≤ c) × (c ≤ b'9')

abbrev StartsWithDigit : Text → Type 0
StartsWithDigit [] = ⊥
StartsWithDigit (c ∷ s) = IsDigit c

show_from-StartsWithDigit :
    (fuel n : ℕ) (tail : Text) → StartsWithDigit tail → StartsWithDigit (show_from fuel n tail)
unfolding show_from
show_from-StartsWithDigit zero n tail h = h
show_from-StartsWithDigit (suc fuel) n tail h =
    ground (arith, show_from-StartsWithDigit fuel (n / 10) ((b'0' + n % 10) ∷ tail) (omega arith))

parse_u64_of_StartsWithDigit : (s : Text) → StartsWithDigit s → parse_u64 s ≡ parse_from 0 s
unfolding parse_u64
parse_u64_of_StartsWithDigit [] h = absurd h
parse_u64_of_StartsWithDigit (c ∷ s) h = ground arith

show_from-suc-StartsWithDigit :
    (fuel n : ℕ) (tail : Text) → StartsWithDigit (show_from (suc fuel) n tail)
unfolding show_from
show_from-suc-StartsWithDigit fuel n tail =
    ground (arith, show_from-StartsWithDigit fuel (n / 10) ((b'0' + n % 10) ∷ tail) (omega arith))

show_u64-StartsWithDigit : (n : ℕ) → StartsWithDigit (show_u64 n)
unfolding show_u64
show_u64-StartsWithDigit n = show_from-suc-StartsWithDigit 19 n []

StartsWithDigit-length : (s : Text) → StartsWithDigit s → 1 ≤ length s
StartsWithDigit-length [] h = absurd h
StartsWithDigit-length (c ∷ s) h = omega arith

pub length-show_u64 : (n : ℕ) → 1 ≤ length (show_u64 n)
length-show_u64 n = StartsWithDigit-length (show_u64 n) (show_u64-StartsWithDigit n)

pub parse_u64-show_u64 : (n : ℕ) → n < u64_mod → parse_u64 (show_u64 n) ≡ some n
parse_u64-show_u64 n h =
    parse_u64_of_StartsWithDigit (show_u64 n) (show_u64-StartsWithDigit n)
    ∙ (unfold show_u64 parse_from in parse_from-show_from 20 n [] (omega arith) h)

-- No character of a printed number is outside the digits.
show_from-Avoids :
    (c fuel n : ℕ) (tail : Text)
    → b'9' < c ⊎ (c < b'0')
    → Avoids c tail
    → Avoids c (show_from fuel n tail)
unfolding show_from
show_from-Avoids c zero n tail out h = h
show_from-Avoids c (suc fuel) n tail out h =
    ground (arith, show_from-Avoids c fuel (n / 10) ((b'0' + n % 10) ∷ tail) out)

pub show_u64-Avoids : (c n : ℕ) → b'9' < c ⊎ (c < b'0') → Avoids c (show_u64 n)
unfolding show_u64
show_u64-Avoids c n out = show_from-Avoids c 20 n [] out tt

-- A text that parses is a number of the type.
parse_from-lt : (n : ℕ) (s : Text) (m : ℕ) → n < u64_mod → parse_from n s ≡ some m → m < u64_mod
unfolding parse_from
parse_from-lt n [] m b h = ground arith
parse_from-lt n (c ∷ s) m b h = ground (arith, parse_from-lt (n * 10 + (c - b'0')) s m)

parse_digits-lt : (s : Text) (m : ℕ) → parse_digits s ≡ some m → m < u64_mod
unfolding parse_digits
parse_digits-lt [] m h = ground arith
parse_digits-lt (c ∷ s) m h = parse_from-lt 0 (c ∷ s) m (omega arith) h

show_from-IsDigit :
    (fuel n : ℕ) (tail : Text) → All IsDigit tail → All IsDigit (show_from fuel n tail)
unfolding show_from
show_from-IsDigit zero n tail h = h
show_from-IsDigit (suc fuel) n tail h =
    ground (arith, show_from-IsDigit fuel (n / 10) ((b'0' + n % 10) ∷ tail))

pub show_u64-IsDigit : (n : ℕ) → All IsDigit (show_u64 n)
unfolding show_u64
show_u64-IsDigit n = show_from-IsDigit 20 n [] tt

pub parse_u64-lt : (s : Text) (m : ℕ) → parse_u64 s ≡ some m → m < u64_mod
unfolding parse_u64
parse_u64-lt [] m h = ground arith
parse_u64-lt (c ∷ s) m h = ground (arith, parse_digits-lt s m, parse_digits-lt (c ∷ s) m)

-- A text that parses holds no full stop.
parse_from-Avoids : (n : ℕ) (s : Text) (m : ℕ) → parse_from n s ≡ some m → Avoids b'.' s
unfolding parse_from
parse_from-Avoids n [] m h = tt
parse_from-Avoids n (c ∷ s) m h = ground (arith, parse_from-Avoids (n * 10 + (c - b'0')) s m)

parse_digits-Avoids : (s : Text) (m : ℕ) → parse_digits s ≡ some m → Avoids b'.' s
unfolding parse_digits
parse_digits-Avoids [] m h = tt
parse_digits-Avoids (c ∷ s) m h = parse_from-Avoids 0 (c ∷ s) m h

pub parse_u64-Avoids : (s : Text) (m : ℕ) → parse_u64 s ≡ some m → Avoids b'.' s
unfolding parse_u64
parse_u64-Avoids [] m h = tt
parse_u64-Avoids (c ∷ s) m h =
    ground (arith, parse_digits-Avoids s m, parse_digits-Avoids (c ∷ s) m)
