-- ===== src/Cookies.antt =====
-- The Cookie header as a client writes it, and the pieces that the two readers of it
-- (src/session.rs, src/i18n.rs) make of it: `header.split(';')`, each piece trimmed.
use aardbin.Prelude.{
  All, All-append, Avoids, List, Text, [], ap, append-nil, arith, false, if◌then◌else◌,
  is_whitespace, none, refl, some, split, strip_prefix, text_eq, trim, trim_end_by, trim_start_by,
  ℕ, ◌++◌, ◌∷◌, ◌≡◌, ◌≢◌,
}

-- A cookie is `name=value`; cookies are joined by "; ".
abbrev pub Cookie : Type 0
Cookie = Text × Text

abbrev pub show_cookie : Cookie → Text
show_cookie (name, value) = name ++ b'=' ∷ value

abbrev pub show_more : List Cookie → Text
show_more [] = []
show_more (c ∷ cs) = b';' ∷ b' ' ∷ (show_cookie c ++ show_more cs)

abbrev pub show_cookies : List Cookie → Text
show_cookies [] = []
show_cookies (c ∷ cs) = show_cookie c ++ show_more cs

-- `header.split(';')` with `pair.trim()`
abbrev pub trim_all : List Text → List Text
trim_all [] = []
trim_all (p ∷ ps) = trim p ∷ trim_all ps

unfoldable pub cookie_pairs : Text → List Text
cookie_pairs header = trim_all (split b';' header)

-- What RFC 6265 lets a name or a value hold: no whitespace and no semicolon; a name no `=` too.
abbrev pub IsToken : Text → Type 0
IsToken = All (λ c. (is_whitespace c ≡ false) × (c ≢ b';'))

abbrev pub IsCookie : Cookie → Type 0
IsCookie (name, value) = IsToken name × Avoids b'=' name × IsToken value

IsToken-Avoids : (s : Text) → IsToken s → Avoids b';' s
IsToken-Avoids [] h = tt
IsToken-Avoids (c ∷ s) h = (h.0.1, IsToken-Avoids s h.1)

Avoids-append : (c : ℕ) (s t : Text) → Avoids c s → Avoids c t → Avoids c (s ++ t)
Avoids-append c [] t h k = k
Avoids-append c (x ∷ s) t h k = (h.0, Avoids-append c s t h.1 k)

split_whole : (c : ℕ) (s : Text) → Avoids c s → split c s ≡ s ∷ []
split_whole c [] h = refl
split_whole c (x ∷ s) h = ground (arith, split_whole c s h.1)

split-append : (c : ℕ) (s t : Text) → Avoids c s → split c (s ++ c ∷ t) ≡ s ∷ split c t
split-append c [] t h = ground arith
split-append c (x ∷ s) t h = ground (arith, split-append c s t h.1)

trim_end_token : (s : Text) → IsToken s → trim_end_by is_whitespace s ≡ s
trim_end_token [] h = refl
trim_end_token (c ∷ []) h = rw (h.0.0)
trim_end_token (c ∷ d ∷ s) h = rw (trim_end_token (d ∷ s) h.1)

trim_start_token : (s : Text) → IsToken s → trim_start_by is_whitespace s ≡ s
trim_start_token [] h = refl
trim_start_token (c ∷ s) h = rw (h.0.0)

pub trim_token : (s : Text) → IsToken s → trim s ≡ s
trim_token s h = rw (trim_start_token s h) (trim_end_token s h)

trim_spaced : (s : Text) → IsToken s → trim (b' ' ∷ s) ≡ s
trim_spaced s h = trim_token s h

show_cookie-IsToken : (c : Cookie) → IsCookie c → IsToken (show_cookie c)
show_cookie-IsToken (name, value) (n, _, v) =
    All-append (λ c. (is_whitespace c ≡ false) × (c ≢ b';')) name (b'=' ∷ value) n
      ((refl, omega arith), v)

abbrev pub show_all : List Cookie → List Text
show_all [] = []
show_all (c ∷ cs) = show_cookie c ∷ show_all cs

split_more :
    (s : Text) (cs : List Cookie)
    → IsToken s
    → All IsCookie cs
    → trim_all (split b';' (b' ' ∷ (s ++ show_more cs))) ≡ s ∷ show_all cs
split_more s [] h k =
    rw (append-nil s, split_whole b';' s (IsToken-Avoids s h))
      (ap (λ (t : Text). t ∷ []) (trim_spaced s h))
split_more s (c ∷ cs) h (k, ks) =
    rw (split-append b';' s (b' ' ∷ (show_cookie c ++ show_more cs)) (IsToken-Avoids s h)) (
      rw (trim_spaced s h) (
        ap (λ (t : List Text). s ∷ t) (split_more (show_cookie c) cs (show_cookie-IsToken c k) ks)))

split_first :
    (s : Text) (cs : List Cookie)
    → IsToken s
    → All IsCookie cs
    → trim_all (split b';' (s ++ show_more cs)) ≡ s ∷ show_all cs
split_first s [] h k =
    rw (append-nil s, split_whole b';' s (IsToken-Avoids s h))
      (ap (λ (t : Text). t ∷ []) (trim_token s h))
split_first s (c ∷ cs) h (k, ks) =
    rw (split-append b';' s (b' ' ∷ (show_cookie c ++ show_more cs)) (IsToken-Avoids s h)) (
      rw (trim_token s h) (
        ap (λ (t : List Text). s ∷ t) (split_more (show_cookie c) cs (show_cookie-IsToken c k) ks)))

-- The pieces of a header are the cookies that were written into it.
pub cookie_pairs-show_cookies :
    (c : Cookie) (cs : List Cookie)
    → All IsCookie (c ∷ cs)
    → cookie_pairs (show_cookies (c ∷ cs)) ≡ show_all (c ∷ cs)
unfolding cookie_pairs
cookie_pairs-show_cookies c cs (k, ks) = split_first (show_cookie c) cs (show_cookie-IsToken c k) ks

-- `strip_prefix("NAME=")` on a cookie finds its value exactly if it has that name.
pub strip_prefix-show_cookie :
    (name : Text) (c : Cookie)
    → Avoids b'=' name
    → Avoids b'=' c.0
    → strip_prefix (name ++ b'=' ∷ []) (show_cookie c)
      ≡ (if text_eq name c.0 then some c.1 else none)
unfolding strip_prefix
strip_prefix-show_cookie [] ([], v) h k = ground arith
strip_prefix-show_cookie [] (x ∷ n, v) h k = ground arith
strip_prefix-show_cookie (y ∷ m) ([], v) h k = ground arith
strip_prefix-show_cookie (y ∷ m) (x ∷ n, v) h k =
    ground (arith, strip_prefix-show_cookie m (n, v) h.1 k.1)
