-- ===== src/Render/Titles.antt =====
-- The texts of src/render.rs: how long they are, and when the placeholder stands in.
use mathlib.Core.Path.{subst}
use aardbin.Prelude.{
  Avoids, List, Bool-cases, Text, [], arith, leb, refl, split, ◌==◌, codes, drop, inl, inr, length,
  length-append, length-take, sym, take, take-append-drop, trim, true, ℕ, ◌++◌, ◌+◌, ◌<◌, ◌↔◌, ◌∷◌,
  ◌≡◌, ◌≤◌,
}
use aardbin.I18n.{Lang, t}
use aardbin.Render.{
  display_title, drop_last_empty, first_or_empty, is_empty, lines, strip_return, truncate_chars,
}

-- A text is cut only if it is longer than allowed; then it ends with the ellipsis, one character
-- over the limit, and what stands before is the start of the text.
pub truncate_chars_lem :
    (s : Text) (n : ℕ)
    → (length s ≤ n → truncate_chars s n ≡ s)
      × (n < length s
          → (rest : Text) × (s ≡ take n s ++ rest)
            × (truncate_chars s n ≡ take n s ++ 0x2026 ∷ [])
            × (length (truncate_chars s n) ≡ n + 1))
unfolding truncate_chars
truncate_chars_lem s n = (
  λ h. ground (arith, h),
  λ h. (
    drop n s,
    sym (take-append-drop n s),
    ground (arith, h),
    ground (arith, h, length-append (take n s) (0x2026 ∷ []), length-take n s),
  ),
)

-- What is shown of a text within a limit: the text, or so many of its characters and an ellipsis.
pub data IsCut (s : Text) (n : ℕ) : Text → Type 0 where
  whole : length s ≤ n → IsCut s n s
  shortened : n < length s → IsCut s n (take n s ++ 0x2026 ∷ [])

pub truncate_chars-IsCut : (s : Text) (n : ℕ) → IsCut s n (truncate_chars s n)
truncate_chars-IsCut s n = elim (Bool-cases (leb (length s) n)) [
  | inl short ↦
      let le : length s ≤ n = ground (arith, short) in
      subst (IsCut s n) (sym ((truncate_chars_lem s n).0 le)) (whole le)
  | inr long ↦
      let lt : n < length s = ground (arith, long) in
      subst (IsCut s n) (sym ((truncate_chars_lem s n).1 lt).2) (shortened lt)
]

split_one : (line : Text) → Avoids 10 line → split 10 line ≡ line ∷ []
split_one [] h = refl
split_one (c ∷ s) h = ground (arith, split_one s h.1, h.0)

split_more :
    (line rest : Text) → Avoids 10 line → split 10 (line ++ 10 ∷ rest) ≡ line ∷ split 10 rest
split_more [] rest h = refl
split_more (c ∷ s) rest h = ground (arith, split_more s rest h.1, h.0)

strip_return-none : (line : Text) → Avoids 13 line → strip_return line ≡ line
strip_return-none [] h = refl
strip_return-none (c ∷ []) h = ground (arith, h.0)
strip_return-none (c ∷ d ∷ s) h = rw (strip_return-none (d ∷ s) h.1) refl

-- The content is one line, or it has more lines behind a first one.
pub data StartsWith (line : Text) : Text → Type 0 where
  alone : StartsWith line line
  followed : (rest : Text) → StartsWith line (line ++ 10 ∷ rest)

first_of_more :
    (line : Text) (ls : List Text)
    → Avoids 13 line
    → (l : Text) × (more : List Text) × (ls ≡ l ∷ more)
    → first_or_empty (drop_last_empty (line ∷ ls)) ≡ line
first_of_more line ls h (l, more, same) = rw same (strip_return-none line h)

split_full : (s : Text) → (l : Text) × (more : List Text) × (split 10 s ≡ l ∷ more)
split_full [] = ([], [], refl)
split_full (c ∷ s) = elim (Bool-cases (c == 10)) [
  | inl feed ↦ ([], split 10 s, ground (arith, feed))
  | inr other_char ↦ let (l, more, same) = split_full s in (c ∷ l, more, rw (other_char, same) refl)
]

first_line :
    (line content : Text)
    → Avoids 10 line
    → Avoids 13 line
    → StartsWith line content
    → first_or_empty (lines content) ≡ line
unfolding lines
first_line [] _ feed no_return alone = refl
first_line (c ∷ s) _ feed no_return alone = rw (split_one (c ∷ s) feed) refl
first_line line _ feed no_return (followed rest) =
    rw (split_more line rest feed) (first_of_more line (split 10 rest) no_return (split_full rest))

-- A blank text is white space only.
abbrev pub IsBlank : Text → Type 0
IsBlank s = trim s ≡ []

IsBlank-iff : (s : Text) → (is_empty (trim s) ≡ true) ↔ IsBlank s
IsBlank-iff s = by_trim (trim s)
  where
    by_trim : (r : Text) → (is_empty r ≡ true) ↔ (r ≡ [])
    by_trim [] = (λ h. refl, λ h. refl)
    by_trim (c ∷ r) = (λ h. absurd (ground (arith, h)), λ h. absurd (ground (arith, h)))

-- Take a content that begins with a line, free of carriage returns. The flag is set exactly if title
-- and line are both blank, and then the title is the placeholder of the language. A title that is
-- not blank is shown trimmed, up to 200 characters and an ellipsis if it is longer; else a line that
-- is not blank is shown trimmed, up to 80 characters and an ellipsis.
pub display_title_lem :
    (title line content : Text) (lang : Lang)
    → Avoids 10 line
    → Avoids 13 line
    → StartsWith line content
    → ((display_title title content lang).1 ≡ true ↔ IsBlank title × IsBlank line)
      × (IsBlank title
          → IsBlank line
          → (display_title title content lang).0 ≡ t lang (codes "records.untitled"))
      × (¬ IsBlank title → IsCut (trim title) 200 (display_title title content lang).0)
      × (IsBlank title → ¬ IsBlank line → IsCut (trim line) 80 (display_title title content lang).0)
unfolding display_title
display_title_lem title line content lang feed no_return starts =
    let first = first_line line content feed no_return starts in
    elim (Bool-cases (is_empty (trim title))) [
      | inl a ↦
          let a' = (IsBlank-iff title).0 a in
          elim (Bool-cases (is_empty (trim line))) [
            | inl b ↦
                let b' = (IsBlank-iff line).0 b in
                (
                  ground (arith, a, b, a', b', first),
                  λ h k. ground (arith, a, b, first),
                  λ h. absurd (h a'),
                  λ h k. absurd (k b'),
                )
            | inr b ↦ (
              ground (arith, a, b, first, IsBlank-iff line),
              λ h k. absurd (ground (arith, k, b, IsBlank-iff line)),
              λ h. absurd (h a'),
              λ h k.
                  subst (IsCut (trim line) 80) (ground (arith, a, b, first))
                    (truncate_chars-IsCut (trim line) 80),
            )
          ]
      | inr a ↦ (
        ground (arith, a, IsBlank-iff title),
        λ h k. absurd (ground (arith, h, a, IsBlank-iff title)),
        λ h.
            subst (IsCut (trim title) 200) (ground (arith, a))
              (truncate_chars-IsCut (trim title) 200),
        λ h. absurd (ground (arith, h, a, IsBlank-iff title)),
      )
    ]
