-- ===== src/Render.antt =====
-- src/render.rs: the texts that the lists show. The templates are `minijinja`'s.
pub mod Titles
mod Tests
use aardbin.Prelude.{
  Bool, List, Text, [], codes, false, if◌then◌else◌, leb, length, max, not, split, take, trim, true,
  ℕ, ◌++◌, ◌==◌, ◌∷◌,
}
use aardbin.I18n.{Lang, t}

-- Truncation by characters, with an ellipsis.
unfoldable pub truncate_chars : Text → ℕ → Text
truncate_chars s max = if leb (length s) max then s else take max s ++ 0x2026 ∷ []

-- The carriage return before a line feed is not part of the line.
abbrev pub strip_return : Text → Text
strip_return [] = []
strip_return (c ∷ s) = elim s [ [] ↦ if c == 13 then [] else c ∷ [] | d ∷ r ↦ c ∷ strip_return s ]

-- `str::lines`: a last line that is empty is not counted.
abbrev pub drop_last_empty : List Text → List Text
drop_last_empty [] = []
drop_last_empty ([] ∷ []) = []
drop_last_empty ((c ∷ s) ∷ []) = (c ∷ s) ∷ []
drop_last_empty (p ∷ q ∷ qs) = strip_return p ∷ drop_last_empty (q ∷ qs)

unfoldable pub lines : Text → List Text
lines s = drop_last_empty (split 10 s)

abbrev pub first_or_empty : List Text → Text
first_or_empty [] = []
first_or_empty (l ∷ ls) = l

abbrev pub is_empty : Text → Bool
is_empty [] = true
is_empty (c ∷ s) = false

-- The title, then the first line of the content, then the placeholder, which the flag marks.
unfoldable pub display_title : Text → Text → Lang → Text × Bool
unfolding lines truncate_chars
display_title title content lang =
    if not (is_empty (trim title))
    then (truncate_chars (trim title) 200, false)
    else if not (is_empty (trim (first_or_empty (lines content))))
    then (truncate_chars (trim (first_or_empty (lines content))) 80, false)
    else (t lang (codes "records.untitled"), true)

-- `.map(str::trim).filter(|l| !l.is_empty())`
abbrev pub full_lines : List Text → List Text
full_lines [] = []
full_lines (l ∷ ls) = let rest = full_lines ls in if is_empty (trim l) then rest else trim l ∷ rest

-- `.join(" · ")`
abbrev pub join_more : List Text → Text
join_more [] = []
join_more (l ∷ ls) = 32 ∷ 0xb7 ∷ 32 ∷ (l ++ join_more ls)

abbrev pub join_dots : List Text → Text
join_dots [] = []
join_dots (l ∷ ls) = l ++ join_more ls

unfoldable pub snippet : Text → Text
unfolding lines truncate_chars
snippet content = truncate_chars (join_dots (full_lines (lines content))) 160
