-- ===== src/Wildcard.antt =====
-- adaptiveservice.go: WildcardMatch.
pub mod Glob
pub mod Search
pub mod Correct
mod Examples
use adaptiveservice.Prelude.{
  ℕ, ◌+◌, ◌-◌, Bool, true, false, none, some, List, [], ◌∷◌, Text, length, take, drop, text_eq,
  has_prefix, has_suffix, index, split, if◌then◌else◌,
}

abbrev pub star : ℕ
star = b'*'

-- parts[len(parts)-1], where the parts after the first are q and qs
pub last_part : Text → List Text → Text
last_part q [] = q
last_part q (r ∷ rs) = last_part r rs

-- parts[1 : len(parts)-1]
pub middle_parts : Text → List Text → List Text
middle_parts q [] = []
middle_parts q (r ∷ rs) = q ∷ middle_parts r rs

-- The loop over the middle segments.
pub match_middle : List Text → Text → Bool
unfolding index
match_middle [] str = true
match_middle (part ∷ parts) str =
    let skipped = match_middle parts str in
    let found : Bool = elim (index str part) [
      | none ↦ false
      | some i ↦ match_middle parts (drop (i + length part) str)
    ] in
    if text_eq part [] then skipped else found

-- The last segment, cut off if it is not empty.
pub match_last : Text → List Text → Text → Bool
unfolding match_middle has_suffix text_eq
match_last end middle str =
    if text_eq end []
    then match_middle middle str
    else if has_suffix str end
    then match_middle middle (take (length str - length end) str)
    else false

-- The segments of a pattern that holds a "*": begin, and q with qs after it.
pub match_parts : Text → Text → List Text → Text → Bool
unfolding match_last has_prefix last_part middle_parts text_eq
match_parts begin q qs str =
    if text_eq begin []
    then match_last (last_part q qs) (middle_parts q qs) str
    else if has_prefix str begin
    then match_last (last_part q qs) (middle_parts q qs) (drop (length begin) str)
    else false

pub wildcard_cases : Text → Text → Text × List Text → Bool
unfolding match_parts text_eq
wildcard_cases pattern str (begin, []) = text_eq pattern str
wildcard_cases pattern str (begin, q ∷ qs) = match_parts begin q qs str

unfoldable pub wildcard_match : Text → Text → Bool
unfolding wildcard_cases split text_eq
wildcard_match pattern str =
    if text_eq pattern (star ∷ [])
    then true
    else if text_eq pattern []
    then text_eq str []
    else wildcard_cases pattern str (split star pattern)
