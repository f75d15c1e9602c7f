-- ===== src/Strings.antt =====
-- What the code takes from Go's package strings, on texts in ASCII: HasPrefix, TrimSpace, Index and
-- Split.
pub mod Cuts
use iicpc.Prelude.{ℕ, Bool, ◌||◌, ◌&&◌, Option, none, some, List, [], ◌∷◌, leb, ◌==◌, if◌then◌else◌}
use iicpc.Artifact.{Text, same_text, onto_first}

unfoldable pub strip_prefix : Text → Text → Option Text
strip_prefix [] xs = some xs
strip_prefix (p ∷ ps) [] = none
strip_prefix (p ∷ ps) (x ∷ xs) = let rest = strip_prefix ps xs in if p == x then rest else none

-- The spaces among the characters of ASCII.
abbrev pub is_space : ℕ → Bool
is_space b = leb 9 b && leb b 13 || b == 32

unfoldable pub trim_left : Text → Text
trim_left [] = []
trim_left (x ∷ xs) = let rest = trim_left xs in if is_space x then rest else x ∷ xs

unfoldable pub trim_right : Text → Text
trim_right [] = []
trim_right (x ∷ xs) =
    let rest = trim_right xs in if is_space x && same_text rest [] then [] else x ∷ rest

unfoldable pub trim_space : Text → Text
unfolding trim_left trim_right
trim_space xs = trim_right (trim_left xs)

abbrev pub after_byte : ℕ → Option (Text × Text) → Option (Text × Text)
after_byte x none = none
after_byte x (some (before, after)) = some (x ∷ before, after)

-- `Index`: what stands before and after the first place of a text.
unfoldable pub cut : Text → Text → Option (Text × Text)
unfolding strip_prefix
cut sub [] = elim (strip_prefix sub []) [ none ↦ none | some after ↦ some ([], after) ]
cut sub (x ∷ xs) =
    let rest = cut sub xs in
    elim (strip_prefix sub (x ∷ xs)) [ none ↦ after_byte x rest | some after ↦ some ([], after) ]

-- `Split` at a byte.
unfoldable pub split : ℕ → Text → List Text
split b [] = [] ∷ []
split b (x ∷ xs) = let rest = split b xs in if x == b then [] ∷ rest else onto_first x rest
