-- ===== src/Artifact/Texts.antt =====
-- Texts as lists of bytes, compared (artifact.go).
use iicpc.Prelude.{◌≡◌, refl, true, [], ◌∷◌, arith}
use iicpc.Artifact.{Text, same_text}

pub same_text_refl : (x : Text) → same_text x x ≡ true
unfolding same_text
same_text_refl [] = refl
same_text_refl (a ∷ x) = ground (arith, same_text_refl x)

pub same_text_eq : (x y : Text) → same_text x y ≡ true → x ≡ y
unfolding same_text
same_text_eq [] [] h = refl
same_text_eq [] (b ∷ y) h = absurd (ground (arith, h))
same_text_eq (a ∷ x) [] h = absurd (ground (arith, h))
same_text_eq (a ∷ x) (b ∷ y) h = ground (arith, same_text_eq x y)
