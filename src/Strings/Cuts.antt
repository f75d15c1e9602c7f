-- ===== src/Strings/Cuts.antt =====
-- How texts are trimmed, cut and split (the package strings).
use iicpc.Prelude.{
  ℕ, Bool, true, false, not, ◌≡◌, ◌≢◌, refl, none, some, [], ◌∷◌, ◌++◌, ◌==◌, all, arith,
  Bool-cases, inl, inr,
}
use iicpc.Artifact.{Text, same_text}
use iicpc.Strings.{is_space, strip_prefix, trim_left, trim_right, trim_space, cut, split}

-- The byte `b` is not in the text.
abbrev pub lacks : ℕ → Text → Bool
lacks b = all (λ x. not (x == b))

pub lacks-trim_left : (b : ℕ) (xs : Text) → lacks b xs ≡ true → lacks b (trim_left xs) ≡ true
unfolding trim_left
lacks-trim_left b [] h = refl
lacks-trim_left b (x ∷ xs) h = ground (arith, lacks-trim_left b xs)

pub lacks-trim_right : (b : ℕ) (xs : Text) → lacks b xs ≡ true → lacks b (trim_right xs) ≡ true
unfolding trim_right
lacks-trim_right b [] h = refl
lacks-trim_right b (x ∷ xs) h = ground (arith, lacks-trim_right b xs)

-- A text that starts with another byte than a space, and one that ends with one, is left as it is.
pub trim_left-solid : (x : ℕ) (xs : Text) → is_space x ≡ false → trim_left (x ∷ xs) ≡ x ∷ xs
unfolding trim_left
trim_left-solid x xs h = rw h

pub trim_right-solid :
    (xs : Text) (x : ℕ) → is_space x ≡ false → trim_right (xs ++ x ∷ []) ≡ xs ++ x ∷ []
unfolding trim_right same_text
trim_right-solid [] x h = rw h
trim_right-solid (y ∷ []) x h = ground (arith, trim_right-solid [] x h)
trim_right-solid (y ∷ z ∷ xs) x h = ground (arith, trim_right-solid (z ∷ xs) x h)

-- Trimmed on the left up to a byte that is no space, a text keeps what follows that byte.
pub trim_left-append :
    (b : ℕ) (xs ys : Text) (c : ℕ)
    → is_space c ≡ false
    → lacks b xs ≡ true
    → (zs : Text) × (lacks b zs ≡ true) × (trim_left (xs ++ c ∷ ys) ≡ zs ++ c ∷ ys)
unfolding trim_left
trim_left-append b [] ys c h l = ([], refl, rw h)
trim_left-append b (x ∷ xs) ys c h l = elim (Bool-cases (is_space x)) [
  | inl s ↦ rw s (trim_left-append b xs ys c h (ground (arith, l)))
  | inr s ↦ (x ∷ xs, l, rw s)
]

pub cut-append :
    (a b : ℕ) (xs ys : Text)
    → a ≢ b
    → lacks b xs ≡ true
    → cut (a ∷ b ∷ []) (xs ++ a ∷ b ∷ ys) ≡ some (xs, ys)
unfolding cut strip_prefix
cut-append a b [] ys n l = ground arith
cut-append a b (x ∷ []) ys n l = ground (arith, cut-append a b [] ys n refl)
cut-append a b (x ∷ z ∷ xs) ys n l = ground (arith, cut-append a b (z ∷ xs) ys n)

pub cut-none : (a b : ℕ) (xs : Text) → lacks b xs ≡ true → cut (a ∷ b ∷ []) xs ≡ none
unfolding cut strip_prefix
cut-none a b [] l = refl
cut-none a b (x ∷ []) l = ground arith
cut-none a b (x ∷ z ∷ xs) l = ground (arith, cut-none a b (z ∷ xs))

pub split-append :
    (b : ℕ) (xs ys : Text) → lacks b xs ≡ true → split b (xs ++ b ∷ ys) ≡ xs ∷ split b ys
unfolding split
split-append b [] ys l = ground arith
split-append b (x ∷ xs) ys l = ground (arith, split-append b xs ys)

trim_right-cons :
    (x : ℕ) (xs : Text) (y : ℕ) (ys : Text)
    → trim_right (xs ++ y ∷ ys) ≡ xs ++ y ∷ ys
    → trim_right (x ∷ (xs ++ y ∷ ys)) ≡ x ∷ (xs ++ y ∷ ys)
unfolding trim_right same_text
trim_right-cons x [] y ys h = ground (arith, h)
trim_right-cons x (z ∷ xs) y ys h = ground (arith, h)

pub trim_right-append :
    (xs : Text) (y : ℕ) (ys : Text)
    → trim_right (y ∷ ys) ≡ y ∷ ys
    → trim_right (xs ++ y ∷ ys) ≡ xs ++ y ∷ ys
trim_right-append [] y ys h = h
trim_right-append (x ∷ xs) y ys h = trim_right-cons x xs y ys (trim_right-append xs y ys h)

pub trim_space-solid :
    (x : ℕ) (xs : Text)
    → is_space x ≡ false
    → trim_right (x ∷ xs) ≡ x ∷ xs
    → trim_space (32 ∷ x ∷ xs) ≡ x ∷ xs
unfolding trim_space trim_left
trim_space-solid x xs s h = rw s h

pub lacks-append :
    (b : ℕ) (xs ys : Text) → lacks b xs ≡ true → lacks b ys ≡ true → lacks b (xs ++ ys) ≡ true
lacks-append b [] ys h k = k
lacks-append b (x ∷ xs) ys h k = ground (arith, lacks-append b xs ys)

pub same_text-append : (xs : Text) (y : ℕ) (ys : Text) → same_text (xs ++ y ∷ ys) [] ≡ false
unfolding same_text
same_text-append [] y ys = refl
same_text-append (x ∷ xs) y ys = refl

pub trim_space_self :
    (x : ℕ) (xs : Text)
    → is_space x ≡ false
    → trim_right (x ∷ xs) ≡ x ∷ xs
    → trim_space (x ∷ xs) ≡ x ∷ xs
unfolding trim_space trim_left
trim_space_self x xs s h = rw s h

pub trim_space-cons : (x : ℕ) (xs : Text) → is_space x ≡ true → trim_space (x ∷ xs) ≡ trim_space xs
unfolding trim_space trim_left
trim_space-cons x xs s = rw s

pub cut-cons :
    (a b x : ℕ) (xs : Text) → x ≢ a → lacks b xs ≡ true → cut (a ∷ b ∷ []) (x ∷ xs) ≡ none
unfolding cut strip_prefix
cut-cons a b x xs n l = ground (arith, cut-none a b xs l)
