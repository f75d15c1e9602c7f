-- ===== src/Prelude/Sorting.antt =====
-- What Go's `sort.Slice` and `sort.Float64s` promise: a rearrangement in which no element stands
-- before a lesser one. Nothing is said of the order of equal elements. `by_key` and `by_key_down` are
-- instances of the promise, for numbers as keys.
use Prim.Native.Nat.{ℕ}
use mathlib.Core.Path.{◌≡◌, refl}
use mathlib.Core.Logic.{∥∥₁_elim, inl, inr}
use mathlib.Core.Bool.{Bool, true, false}
use mathlib.Core.List.{List, [], ◌∷◌, map, Perm, Permᴰ}
use mathlib.Core.List.Perm
use native.Mathlib.Nat.{ℕ_set}
use native.Mathlib.Omega.{arith}
use iicpc.Prelude.Tests.{ltb, if◌then◌else◌, Bool-cases}
use iicpc.Prelude.Lists.{All, count, length, sum}

module _ {ℓ} {A : Type ℓ} (less : A → A → Bool) where
  abbrev pub IsSorted : List A → Type 0
  IsSorted [] = Unit
  IsSorted (x ∷ xs) = All (λ y. less y x ≡ false) xs × IsSorted xs

  pub record SortSlice : Type ℓ where
    pub sort : List A → List A
    pub sort-Perm : (xs : List A) → Perm (sort xs) xs
    pub sort-IsSorted : (xs : List A) → IsSorted (sort xs)

module _ {ℓ} {A : Type ℓ} where
  count-permᴰ : (p : A → Bool) {xs ys : List A} → Permᴰ xs ys → count p xs ≡ count p ys
  count-permᴰ p Permᴰ.nil = refl
  count-permᴰ p (Permᴰ.cons e h) = rw e (omega (arith, count-permᴰ p h))
  count-permᴰ p (Permᴰ.swap e f) = rw (e, f) (omega arith)
  count-permᴰ p (Permᴰ.trans h k) = omega (arith, count-permᴰ p h, count-permᴰ p k)

  -- A rearrangement keeps how many elements pass a test.
  pub count-perm : (p : A → Bool) {xs ys : List A} → Perm xs ys → count p xs ≡ count p ys
  count-perm p h = ∥∥₁_elim h (ℕ_set _ _) (count-permᴰ p)

  length-permᴰ : {xs ys : List A} → Permᴰ xs ys → length xs ≡ length ys
  length-permᴰ Permᴰ.nil = refl
  length-permᴰ (Permᴰ.cons x h) = omega (arith, length-permᴰ h)
  length-permᴰ (Permᴰ.swap e f) = refl
  length-permᴰ (Permᴰ.trans h k) = omega (arith, length-permᴰ h, length-permᴰ k)

  pub length-perm : {xs ys : List A} → Perm xs ys → length xs ≡ length ys
  length-perm h = ∥∥₁_elim h (ℕ_set _ _) length-permᴰ

module _ {ℓ} {A : Type ℓ} where
  sum-permᴰ : (f : A → ℕ) {xs ys : List A} → Permᴰ xs ys → sum (map f xs) ≡ sum (map f ys)
  sum-permᴰ f Permᴰ.nil = refl
  sum-permᴰ f (Permᴰ.cons e h) = rw e (omega (arith, sum-permᴰ f h))
  sum-permᴰ f (Permᴰ.swap e g) = rw (e, g) (omega arith)
  sum-permᴰ f (Permᴰ.trans h k) = omega (arith, sum-permᴰ f h, sum-permᴰ f k)

  pub sum-perm : (f : A → ℕ) {xs ys : List A} → Perm xs ys → sum (map f xs) ≡ sum (map f ys)
  sum-perm f h = ∥∥₁_elim h (ℕ_set _ _) (sum-permᴰ f)

-- Insertion sort, with the first element for which `before x y` holds put first.
module _ {ℓ} {A : Type ℓ} (before : A → A → Bool) where
  insert : A → List A → List A
  insert x [] = x ∷ []
  insert x (y ∷ ys) = if before x y then x ∷ y ∷ ys else y ∷ insert x ys

  pub insertion_sort : List A → List A
  unfolding insert
  insertion_sort [] = []
  insertion_sort (x ∷ xs) = insert x (insertion_sort xs)

  insert-Perm : (x : A) (ys : List A) → Perm (insert x ys) (x ∷ ys)
  unfolding insert
  insert-Perm x [] = Perm.refl _
  insert-Perm x (y ∷ ys) = elim (Bool-cases (before x y)) [
    | inl e ↦ rw e (Perm.refl _)
    | inr e ↦ rw e (Perm.trans (Perm.cons y (insert-Perm x ys)) (Perm.swap x y ys))
  ]

  pub insertion_sort-Perm : (xs : List A) → Perm (insertion_sort xs) xs
  unfolding insertion_sort
  insertion_sort-Perm [] = Perm.refl _
  insertion_sort-Perm (x ∷ xs) =
      Perm.trans (insert-Perm x (insertion_sort xs)) (Perm.cons x (insertion_sort-Perm xs))

module _ {ℓ} {A : Type ℓ} (less : A → A → Bool) where
  insert-All : (P : A → Type 0) (x : A) (ys : List A) → P x → All P ys → All P (insert less x ys)
  unfolding insert
  insert-All P x [] h hs = (h, tt)
  insert-All P x (y ∷ ys) h hs = elim (Bool-cases (less x y)) [
    | inl e ↦ rw e (h, hs)
    | inr e ↦ rw e (hs.0, insert-All P x ys h hs.1)
  ]

abbrev pub IsWeakOrder {ℓ} : {A : Type ℓ} → (A → A → Bool) → Type ℓ
IsWeakOrder less =
    (x y : _)
    → less x y ≡ true
    → (less y x ≡ false) × ((z : _) → less z y ≡ false → less z x ≡ false)

module _ {ℓ} {A : Type ℓ} (less : A → A → Bool) (order : IsWeakOrder less) where
  lower-All :
      (x y : A) (ys : List A)
      → less x y ≡ true
      → All (λ z. less z y ≡ false) ys
      → All (λ z. less z x ≡ false) ys
  lower-All x y [] h hs = tt
  lower-All x y (z ∷ ys) h hs = ((order x y h).1 z hs.0, lower-All x y ys h hs.1)

  insert-IsSorted : (x : A) (ys : List A) → IsSorted less ys → IsSorted less (insert less x ys)
  unfolding insert
  insert-IsSorted x [] s = (tt, tt)
  insert-IsSorted x (y ∷ ys) s = elim (Bool-cases (less x y)) [
    | inl e ↦ rw e (((order x y e).0, lower-All x y ys e s.0), s)
    | inr e ↦ rw e (insert-All less (λ z. less z y ≡ false) x ys e s.0, insert-IsSorted x ys s.1)
  ]

  pub insertion_sort-IsSorted : (xs : List A) → IsSorted less (insertion_sort less xs)
  unfolding insertion_sort
  insertion_sort-IsSorted [] = tt
  insertion_sort-IsSorted (x ∷ xs) =
      insert-IsSorted x (insertion_sort less xs) (insertion_sort-IsSorted xs)

-- The two instances: ascending and descending keys.
module _ {ℓ} {A : Type ℓ} (key : A → ℕ) where
  abbrev pub lower : A → A → Bool
  lower a b = ltb (key a) (key b)

  abbrev pub higher : A → A → Bool
  higher a b = ltb (key b) (key a)

  pub lower-IsWeakOrder : IsWeakOrder lower
  lower-IsWeakOrder x y h = (ground arith, λ z k. ground arith)

  pub higher-IsWeakOrder : IsWeakOrder higher
  higher-IsWeakOrder x y h = (ground arith, λ z k. ground arith)

  unfoldable pub by_key : SortSlice lower
  unfolding insertion_sort
  by_key = record {
    sort = insertion_sort lower;
    sort-Perm = insertion_sort-Perm lower;
    sort-IsSorted = insertion_sort-IsSorted lower lower-IsWeakOrder;
  }

  unfoldable pub by_key_down : SortSlice higher
  unfolding insertion_sort
  by_key_down = record {
    sort = insertion_sort higher;
    sort-Perm = insertion_sort-Perm higher;
    sort-IsSorted = insertion_sort-IsSorted higher higher-IsWeakOrder;
  }
