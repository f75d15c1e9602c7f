-- ===== src/Latency/Order.antt =====
-- Positions in a sorted list of numbers, by how many elements lie at or below a value.
use iicpc.Prelude.{
  ℕ, zero, suc, ◌≤◌, ◌<◌, ◌≡◌, refl, false, List, [], ◌∷◌, arith, leb, ltb, ◌==◌, length, get_or,
  count, All,
}
use iicpc.Prelude.Sorting.{IsSorted, lower}
use iicpc.Latency.{itself}

-- All of a sorted list lies at or above its first element.
above_head :
    (x : ℕ) (xs : List ℕ) (i : ℕ)
    → All (λ y. ltb y x ≡ false) xs
    → i < length xs
    → x ≤ get_or xs i 0
above_head x [] i a h = absurd (omega arith)
above_head x (y ∷ ys) zero a h = ground (arith, a.0)
above_head x (y ∷ ys) (suc i) a h = above_head x ys i a.1 (omega arith)

pub get_or_mono :
    (xs : List ℕ) (i j : ℕ)
    → IsSorted (lower itself) xs
    → i ≤ j
    → j < length xs
    → get_or xs i 0 ≤ get_or xs j 0
get_or_mono [] i j s h l = absurd (omega arith)
get_or_mono (x ∷ xs) zero zero s h l = omega arith
get_or_mono (x ∷ xs) zero (suc j) s h l = above_head x xs j s.0 (omega arith)
get_or_mono (x ∷ xs) (suc i) zero s h l = absurd (omega arith)
get_or_mono (x ∷ xs) (suc i) (suc j) s h l = get_or_mono xs i j s.1 (omega arith) (omega arith)

-- The element at position `i` has at least `i + 1` elements at or below it.
pub count-le-get_or :
    (xs : List ℕ) (i : ℕ)
    → IsSorted (lower itself) xs
    → i < length xs
    → i < count (λ x. leb x (get_or xs i 0)) xs
count-le-get_or [] i s h = absurd (omega arith)
count-le-get_or (x ∷ xs) zero s h = ground arith
count-le-get_or (x ∷ xs) (suc i) s h =
    ground (arith, count-le-get_or xs i s.1, above_head x xs i s.0)

none_below : (x : ℕ) (xs : List ℕ) → All (λ y. ltb y x ≡ false) xs → count (λ y. ltb y x) xs ≡ 0
none_below x [] a = refl
none_below x (y ∷ ys) a = ground (arith, a.0, none_below x ys a.1)

-- And at most `i` strictly below it.
pub count-lt-get_or :
    (xs : List ℕ) (i : ℕ)
    → IsSorted (lower itself) xs
    → i < length xs
    → count (λ x. ltb x (get_or xs i 0)) xs ≤ i
count-lt-get_or [] i s h = absurd (omega arith)
count-lt-get_or (x ∷ xs) zero s h = ground (arith, none_below x xs s.0)
count-lt-get_or (x ∷ xs) (suc i) s h = ground (arith, count-lt-get_or xs i s.1)

pub count-eq-get_or : (xs : List ℕ) (i : ℕ) → i < length xs → 0 < count (λ x. x == get_or xs i 0) xs
count-eq-get_or [] i h = absurd (omega arith)
count-eq-get_or (x ∷ xs) zero h = ground arith
count-eq-get_or (x ∷ xs) (suc i) h = omega (arith, count-eq-get_or xs i (omega arith))
