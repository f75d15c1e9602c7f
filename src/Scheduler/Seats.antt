-- ===== src/Scheduler/Seats.antt =====
-- How the seats that are left over are handed out (scheduler.go).
use native.Mathlib.Nat.{div-add-mod', mod-lt}
use iicpc.Prelude.{
  ℕ, zero, suc, ◌+◌, ◌-◌, ◌*◌, ◌/◌, ◌%◌, ◌≤◌, ◌<◌, ◌≡◌, refl, inl, inr, Bool, List, [], ◌∷◌, map,
  ltb, ◌==◌, if◌then◌else◌, length, sum, arith, count, get_or, Bool-cases, leb, subst,
}
use iicpc.Scheduler.{indexed, increment, hand_out}

-- Floors and remainders over any total.
pub floors-remainders :
    (t f : ℕ) (ws : List ℕ)
    → sum (map (λ w. w * f / t) ws) * t + sum (map (λ w. w * f % t) ws) ≡ sum ws * f
floors-remainders t f [] = omega arith
floors-remainders t f (w ∷ ws) = omega (arith, div-add-mod' (w * f) t, floors-remainders t f ws)

pub remainders-lt :
    (t f : ℕ) (ws : List ℕ) → 0 < t → sum (map (λ w. w * f % t) ws) ≤ length ws * (t - 1)
remainders-lt t f [] h = omega arith
remainders-lt t f (w ∷ ws) h = grind (arith, mod-lt (w * f) h, remainders-lt t f ws h)

too_many : (f k u r : ℕ) → (f + 1 + k) * suc u + r ≡ suc u * f → ⊥
too_many f k u r e = omega arith

too_few : (s n k u r : ℕ) → 0 < n → s * suc u + r ≡ suc u * (s + n + k) → r ≤ n * u → ⊥
too_few s n k u r hn e h = omega arith

-- Seats left over: fewer than there are shares.
pub leftover :
    (s t r f n : ℕ) → 0 < t → 0 < n → s * t + r ≡ t * f → r ≤ n * (t - 1) → (s ≤ f) × (f - s < n)
leftover s zero r f n ht hn e h = absurd (omega arith)
leftover s (suc u) r f n ht hn e h = elim (Bool-cases (leb s f)) [
  | inr over ↦
      let split : s ≡ f + 1 + (s - f - 1) = ground arith in
      absurd (too_many f (s - f - 1) u r (subst (λ x. x * suc u + r ≡ suc u * f) split e))
  | inl fits ↦ elim (Bool-cases (ltb (f - s) n)) [
    | inl few ↦ (ground arith, ground arith)
    | inr many ↦
        let split : f ≡ s + n + (f - s - n) = ground arith in
        absurd (
          too_few s n (f - s - n) u r hn (subst (λ x. s * suc u + r ≡ suc u * x) split e)
            (subst (λ x. r ≤ n * x) (omega arith) h))
  ]
]

pub length-increment : (cs : List ℕ) (i : ℕ) → length (increment cs i) ≡ length cs
unfolding increment
length-increment [] i = refl
length-increment (c ∷ cs) zero = refl
length-increment (c ∷ cs) (suc i) = omega (arith, length-increment cs i)

sum-increment :
    (cs : List ℕ) (i : ℕ) → sum (increment cs i) ≡ sum cs + (if ltb i (length cs) then 1 else 0)
unfolding increment
sum-increment [] i = ground arith
sum-increment (c ∷ cs) zero = ground arith
sum-increment (c ∷ cs) (suc i) = ground (arith, sum-increment cs i)

get_or-increment :
    (cs : List ℕ) (i j : ℕ)
    → j < length cs
    → get_or (increment cs i) j 0 ≡ get_or cs j 0 + (if i == j then 1 else 0)
unfolding increment
get_or-increment [] i j h = absurd (omega arith)
get_or-increment (c ∷ cs) zero zero h = ground arith
get_or-increment (c ∷ cs) zero (suc j) h = ground arith
get_or-increment (c ∷ cs) (suc i) zero h = ground arith
get_or-increment (c ∷ cs) (suc i) (suc j) h = ground (arith, get_or-increment cs i j)

abbrev pub at : ℕ → ℕ × ℕ → Bool
at j x = x.0 == j

abbrev pub under : ℕ → ℕ × ℕ → Bool
under n x = ltb x.0 n

pub sum-hand_out :
    (cs : List ℕ) (is : List (ℕ × ℕ)) → sum (hand_out cs is) ≡ sum cs + count (under (length cs)) is
unfolding hand_out
sum-hand_out cs [] = omega arith
sum-hand_out cs ((i, r) ∷ is) =
    ground (arith, sum-hand_out (increment cs i) is, sum-increment cs i, length-increment cs i)

pub get_or-hand_out :
    (cs : List ℕ) (is : List (ℕ × ℕ)) (j : ℕ)
    → j < length cs
    → get_or (hand_out cs is) j 0 ≡ get_or cs j 0 + count (at j) is
unfolding hand_out
get_or-hand_out cs [] j h = omega arith
get_or-hand_out cs ((i, r) ∷ is) j h =
    ground
      (arith, get_or-hand_out (increment cs i) is j, get_or-increment cs i j, length-increment cs i)

indexed-below : (j i : ℕ) (rs : List ℕ) → j < i → count (at j) (indexed i rs) ≡ 0
unfolding indexed
indexed-below j i [] h = refl
indexed-below j i (r ∷ rs) h = ground (arith, indexed-below j (i + 1) rs)

pub indexed-at : (j i : ℕ) (rs : List ℕ) → count (at j) (indexed i rs) ≤ 1
unfolding indexed
indexed-at j i [] = omega arith
indexed-at j i (r ∷ rs) = ground (arith, indexed-at j (i + 1) rs, indexed-below j (i + 1) rs)

pub length-indexed : (i : ℕ) (rs : List ℕ) → length (indexed i rs) ≡ length rs
unfolding indexed
length-indexed i [] = refl
length-indexed i (r ∷ rs) = omega (arith, length-indexed (i + 1) rs)

pub indexed-under :
    (n i : ℕ) (rs : List ℕ) → i + length rs ≤ n → count (under n) (indexed i rs) ≡ length rs
unfolding indexed
indexed-under n i [] h = refl
indexed-under n i (r ∷ rs) h = ground (arith, indexed-under n (i + 1) rs)
