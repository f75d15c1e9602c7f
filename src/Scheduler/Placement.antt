-- ===== src/Scheduler/Placement.antt =====
-- The placement loop of scheduler.go: the search for a node with room, and the load of the nodes.
use native.Mathlib.Nat.{mod-lt, mod-add-mod, mod-eq_of_lt, add-mod_right, add-zero}
use iicpc.Prelude.{
  ℕ, zero, suc, ◌+◌, ◌-◌, ◌%◌, ◌≤◌, ◌<◌, ◌≡◌, refl, inl, inr, some, List, [], ◌∷◌, map, String,
  ◌==◌, if◌then◌else◌, length, get_or, sum, arith, Bool-cases, count, str_eq, leb, leb→le, ap, sym,
  ◌∙◌,
}
use iicpc.Scheduler.{WorkerNode, seek, place, decrement, name_at}

length-decrement : (cs : List ℕ) (i : ℕ) → length (decrement cs i) ≡ length cs
unfolding decrement
length-decrement [] i = refl
length-decrement (c ∷ cs) zero = refl
length-decrement (c ∷ cs) (suc i) = omega (arith, length-decrement cs i)

sum-decrement : (cs : List ℕ) (i : ℕ) → 0 < get_or cs i 0 → sum (decrement cs i) + 1 ≡ sum cs
unfolding decrement
sum-decrement [] i h = omega arith
sum-decrement (c ∷ cs) zero h = omega arith
sum-decrement (c ∷ cs) (suc i) h = omega (arith, sum-decrement cs i h)

-- Where the sum is positive there is an entry that is.
roomy : (cs : List ℕ) → 0 < sum cs → (p : ℕ) × (p < length cs) × (0 < get_or cs p 0)
roomy [] h = absurd (omega arith)
roomy (zero ∷ cs) h = let (p, l, g) = roomy cs (omega arith) in (suc p, omega arith, g)
roomy (suc c ∷ cs) h = (0, omega arith, omega arith)

-- Counting up from `i`, every position comes within one turn.
turn : (n i p : ℕ) → p < n → (d : ℕ) × (d ≤ n) × ((i + d) % n ≡ p)
turn n i p h = elim (Bool-cases (leb (i % n) p)) [
  | inl e ↦ (
    p - i % n,
    omega (arith, leb→le _ _ e),
    sym (mod-add-mod i n (p - i % n))
        ∙ ap (λ x. x % n) (omega (arith, leb→le _ _ e))
        ∙ mod-eq_of_lt h,
  )
  | inr e ↦ (
    p + n - i % n,
    ground arith,
    sym (mod-add-mod i n (p + n - i % n))
        ∙ ap (λ x. x % n) (omega (arith, mod-lt i {m = n}))
        ∙ add-mod_right p n
        ∙ mod-eq_of_lt h,
  )
]

seek-here :
    (left : ℕ) (cs : List ℕ) (i : ℕ) → 0 < get_or cs (i % length cs) 0 → seek left cs i ≡ some i
unfolding seek
seek-here zero cs i h = ground arith
seek-here (suc left) cs i h = ground arith

seek-finds :
    (left : ℕ) (cs : List ℕ) (i d : ℕ)
    → d ≤ left
    → 0 < get_or cs ((i + d) % length cs) 0
    → (j : ℕ) × (seek left cs i ≡ some j) × (0 < get_or cs (j % length cs) 0)
unfolding seek
seek-finds left cs i zero h g =
    let here : 0 < get_or cs (i % length cs) 0 = rw (add-zero i) at g in
    (i, seek-here left cs i here, here)
seek-finds zero cs i (suc d) h g = absurd (omega arith)
seek-finds (suc left) cs i (suc d) h g = elim (Bool-cases (get_or cs (i % length cs) 0 == 0)) [
  | inr e ↦ (i, ground arith, ground arith)
  | inl e ↦
      let further : i + suc d ≡ i + 1 + d = omega arith in
      let (j, found, room) = seek-finds left cs (i + 1) d (omega arith) (rw further at g) in
      (j, ground arith, room)
]

-- Where there is room at all, the inner loop finds some, within the attempts that it has.
seek-total :
    (cs : List ℕ) (i : ℕ)
    → 0 < sum cs
    → (j : ℕ) × (seek (length cs) cs i ≡ some j) × (0 < get_or cs (j % length cs) 0)
seek-total cs i h =
    let (p, in_range, room) = roomy cs h in
    let (d, near, meets) = turn (length cs) i p in_range in
    seek-finds (length cs) cs i d near (rw meets room)

-- The room that the nodes of one name have.
unfoldable pub named : String → List WorkerNode → List ℕ → ℕ
named m [] cs = 0
named m (n ∷ ns) [] = 0
named m (n ∷ ns) (c ∷ cs) = (if str_eq n.name m then c else 0) + named m ns cs

named-decrement :
    (m : String) (ns : List WorkerNode) (cs : List ℕ) (p : ℕ)
    → length ns ≡ length cs
    → 0 < get_or cs p 0
    → named m ns (decrement cs p) + (if str_eq (name_at ns p) m then 1 else 0) ≡ named m ns cs
unfolding named decrement name_at
named-decrement m [] [] p e h = absurd (omega arith)
named-decrement m [] (c ∷ cs) p e h = absurd (omega arith)
named-decrement m (n ∷ ns) [] p e h = absurd (omega arith)
named-decrement m (n ∷ ns) (c ∷ cs) zero e h = ground arith
named-decrement m (n ∷ ns) (c ∷ cs) (suc p) e h =
    omega (arith, named-decrement m ns cs p (omega arith) h)

-- If the nodes have room for all of the bots, the loop places every one of them, and no name gets
-- more bots than the nodes of that name have room for.
pub place-total :
    (ns : List WorkerNode) (k : ℕ) (cs : List ℕ) (i : ℕ)
    → length ns ≡ length cs
    → k ≤ sum cs
    → (ps : List ℕ) × (place k cs i ≡ some ps)
      × (length ps ≡ k)
      × ((m : String) → count (λ s. str_eq s m) (map (name_at ns) ps) ≤ named m ns cs)
unfolding place
place-total ns zero cs i e h = ([], refl, refl, λ m. omega arith)
place-total ns (suc k) cs i e h =
    let (j, found, room) = seek-total cs i (omega arith) in
    let p = j % length cs in
    let (ps, placed, full, fair) =
      place-total ns k (decrement cs p) (j + 1) (omega (arith, length-decrement cs p))
        (omega (arith, sum-decrement cs p room)) in
    (
      p ∷ ps,
      ground (arith, found, placed),
      omega arith,
      λ m. omega (arith, fair m, named-decrement m ns cs p e room),
    )
