-- ===== src/Scheduler/Shares.antt =====
-- The largest-remainder method of scheduler.go: the counts of the scenarios against their shares.
use iicpc.Prelude.{
  ℕ, zero, suc, ◌+◌, ◌-◌, ◌*◌, ◌/◌, ◌%◌, ◌≤◌, ◌<◌, ◌≡◌, refl, Bool, List, [], ◌∷◌, map, length, sum,
  arith, count, take, get_or, ◌∙◌, length-map, count-le, sym, ap, count-take,
}
use iicpc.Prelude.Sorting.{SortSlice, higher, count-perm, length-perm}
use iicpc.Scheduler.{
  ScenarioDistribution, weights, floors, remainders, indexed, increment, hand_out, remainder_of,
  scenario_counts,
}
use iicpc.Scheduler.Seats.{
  at, floors-remainders, get_or-hand_out, indexed-at, indexed-under, leftover, length-increment,
  length-indexed, remainders-lt, sum-hand_out, under,
}

module _ {ℓ} {A : Type ℓ} where
  -- If all elements pass a test, so do all of the first ones.
  count-take_all :
      (p : A → Bool) (k : ℕ) (xs : List A)
      → count p xs ≡ length xs
      → k ≤ length xs
      → count p (take k xs) ≡ k
  count-take_all p zero xs h l = refl
  count-take_all p (suc k) [] h l = absurd (omega arith)
  count-take_all p (suc k) (x ∷ xs) h l = ground (arith, count-take_all p k xs, count-le p xs)

weights_pos : (d : ScenarioDistribution) → 0 < sum (weights d)
unfolding weights
weights_pos d = ground arith

length-weights : (d : ScenarioDistribution) → length (weights d) ≡ 5
unfolding weights
length-weights d = ground arith

get_or-map :
    (f : ℕ → ℕ) (ws : List ℕ) (j : ℕ) → j < length ws → get_or (map f ws) j 0 ≡ f (get_or ws j 0)
get_or-map f [] j h = absurd (omega arith)
get_or-map f (w ∷ ws) zero h = refl
get_or-map f (w ∷ ws) (suc j) h = get_or-map f ws j (omega arith)

module _ (sorting : SortSlice (higher remainder_of)) (fleet : ℕ) (ws : List ℕ) where
  abbrev winners : List (ℕ × ℕ)
  winners = take (fleet - sum (floors fleet ws)) (sorting.sort (indexed 0 (remainders fleet ws)))

  length-sorted : length (sorting.sort (indexed 0 (remainders fleet ws))) ≡ length ws
  unfolding remainders
  length-sorted =
      length-perm (sorting.sort-Perm (indexed 0 (remainders fleet ws)))
      ∙ length-indexed 0 (remainders fleet ws)
      ∙ length-map _ ws

  seats_left :
      0 < sum ws
      → 0 < length ws
      → (sum (floors fleet ws) ≤ fleet) × (fleet - sum (floors fleet ws) < length ws)
  unfolding floors
  seats_left pos some_ws =
      leftover (sum (floors fleet ws)) (sum ws) (sum (map (λ w. w * fleet % sum ws) ws)) fleet
        (length ws) pos some_ws (floors-remainders (sum ws) fleet ws)
        (remainders-lt (sum ws) fleet ws pos)

  winners-under :
      0 < sum ws → 0 < length ws → count (under (length ws)) winners ≡ fleet - sum (floors fleet ws)
  unfolding remainders
  winners-under pos some_ws =
      count-take_all (under (length ws)) (fleet - sum (floors fleet ws)) _
        (count-perm (under (length ws)) (sorting.sort-Perm (indexed 0 (remainders fleet ws)))
          ∙ indexed-under (length ws) 0 (remainders fleet ws)
              (omega (arith, length-map (λ w. w * fleet % sum ws) ws))
          ∙ length-map _ ws
          ∙ sym length-sorted)
        (omega (arith, seats_left pos some_ws, length-sorted))

  sum-shares : 0 < sum ws → 0 < length ws → sum (hand_out (floors fleet ws) winners) ≡ fleet
  unfolding floors
  sum-shares pos some_ws = omega (
    arith,
    sum-hand_out (floors fleet ws) winners,
    ap (λ n. count (under n) winners) (length-map (λ w. w * fleet / sum ws) ws),
    winners-under pos some_ws,
    seats_left pos some_ws,
  )

  share_bounds :
      (j : ℕ)
      → j < length ws
      → let share = get_or ws j 0 * fleet / sum ws in
        (share ≤ get_or (hand_out (floors fleet ws) winners) j 0)
        × (get_or (hand_out (floors fleet ws) winners) j 0 ≤ share + 1)
  unfolding floors
  share_bounds j h =
      let counted : count (at j) winners ≤ 1 = omega (
        arith,
        count-take (at j) (fleet - sum (floors fleet ws))
            (sorting.sort (indexed 0 (remainders fleet ws))),
        count-perm (at j) (sorting.sort-Perm (indexed 0 (remainders fleet ws))),
        indexed-at j 0 (remainders fleet ws),
      ) in
      let got : get_or (hand_out (floors fleet ws) winners) j 0
          ≡ get_or (floors fleet ws) j 0 + count (at j) winners =
        get_or-hand_out (floors fleet ws) winners j
          (omega (arith, length-map (λ w. w * fleet / sum ws) ws)) in
      let floored : get_or (floors fleet ws) j 0 ≡ get_or ws j 0 * fleet / sum ws =
        get_or-map (λ w. w * fleet / sum ws) ws j h in
      (omega arith, omega arith)

-- The counts of the five scenarios add up to the fleet, and each is the scenario's exact share of
-- the fleet, rounded down or up; a distribution with no weight at all is taken as a uniform one.
-- This holds of every sorting that `sort.Slice` may make.
pub scenario_counts-quota :
    (sorting : SortSlice (higher remainder_of)) (fleet : ℕ) (d : ScenarioDistribution)
    → (sum (scenario_counts sorting fleet d) ≡ fleet)
      × ((j : ℕ)
          → j < 5
          → let share = get_or (weights d) j 0 * fleet / sum (weights d) in
            (share ≤ get_or (scenario_counts sorting fleet d) j 0)
            × (get_or (scenario_counts sorting fleet d) j 0 ≤ share + 1))
unfolding scenario_counts
scenario_counts-quota sorting fleet d = (
  sum-shares sorting fleet (weights d) (weights_pos d) (omega (arith, length-weights d)),
  λ j h. share_bounds sorting fleet (weights d) j (omega (arith, length-weights d)),
)

length-hand_out : (cs : List ℕ) (is : List (ℕ × ℕ)) → length (hand_out cs is) ≡ length cs
unfolding hand_out
length-hand_out cs [] = refl
length-hand_out cs ((i, r) ∷ is) = length-hand_out (increment cs i) is ∙ length-increment cs i

pub length-scenario_counts :
    (sorting : SortSlice (higher remainder_of)) (fleet : ℕ) (d : ScenarioDistribution)
    → length (scenario_counts sorting fleet d) ≡ 5
unfolding scenario_counts floors
length-scenario_counts sorting fleet d =
    length-hand_out (floors fleet (weights d)) (winners sorting fleet (weights d))
    ∙ length-map _ (weights d)
    ∙ length-weights d
