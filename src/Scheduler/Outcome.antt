-- ===== src/Scheduler/Outcome.antt =====
-- What `Schedule` returns, on every input.
use iicpc.Prelude.{
  ℕ, ◌≤◌, ◌<◌, ◌≡◌, ◌⊎◌, inl, inr, List, map, String, ltb, length, sum, arith, count, get_or,
  List-cases, Bool-cases, ◌∙◌, length-map, ap, sym,
}
use iicpc.Prelude.Sorting.{SortSlice, higher, lower, sum-perm}
use iicpc.Scheduler.{
  ScenarioDistribution, WorkerNode, BotScenario, BotAssignment, ok, err, no_available_nodes,
  insufficient_capacity, remainder_of, scenario_counts, assign_scenarios, schedule, load_of, spare,
  eligible, total_cap, name_at, assemble,
}
use iicpc.Scheduler.Placement.{place-total, named}
use iicpc.Scheduler.Totals.{
  length-assign_scenarios, count-assign_scenarios, assemble-total, eligible-pos, eligible-sum,
  has_name, indices, is_scenario, named-spare, position, room_at,
}

-- A full fleet: every bot has a place and a scenario, in order of its index; no name of a node gets
-- more bots than the nodes of that name have room for; each scenario has its count.
abbrev pub IsPlaced :
    SortSlice (higher remainder_of)
    → ℕ
    → List WorkerNode
    → ScenarioDistribution
    → List BotAssignment
    → Type 0
IsPlaced by_remainder fleet nodes d bots =
    (length bots ≡ fleet)
    × (map (λ a. a.bot_index) bots ≡ indices 0 fleet)
    × ((m : String) → count (has_name m) bots ≤ sum (map (room_at m) nodes))
    × ((s : BotScenario)
        → count (λ a. is_scenario s a.scenario) bots
          ≡ get_or (scenario_counts by_remainder fleet d) (position s) 0)

module _ (by_load : SortSlice (lower load_of)) (by_remainder : SortSlice (higher remainder_of))
    (fleet : ℕ) (nodes : List WorkerNode) (d : ScenarioDistribution) where
  abbrev sorted : List WorkerNode
  sorted = by_load.sort (eligible nodes)

  total-sorted : sum (map spare sorted) ≡ sum (map spare nodes)
  total-sorted =
      sum-perm spare (by_load.sort-Perm (eligible nodes))
      ∙ eligible-sum spare nodes (λ n. omega arith)

  named-sorted : (m : String) → named m sorted (map spare sorted) ≡ sum (map (room_at m) nodes)
  named-sorted m =
      named-spare m sorted
      ∙ sum-perm (room_at m) (by_load.sort-Perm (eligible nodes))
      ∙ eligible-sum (room_at m) nodes (λ n. ground arith)

  placed :
      0 < length (eligible nodes)
      → fleet ≤ sum (map spare nodes)
      → (bots : List BotAssignment) × (schedule by_load by_remainder fleet nodes d ≡ ok bots)
        × IsPlaced by_remainder fleet nodes d bots
  unfolding schedule total_cap
  placed some_nodes fits =
      let (ps, e, full, fair) =
        place-total sorted fleet (map spare sorted) 0 (sym (length-map spare sorted))
          (omega (arith, total-sorted)) in
      let names : List String = map (name_at sorted) ps in
      let (len, idx, at_node, in_scenario) =
        assemble-total 0 names (assign_scenarios by_remainder fleet d) (
          length-map (name_at sorted) ps
          ∙ full
          ∙ sym (length-assign_scenarios by_remainder fleet d)) in
      (
        assemble 0 names (assign_scenarios by_remainder fleet d),
        ground (arith, e, eligible-sum spare nodes (λ n. omega arith)),
        (
          len ∙ length-map (name_at sorted) ps ∙ full,
          idx ∙ ap (indices 0) (length-map (name_at sorted) ps ∙ full),
          λ m. omega (arith, at_node m, fair m, named-sorted m),
          λ s. in_scenario s ∙ count-assign_scenarios by_remainder fleet d s,
        ),
      )

-- `Schedule` on every input, and for every sorting that `sort.Slice` may make. Where no node has
-- room it returns ErrNoAvailableNodes; where there is room, but too little for the fleet,
-- ErrInsufficientCapacity; in every other case a full fleet, placed as `IsPlaced` says. So the
-- search for a node never fails once the total was found to be enough.
pub schedule_outcome :
    (by_load : SortSlice (lower load_of)) (by_remainder : SortSlice (higher remainder_of))
    (fleet : ℕ) (nodes : List WorkerNode) (d : ScenarioDistribution)
    → ((sum (map spare nodes) ≡ 0)
        × (schedule by_load by_remainder fleet nodes d ≡ err no_available_nodes))
      ⊎ ((0 < sum (map spare nodes))
          × (sum (map spare nodes) < fleet)
          × (schedule by_load by_remainder fleet nodes d ≡ err insufficient_capacity))
      ⊎ ((0 < sum (map spare nodes))
          × (fleet ≤ sum (map spare nodes))
          × ((bots : List BotAssignment) × (schedule by_load by_remainder fleet nodes d ≡ ok bots)
              × IsPlaced by_remainder fleet nodes d bots))
unfolding schedule total_cap
schedule_outcome by_load by_remainder fleet nodes d =
    let total : sum (map spare (eligible nodes)) ≡ sum (map spare nodes) =
      eligible-sum spare nodes (λ n. omega arith) in
    elim (List-cases (eligible nodes)) [
      | inl e ↦ inl (ground arith, ground arith)
      | inr (n, ns, e) ↦
          let open_node : 0 < length (eligible nodes) = rw e (omega arith) in
          let room : 0 < sum (map spare nodes) = eligible-pos nodes open_node in
          elim (Bool-cases (ltb (sum (map spare nodes)) fleet)) [
            | inl few ↦ inr (inl (room, ground arith, ground (arith, open_node)))
            | inr fits ↦ inr (
                inr (
                  room,
                  ground arith,
                  placed by_load by_remainder fleet nodes d open_node (ground arith),
                ))
          ]
    ]
