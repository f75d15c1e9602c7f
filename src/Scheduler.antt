-- ===== src/Scheduler.antt =====
-- services/bot-fleet-manager/internal/scheduler/scheduler.go: bots are placed on worker nodes, and
-- get scenarios by largest remainder. Bot counts and capacities are numbers that are not negative; a
-- capacity of 0 stands for every capacity that the source takes as missing. The weights of a
-- distribution are whole numbers of some common unit, so that the shares are exact fractions: the
-- rounding of the floats is left out. `sort.Slice` is a parameter.
pub mod Placement
pub mod Seats
pub mod Shares
pub mod Rounds
pub mod Totals
pub mod Outcome
use iicpc.Prelude.{
  ℕ, zero, suc, ◌+◌, ◌-◌, ◌*◌, ◌/◌, ◌%◌, Bool, Option, none, some, List, [], ◌∷◌, ◌++◌, map, String,
  ltb, ◌==◌, if◌then◌else◌, length, filter, take, get_or, sum,
}
use iicpc.Prelude.Sorting.{SortSlice, lower, higher}

pub data BotScenario : Type 0 where
  market_maker aggressive_taker cancel_spammer mixed_retail latency_prober : BotScenario

pub data Error : Type 0 where
  insufficient_capacity no_available_nodes : Error

pub data Result {ℓ} (A : Type ℓ) : Type ℓ where
  ok : A → Result A
  err : Error → Result A

pub record ScenarioDistribution : Type 0 where
  pub market_maker_pct : ℕ
  pub aggressive_taker_pct : ℕ
  pub cancel_spammer_pct : ℕ
  pub mixed_retail_pct : ℕ
  pub latency_prober_pct : ℕ

pub record WorkerNode : Type 0 where
  pub name : String
  pub current_bots : ℕ
  pub max_capacity : ℕ

pub record BotAssignment : Type 0 where
  pub bot_index : ℕ
  pub node_name : String
  pub scenario : BotScenario

unfoldable pub capacity : WorkerNode → ℕ
capacity n = if n.max_capacity == 0 then 500 else n.max_capacity

-- An entry of `nodeCaps` at the start, and a term of `totalCap`.
unfoldable pub spare : WorkerNode → ℕ
unfolding capacity
spare n = capacity n - n.current_bots

pub eligible : List WorkerNode → List WorkerNode
unfolding capacity
eligible = filter (λ n. ltb n.current_bots (capacity n))

pub total_cap : List WorkerNode → ℕ
unfolding spare
total_cap ns = sum (map spare ns)

-- `nodeCaps[idx]--`.
pub decrement : List ℕ → ℕ → List ℕ
decrement [] i = []
decrement (c ∷ cs) zero = (c - 1) ∷ cs
decrement (c ∷ cs) (suc i) = c ∷ decrement cs i

-- The inner loop: the next index, counted up without end, whose node has room. The first argument is
-- `len(eligible) - attempts`; `none` is the error of the loop.
pub seek : ℕ → List ℕ → ℕ → Option ℕ
seek zero caps i = if get_or caps (i % length caps) 0 == 0 then none else some i
seek (suc left) caps i =
    let later = seek left caps (i + 1) in
    if get_or caps (i % length caps) 0 == 0 then later else some i

-- The outer loop, for the bots that are left: the positions in `eligible` of their nodes.
pub place : ℕ → List ℕ → ℕ → Option (List ℕ)
unfolding seek decrement
place zero caps i = some []
place (suc k) caps i = elim (seek (length caps) caps i) [
  | none ↦ none
  | some j ↦
      let p = j % length caps in
      elim (place k (decrement caps p) (j + 1)) [ none ↦ none | some ps ↦ some (p ∷ ps) ]
]

-- The scenarios in the order of `sw`, and their weights; with no weight at all, 1 for each.
pub scenarios : List BotScenario
scenarios = market_maker ∷ aggressive_taker ∷ cancel_spammer ∷ mixed_retail ∷ latency_prober ∷ []

pub weights : ScenarioDistribution → List ℕ
weights d =
    let ws =
      market_maker_pct ∷ aggressive_taker_pct ∷ cancel_spammer_pct ∷ mixed_retail_pct
      ∷ latency_prober_pct ∷ [] in
    if sum ws == 0 then 1 ∷ 1 ∷ 1 ∷ 1 ∷ 1 ∷ [] else ws
  where
    open d use {
      market_maker_pct, aggressive_taker_pct, cancel_spammer_pct, mixed_retail_pct,
      latency_prober_pct,
    }

-- `math.Floor` of each share, and what it leaves, in parts of the total weight.
pub floors : ℕ → List ℕ → List ℕ
floors fleet ws = map (λ w. w * fleet / sum ws) ws

pub remainders : ℕ → List ℕ → List ℕ
remainders fleet ws = map (λ w. w * fleet % sum ws) ws

pub indexed : ℕ → List ℕ → List (ℕ × ℕ)
indexed i [] = []
indexed i (r ∷ rs) = (i, r) ∷ indexed (i + 1) rs

-- `counts[idx]++`, and the loop over the first of the sorted indices.
pub increment : List ℕ → ℕ → List ℕ
increment [] i = []
increment (c ∷ cs) zero = (c + 1) ∷ cs
increment (c ∷ cs) (suc i) = c ∷ increment cs i

pub hand_out : List ℕ → List (ℕ × ℕ) → List ℕ
unfolding increment
hand_out counts [] = counts
hand_out counts ((i, r) ∷ is) = hand_out (increment counts i) is

abbrev pub remainder_of : ℕ × ℕ → ℕ
remainder_of x = x.1

-- How many bots each scenario gets.
pub scenario_counts : SortSlice (higher remainder_of) → ℕ → ScenarioDistribution → List ℕ
unfolding weights floors remainders indexed hand_out
scenario_counts sorting fleet d =
    let ws = weights d in
    let counts = floors fleet ws in
    hand_out counts (take (fleet - sum counts) (sorting.sort (indexed 0 (remainders fleet ws))))

-- One round of the interleaving: every scenario that has more bots than rounds gone by.
pub one_round {ℓ} : {A : Type ℓ} → ℕ → List A → List ℕ → List A
one_round r [] cs = []
one_round r (x ∷ xs) [] = []
one_round r (x ∷ xs) (c ∷ cs) = let rest = one_round r xs cs in if ltb r c then x ∷ rest else rest

-- The loop over the rounds, on fuel; it ends at a round in which nothing was written.
pub rounds {ℓ} : {A : Type ℓ} → ℕ → ℕ → List A → List ℕ → List A
unfolding one_round
rounds zero r xs cs = []
rounds (suc fuel) r xs cs =
    let rest = rounds fuel (r + 1) xs cs in
    elim (one_round r xs cs) [ [] ↦ [] | y ∷ ys ↦ (y ∷ ys) ++ rest ]

pub assign_scenarios : SortSlice (higher remainder_of) → ℕ → ScenarioDistribution → List BotScenario
unfolding scenario_counts rounds scenarios
assign_scenarios sorting fleet d = rounds (fleet + 1) 0 scenarios (scenario_counts sorting fleet d)

pub name_at : List WorkerNode → ℕ → String
name_at [] i = ""
name_at (n ∷ ns) zero = n.name
name_at (n ∷ ns) (suc i) = name_at ns i

pub assemble : ℕ → List String → List BotScenario → List BotAssignment
assemble i [] ss = []
assemble i (n ∷ ns) [] = []
assemble i (n ∷ ns) (s ∷ ss) =
    record { bot_index = i; node_name = n; scenario = s } ∷ assemble (i + 1) ns ss

abbrev pub load_of : WorkerNode → ℕ
load_of n = n.current_bots

pub schedule :
    SortSlice (lower load_of)
    → SortSlice (higher remainder_of)
    → ℕ
    → List WorkerNode
    → ScenarioDistribution
    → Result (List BotAssignment)
unfolding eligible total_cap place spare name_at assemble assign_scenarios
schedule by_load by_remainder fleet nodes d =
    let open_nodes = eligible nodes in
    let sorted = by_load.sort open_nodes in
    if length open_nodes == 0
    then err no_available_nodes
    else if ltb (total_cap open_nodes) fleet
    then err insufficient_capacity
    else elim (place fleet (map spare sorted) 0) [
      | none ↦ err insufficient_capacity
      | some ps ↦ ok (assemble 0 (map (name_at sorted) ps) (assign_scenarios by_remainder fleet d))
    ]
