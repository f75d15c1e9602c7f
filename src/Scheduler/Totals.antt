-- ===== src/Scheduler/Totals.antt =====
-- What the rooms, the seats and the scenarios add up to (scheduler.go).
use iicpc.Prelude.{
  ℕ, zero, suc, ◌+◌, ◌≤◌, ◌<◌, ◌≡◌, refl, Bool, true, false, List, [], ◌∷◌, map, String, str_eq,
  if◌then◌else◌, length, sum, arith, count, get_or, ◌∙◌, count-length, ap,
}
use iicpc.Prelude.Sorting.{SortSlice, higher}
use iicpc.Scheduler.{
  ScenarioDistribution, WorkerNode, BotScenario, market_maker, aggressive_taker, cancel_spammer,
  mixed_retail, latency_prober, BotAssignment, remainder_of, scenario_counts, scenarios,
  assign_scenarios, spare, eligible, assemble,
}
use iicpc.Scheduler.Placement.{named}
use iicpc.Scheduler.Rounds.{owed, rounds-owed}
use iicpc.Scheduler.{rounds}
use iicpc.Scheduler.Shares.{scenario_counts-quota, length-scenario_counts}

-- The room of a node, if it has the name `m`.
abbrev pub room_at : String → WorkerNode → ℕ
room_at m n = if str_eq n.name m then spare n else 0

abbrev pub has_name : String → BotAssignment → Bool
has_name m a = str_eq a.node_name m

abbrev pub is_scenario : BotScenario → BotScenario → Bool
is_scenario market_maker market_maker = true
is_scenario aggressive_taker aggressive_taker = true
is_scenario cancel_spammer cancel_spammer = true
is_scenario mixed_retail mixed_retail = true
is_scenario latency_prober latency_prober = true
is_scenario _ _ = false

abbrev pub position : BotScenario → ℕ
position market_maker = 0
position aggressive_taker = 1
position cancel_spammer = 2
position mixed_retail = 3
position latency_prober = 4

abbrev pub indices : ℕ → ℕ → List ℕ
indices i zero = []
indices i (suc n) = i ∷ indices (i + 1) n

pub eligible-sum :
    (f : WorkerNode → ℕ) (ns : List WorkerNode)
    → ((n : WorkerNode) → f n ≤ spare n)
    → sum (map f (eligible ns)) ≡ sum (map f ns)
unfolding eligible spare
eligible-sum f [] h = refl
eligible-sum f (n ∷ ns) h = ground (arith, h n, eligible-sum f ns h)

pub eligible-pos : (ns : List WorkerNode) → 0 < length (eligible ns) → 0 < sum (map spare ns)
unfolding eligible spare
eligible-pos [] h = absurd (omega arith)
eligible-pos (n ∷ ns) h = ground (arith, eligible-pos ns)

pub named-spare :
    (m : String) (ns : List WorkerNode) → named m ns (map spare ns) ≡ sum (map (room_at m) ns)
unfolding named
named-spare m [] = refl
named-spare m (n ∷ ns) = omega (arith, named-spare m ns)

pub assemble-total :
    (i : ℕ) (names : List String) (ss : List BotScenario)
    → length names ≡ length ss
    → (length (assemble i names ss) ≡ length names)
      × (map (λ a. a.bot_index) (assemble i names ss) ≡ indices i (length names))
      × ((m : String) → count (has_name m) (assemble i names ss) ≡ count (λ s. str_eq s m) names)
      × ((s : BotScenario)
          → count (λ a. is_scenario s a.scenario) (assemble i names ss) ≡ count (is_scenario s) ss)
unfolding assemble
assemble-total i [] [] h = (refl, refl, λ m. refl, λ s. refl)
assemble-total i [] (s ∷ ss) h = absurd (omega arith)
assemble-total i (n ∷ ns) [] h = absurd (omega arith)
assemble-total i (n ∷ ns) (s ∷ ss) h =
    let (len, idx, named_so, so) = assemble-total (i + 1) ns ss (omega arith) in
    (omega arith, ap (λ l. i ∷ l) idx, λ m. omega (arith, named_so m), λ t. omega (arith, so t))

owed-sum : (cs : List ℕ) → length cs ≡ 5 → owed (λ s. true) 0 scenarios cs ≡ sum cs
unfolding owed scenarios
owed-sum [] h = absurd (omega arith)
owed-sum (a ∷ []) h = absurd (omega arith)
owed-sum (a ∷ b ∷ []) h = absurd (omega arith)
owed-sum (a ∷ b ∷ c ∷ []) h = absurd (omega arith)
owed-sum (a ∷ b ∷ c ∷ d ∷ []) h = absurd (omega arith)
owed-sum (a ∷ b ∷ c ∷ d ∷ e ∷ []) h = omega arith
owed-sum (a ∷ b ∷ c ∷ d ∷ e ∷ f ∷ g) h = absurd (omega arith)

owed-position :
    (s : BotScenario) (cs : List ℕ)
    → length cs ≡ 5
    → owed (is_scenario s) 0 scenarios cs ≡ get_or cs (position s) 0
unfolding owed scenarios
owed-position s [] h = absurd (omega arith)
owed-position s (a ∷ []) h = absurd (omega arith)
owed-position s (a ∷ b ∷ []) h = absurd (omega arith)
owed-position s (a ∷ b ∷ c ∷ []) h = absurd (omega arith)
owed-position s (a ∷ b ∷ c ∷ d ∷ []) h = absurd (omega arith)
owed-position market_maker (a ∷ b ∷ c ∷ d ∷ e ∷ []) h = omega arith
owed-position aggressive_taker (a ∷ b ∷ c ∷ d ∷ e ∷ []) h = omega arith
owed-position cancel_spammer (a ∷ b ∷ c ∷ d ∷ e ∷ []) h = omega arith
owed-position mixed_retail (a ∷ b ∷ c ∷ d ∷ e ∷ []) h = omega arith
owed-position latency_prober (a ∷ b ∷ c ∷ d ∷ e ∷ []) h = omega arith
owed-position s (a ∷ b ∷ c ∷ d ∷ e ∷ f ∷ g) h = absurd (omega arith)

module _ (by_remainder : SortSlice (higher remainder_of)) (fleet : ℕ)
    (d : ScenarioDistribution) where
  enough_fuel : owed (λ s. true) 0 scenarios (scenario_counts by_remainder fleet d) < fleet + 1
  enough_fuel = omega (
    arith,
    owed-sum (scenario_counts by_remainder fleet d) (length-scenario_counts by_remainder fleet d),
    (scenario_counts-quota by_remainder fleet d).0,
  )

  -- The interleaved scenarios fill the fleet, with no slot written twice or left empty.
  pub length-assign_scenarios : length (assign_scenarios by_remainder fleet d) ≡ fleet
  unfolding assign_scenarios
  length-assign_scenarios = omega (
    arith,
    count-length (rounds (fleet + 1) 0 scenarios (scenario_counts by_remainder fleet d)),
    rounds-owed (λ s. true) (fleet + 1) 0 scenarios (scenario_counts by_remainder fleet d)
        enough_fuel,
    owed-sum (scenario_counts by_remainder fleet d) (length-scenario_counts by_remainder fleet d),
    (scenario_counts-quota by_remainder fleet d).0,
  )

  pub count-assign_scenarios :
      (s : BotScenario)
      → count (is_scenario s) (assign_scenarios by_remainder fleet d)
        ≡ get_or (scenario_counts by_remainder fleet d) (position s) 0
  unfolding assign_scenarios
  count-assign_scenarios s =
      rounds-owed (is_scenario s) (fleet + 1) 0 scenarios (scenario_counts by_remainder fleet d)
        enough_fuel
      ∙ owed-position s (scenario_counts by_remainder fleet d)
          (length-scenario_counts by_remainder fleet d)
