-- ===== src/Tests/Bots.antt =====
-- A fleet placed on three nodes (scheduler.go).
use iicpc.Prelude.{◌≡◌, ◌≤◌, ◌<◌, ◌⊎◌, List, [], ◌∷◌, map, sum}
use iicpc.Prelude.Sorting.{SortSlice, by_key, by_key_down, lower, higher}
use iicpc.Scheduler.{
  ScenarioDistribution, WorkerNode, BotAssignment, ok, err, no_available_nodes,
  insufficient_capacity, load_of, remainder_of, spare, schedule,
}
use iicpc.Scheduler.Outcome.{IsPlaced, schedule_outcome}

abbrev three_nodes : List WorkerNode
three_nodes =
    record { name = "n1"; current_bots = 3; max_capacity = 5 }
    ∷ record { name = "n2"; current_bots = 0; max_capacity = 2 }
    ∷ record { name = "n3"; current_bots = 4; max_capacity = 4 }
    ∷ []

abbrev pub mix : ScenarioDistribution
mix = record {
  market_maker_pct = 50;
  aggressive_taker_pct = 30;
  cancel_spammer_pct = 20;
  mixed_retail_pct = 0;
  latency_prober_pct = 0;
}

abbrev pub by_load : SortSlice (lower load_of)
by_load = by_key load_of

abbrev pub by_remainder : SortSlice (higher remainder_of)
by_remainder = by_key_down remainder_of

schedule_outcome_example :
    ((sum (map spare three_nodes) ≡ 0)
      × (schedule by_load by_remainder 4 three_nodes mix ≡ err no_available_nodes))
    ⊎ ((0 < sum (map spare three_nodes))
        × (sum (map spare three_nodes) < 4)
        × (schedule by_load by_remainder 4 three_nodes mix ≡ err insufficient_capacity))
    ⊎ ((0 < sum (map spare three_nodes))
        × (4 ≤ sum (map spare three_nodes))
        × ((bots : List BotAssignment) × (schedule by_load by_remainder 4 three_nodes mix ≡ ok bots)
            × IsPlaced by_remainder 4 three_nodes mix bots))
schedule_outcome_example = schedule_outcome by_load by_remainder 4 three_nodes mix
