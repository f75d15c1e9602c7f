-- ===== src/Tests/Measures.antt =====
-- Latencies and message counts (latency.go, tps.go).
use iicpc.Prelude.{ℕ, ◌≡◌, refl, ◌≤◌, ◌+◌, ◌⊎◌, List, [], ◌∷◌, map, count, All, arith}
use iicpc.Prelude.Sorting.{SortSlice, by_key, lower}
use iicpc.Latency.{LatencyWindow, new_window, add, itself, percentiles, full_population_percentiles}
use iicpc.Latency.Rank.{
  ArePercentiles, Message, add_all, latency_of, recent, percentiles-ArePercentiles,
}
use iicpc.Tps.{Event, records, reads, after_all, max_tps}
use iicpc.Tps.Window.{is_message, max_tps-peak}

abbrev ascending : SortSlice (lower itself)
ascending = by_key itself

-- The third message is received before it is sent.
abbrev three_samples : LatencyWindow
three_samples = add (add (add new_window 1 10 40) 2 10 30) 70_000_000_000 50 20

recent_percentiles : percentiles ascending three_samples 60_000_000_002 ≡ (0, 20, 20)
unfolding percentiles add by_key
recent_percentiles = refl

abbrev received : List Message
received =
    record { event_time = 1; send = 10; recv = 40 }
    ∷ record { event_time = 2; send = 10; recv = 30 }
    ∷ record { event_time = 70_000_000_000; send = 50; recv = 20 }
    ∷ []

percentiles-ArePercentiles_example :
    let w = add_all received new_window in
    ArePercentiles
      (map latency_of (recent 60_000_000_002 received))
      (percentiles ascending w 60_000_000_002)
    × ArePercentiles (map latency_of received) (full_population_percentiles ascending w)
percentiles-ArePercentiles_example = percentiles-ArePercentiles ascending received 60_000_000_002

abbrev messages : List Event
messages = records 10 ∷ records 11 ∷ reads 12 ∷ records 11 ∷ records 3 ∷ []

peak_two : (max_tps 13 (after_all [] messages)).0 ≡ 2
unfolding max_tps after_all
peak_two = refl

max_tps-peak_example :
    let r = max_tps 13 (after_all [] messages) in
    ((s : ℕ) → 13 ≤ s + 4 → count (is_message s) messages ≤ r.0)
    × ((r.0 ≡ 0) ⊎ ((s : ℕ) × (13 ≤ s + 4) × (count (is_message s) messages ≡ r.0)))
    × All (λ (b : ℕ × ℕ). 13 ≤ b.0 + 4) r.1
max_tps-peak_example = max_tps-peak 13 messages (tt, (tt, (omega arith, (tt, (tt, tt)))))
