-- ===== src/Latency.antt =====
-- services/telemetry-ingester/internal/metrics/latency.go: a rolling window of latencies and its
-- percentiles. Times and latencies are whole nanoseconds, so a latency is 1000 times the source's
-- number of microseconds, and a quantile is a percentage: `p*float64(n)+0.9999` is the fraction
-- (100 p n + 9999) / 10000, which truncates to the same integer as the floats do up to some 10^11
-- samples. `sort.Float64s` is a parameter.
pub mod Order
pub mod Rank
use iicpc.Prelude.{
  ℕ, ◌+◌, ◌-◌, ◌*◌, ◌/◌, Bool, List, [], ◌∷◌, ◌++◌, map, leb, ltb, ◌==◌, if◌then◌else◌, length,
  filter, get_or,
}
use iicpc.Prelude.Sorting.{SortSlice, lower}

pub record LatencySample : Type 0 where
  pub event_time : ℕ
  pub latency : ℕ

pub record LatencyWindow : Type 0 where
  pub window_size : ℕ
  pub samples : List LatencySample

-- `NewLatencyWindow`: 60 seconds.
abbrev pub new_window : LatencyWindow
new_window = record { window_size = 60_000_000_000; samples = [] }

-- A negative latency is recorded as 0.
unfoldable pub add : LatencyWindow → ℕ → ℕ → ℕ → LatencyWindow
add w event_time send recv =
    let latency = if ltb recv send then 0 else recv - send in
    record w { samples = w.samples ++ record { event_time = event_time; latency = latency } ∷ [] }

abbrev pub itself : ℕ → ℕ
itself x = x

-- The index is the ceiling of p n / 100, less 1, kept inside the list.
unfoldable pub percentile_at : List ℕ → ℕ → ℕ
percentile_at sorted p =
    let n = length sorted in
    let i = (p * n * 100 + 9999) / 10000 - 1 in
    if n == 0 then 0 else get_or sorted (if leb n i then n - 1 else i) 0

unfoldable pub compute_percentiles : SortSlice (lower itself) → List ℕ → ℕ × ℕ × ℕ
unfolding percentile_at
compute_percentiles sorting values =
    let sorted = sorting.sort values in
    if length values == 0
    then (0, 0, 0)
    else (percentile_at sorted 50, percentile_at sorted 90, percentile_at sorted 99)

-- The samples that are not before `now - WindowSize`.
abbrev pub in_window : ℕ → LatencyWindow → List LatencySample
in_window now w = filter (λ s. leb now (s.event_time + w.window_size)) w.samples

unfoldable pub percentiles : SortSlice (lower itself) → LatencyWindow → ℕ → ℕ × ℕ × ℕ
unfolding compute_percentiles
percentiles sorting w now = compute_percentiles sorting (map (λ s. s.latency) (in_window now w))

unfoldable pub full_population_percentiles : SortSlice (lower itself) → LatencyWindow → ℕ × ℕ × ℕ
unfolding compute_percentiles
full_population_percentiles sorting w = compute_percentiles sorting (map (λ s. s.latency) w.samples)
