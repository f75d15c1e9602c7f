-- ===== src/Latency/Rank.antt =====
-- The percentiles of latency.go against the nearest-rank method.
use mathlib.Core.List.{append_assoc, append-nil}
use iicpc.Prelude.{
  ℕ, ◌+◌, ◌-◌, ◌*◌, ◌/◌, ◌≤◌, ◌<◌, ◌≡◌, refl, List, [], ◌∷◌, map, arith, leb, ltb, ◌==◌, length,
  count, Bool-cases, inl, inr, ◌⊎◌, ap, ◌∙◌, sym, ◌++◌, filter,
}
use iicpc.Prelude.Sorting.{IsSorted, SortSlice, lower, count-perm, length-perm}
use iicpc.Latency.{
  LatencySample, LatencyWindow, new_window, add, itself, percentile_at, compute_percentiles,
  percentiles, full_population_percentiles,
}
use iicpc.Latency.Order.{get_or_mono, count-le-get_or, count-lt-get_or, count-eq-get_or}

-- `v` is the percentile `p` of the values by nearest rank: it is one of them, at least p per cent of
-- them are at or below it, and fewer than p per cent are below it.
abbrev pub IsPercentile : ℕ → List ℕ → ℕ → Type 0
IsPercentile p xs v =
    (0 < count (λ x. x == v) xs)
    × (p * length xs ≤ 100 * count (λ x. leb x v) xs)
    × (100 * count (λ x. ltb x v) xs < p * length xs)

-- The index that the source computes.
abbrev rank : ℕ → ℕ → ℕ
rank p n = (p * n * 100 + 9999) / 10000 - 1

rank_bounds :
    (p n : ℕ)
    → 0 < p
    → p ≤ 100
    → 0 < n
    → (rank p n < n) × (p * n ≤ 100 * (rank p n + 1)) × (100 * rank p n < p * n)
rank_bounds p n hp h hn =
    let low : 0 < p * n = grind arith in
    let high : p * n ≤ 100 * n = grind arith in (omega arith, omega arith, omega arith)

percentile_at-IsPercentile :
    (p : ℕ) (xs : List ℕ)
    → 0 < p
    → p ≤ 100
    → 0 < length xs
    → IsSorted (lower itself) xs
    → IsPercentile p xs (percentile_at xs p)
unfolding percentile_at
percentile_at-IsPercentile p xs hp h some_xs s =
    let (r, up, low) = rank_bounds p (length xs) hp h some_xs in
    ground (
      arith,
      count-eq-get_or xs (rank p (length xs)) r,
      count-le-get_or xs (rank p (length xs)) s r,
      count-lt-get_or xs (rank p (length xs)) s r,
    )

percentile_at_mono :
    (p q : ℕ) (xs : List ℕ)
    → 0 < p
    → p ≤ q
    → q ≤ 100
    → IsSorted (lower itself) xs
    → percentile_at xs p ≤ percentile_at xs q
unfolding percentile_at
percentile_at_mono p q [] hp pq h s = omega arith
percentile_at_mono p q (x ∷ xs) hp pq h s =
    let n : ℕ = length (x ∷ xs) in
    let (rp, up, low) = rank_bounds p n hp (omega arith) (omega arith) in
    let (rq, uq, lowq) = rank_bounds q n (omega arith) h (omega arith) in
    let more : p * n ≤ q * n = grind arith in
    ground (arith, get_or_mono (x ∷ xs) (rank p n) (rank q n) s (omega arith) rq)

-- Rearranging the values does not change which value is a percentile.
rearranged :
    (sorting : SortSlice (lower itself)) (p v : ℕ) (xs : List ℕ)
    → IsPercentile p (sorting.sort xs) v
    → IsPercentile p xs v
rearranged sorting p v xs h = omega (
  arith,
  ap (λ t. p * t) (length-perm (sorting.sort-Perm xs)),
  count-perm (λ x. x == v) (sorting.sort-Perm xs),
  count-perm (λ x. leb x v) (sorting.sort-Perm xs),
  count-perm (λ x. ltb x v) (sorting.sort-Perm xs),
)

-- What three percentiles of the values should be: zeros if there is no value, and else the nearest
-- ranks, in order.
abbrev pub ArePercentiles : List ℕ → ℕ × ℕ × ℕ → Type 0
ArePercentiles xs (p50, p90, p99) =
    ((length xs ≡ 0) × (p50 ≡ 0) × (p90 ≡ 0) × (p99 ≡ 0))
    ⊎ ((0 < length xs)
        × IsPercentile 50 xs p50
        × IsPercentile 90 xs p90
        × IsPercentile 99 xs p99
        × (p50 ≤ p90)
        × (p90 ≤ p99))

module _ (sorting : SortSlice (lower itself)) (xs : List ℕ) where
  ranked :
      (p : ℕ)
      → 0 < p
      → p ≤ 100
      → 0 < length xs
      → IsPercentile p xs (percentile_at (sorting.sort xs) p)
  ranked p hp h some_xs = rearranged sorting p (percentile_at (sorting.sort xs) p) xs (
      percentile_at-IsPercentile p (sorting.sort xs) hp h
        (omega (arith, length-perm (sorting.sort-Perm xs))) (sorting.sort-IsSorted xs))

  ordered :
      (p q : ℕ)
      → 0 < p
      → p ≤ q
      → q ≤ 100
      → percentile_at (sorting.sort xs) p ≤ percentile_at (sorting.sort xs) q
  ordered p q hp pq h = percentile_at_mono p q (sorting.sort xs) hp pq h (sorting.sort-IsSorted xs)

  compute_percentiles_lem : ArePercentiles xs (compute_percentiles sorting xs)
  unfolding compute_percentiles
  compute_percentiles_lem = elim (Bool-cases (length xs == 0)) [
    | inl e ↦ rw (e, compute_percentiles) (inl (ground arith, refl, refl, refl))
    | inr e ↦
        rw (e, compute_percentiles)
          (inr (
            ground arith,
            ranked 50 (omega arith) (omega arith) (ground arith),
            ranked 90 (omega arith) (omega arith) (ground arith),
            ranked 99 (omega arith) (omega arith) (ground arith),
            ordered 50 90 (omega arith) (omega arith) (omega arith),
            ordered 90 99 (omega arith) (omega arith) (omega arith),
          ))
  ]

-- A message: when its event took place, when it was sent and when the answer was received.
pub record Message : Type 0 where
  pub event_time : ℕ
  pub send : ℕ
  pub recv : ℕ

-- The calls of `Add` for the messages, in their order.
unfoldable pub add_all : List Message → LatencyWindow → LatencyWindow
unfolding add
add_all [] w = w
add_all (m ∷ ms) w = add_all ms (add w m.event_time m.send m.recv)

-- The latency of a message; subtraction stops at 0.
abbrev pub latency_of : Message → ℕ
latency_of m = m.recv - m.send

-- The messages whose events took place at most 60 seconds before a time.
abbrev pub recent : ℕ → List Message → List Message
recent now ms = filter (λ m. leb now (m.event_time + 60_000_000_000)) ms

abbrev sample_of : Message → LatencySample
sample_of m = record { event_time = m.event_time; latency = latency_of m }

add-sample :
    (w : LatencyWindow) (m : Message)
    → add w m.event_time m.send m.recv ≡ record w { samples = w.samples ++ sample_of m ∷ [] }
unfolding add
add-sample w m =
    ap {A = ℕ} {B = LatencyWindow}
      (λ l. record w {
        samples = w.samples ++ record { event_time = m.event_time; latency = l } ∷ [];
      })
      (ground arith)

add_all-samples :
    (ms : List Message) (w : LatencyWindow)
    → add_all ms w ≡ record w { samples = w.samples ++ map sample_of ms }
unfolding add_all
add_all-samples [] w =
    ap {A = List LatencySample} {B = LatencyWindow} (λ s. record w { samples = s })
      (sym (append-nil w.samples))
add_all-samples (m ∷ ms) w =
    add_all-samples ms (add w m.event_time m.send m.recv)
    ∙ ap {A = LatencyWindow} {B = LatencyWindow}
        (λ v. record v { samples = v.samples ++ map sample_of ms }) (add-sample w m)
    ∙ ap {A = List LatencySample} {B = LatencyWindow} (λ s. record w { samples = s })
        (append_assoc w.samples (sample_of m ∷ []) (map sample_of ms))

latencies : (ms : List Message) → map (λ s. s.latency) (map sample_of ms) ≡ map latency_of ms
latencies [] = refl
latencies (m ∷ ms) = ap (λ xs. latency_of m ∷ xs) (latencies ms)

recent-latencies :
    (now : ℕ) (ms : List Message)
    → map
        (λ s. s.latency)
        (filter (λ s. leb now (s.event_time + 60_000_000_000)) (map sample_of ms))
      ≡ map latency_of (recent now ms)
recent-latencies now [] = refl
recent-latencies now (m ∷ ms) = elim (Bool-cases (leb now (m.event_time + 60_000_000_000))) [
  | inl e ↦ rw (e, recent-latencies now ms) refl
  | inr e ↦ rw (e, recent-latencies now ms) refl
]

-- After any messages are added to a new window, `Percentiles` returns the nearest-rank percentiles of
-- the latencies of those whose events took place at most 60 seconds before the time that it is given,
-- and `FullPopulationPercentiles` those of all messages ever added. A message that is received before
-- it is sent counts as 0. Each returns zeros if there are none, and p50 is at most p90, which is at
-- most p99.
pub percentiles-ArePercentiles :
    (sorting : SortSlice (lower itself)) (ms : List Message) (now : ℕ)
    → let w = add_all ms new_window in
      ArePercentiles (map latency_of (recent now ms)) (percentiles sorting w now)
      × ArePercentiles (map latency_of ms) (full_population_percentiles sorting w)
unfolding percentiles full_population_percentiles
percentiles-ArePercentiles sorting ms now =
    rw (add_all-samples ms new_window, recent-latencies now ms, latencies ms)
      (
        compute_percentiles_lem sorting (map latency_of (recent now ms)),
        compute_percentiles_lem sorting (map latency_of ms),
      )
