-- ===== src/Tps.antt =====
-- services/telemetry-ingester/internal/metrics/tps.go: counts of messages per second, and the highest
-- of the last five seconds. The map of buckets is a list of pairs with different keys, in some order:
-- nothing below depends on the order. Seconds and counts are numbers that do not wrap.
pub mod Window
use iicpc.Prelude.{ℕ, ◌+◌, List, [], ◌∷◌, ltb, ◌==◌, if◌then◌else◌}

abbrev pub Buckets : Type 0
Buckets = List (ℕ × ℕ)

-- `w.buckets[sec]++`; a missing key reads as 0.
unfoldable pub record_second : ℕ → Buckets → Buckets
record_second sec [] = (sec, 1) ∷ []
record_second sec ((s, c) ∷ bs) =
    if s == sec then (s, c + 1) ∷ bs else (s, c) ∷ record_second sec bs

-- The loop of `MaxTPS` at the second `now`: the highest count so far, and the buckets that are not
-- deleted. A bucket is stale if it is before `now - 4`.
unfoldable pub scan_buckets : ℕ → ℕ → Buckets → ℕ × Buckets
scan_buckets now max [] = (max, [])
scan_buckets now max ((s, c) ∷ bs) =
    let rest =
      scan_buckets now (if ltb (s + 4) now then max else if ltb max c then c else max) bs in
    (rest.0, if ltb (s + 4) now then rest.1 else (s, c) ∷ rest.1)

unfoldable pub max_tps : ℕ → Buckets → ℕ × Buckets
unfolding scan_buckets
max_tps now bs = scan_buckets now 0 bs

-- The calls that a window sees: a message in a second, or a reading at a second.
pub data Event : Type 0 where
  records reads : ℕ → Event

unfoldable pub after_event : Buckets → Event → Buckets
unfolding record_second max_tps
after_event bs (records sec) = record_second sec bs
after_event bs (reads now) = (max_tps now bs).1

unfoldable pub after_all : Buckets → List Event → Buckets
unfolding after_event
after_all bs [] = bs
after_all bs (e ∷ es) = after_all (after_event bs e) es
