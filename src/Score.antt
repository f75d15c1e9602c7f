-- ===== src/Score.antt =====
-- services/leaderboard-service/internal/scoring/scorer.go: the score of a run. The 99th percentile is
-- in nanoseconds, a part of the score is a whole number of 99 millionths of 1, and the composite one of
-- hundredths of these; what the floats round off is left out.
pub mod Ranks
use iicpc.Prelude.{ℕ, ◌+◌, ◌*◌, ◌-◌, Bool, true, false, String, ltb, if◌then◌else◌}
use iicpc.Status.{
  RunStatus, sandbox_crash, build_failed, build_timeout, no_endpoints, provisioning_timeout,
  insufficient_capacity,
}

-- 1.0, as a part and as a composite.
abbrev pub one : ℕ
one = 99_000_000

abbrev pub full : ℕ
full = 9_900_000_000

-- `terminalStatuses`; a missing key reads as false.
unfoldable pub terminal_statuses : RunStatus → Bool
terminal_statuses sandbox_crash = true
terminal_statuses build_failed = true
terminal_statuses build_timeout = true
terminal_statuses no_endpoints = true
terminal_statuses provisioning_timeout = true
terminal_statuses insufficient_capacity = true
terminal_statuses _ = false

unfoldable pub clamp : ℕ → ℕ → ℕ → ℕ
clamp v lo hi = if ltb v lo then lo else if ltb hi v then hi else v

-- 100 ms less the percentile, over 99 ms. Where the source goes below 0, the subtraction stops at the 0
-- that the clamp would give.
unfoldable pub compute_speed_score : ℕ → ℕ
unfolding clamp
compute_speed_score p99 = clamp (100_000_000 - p99) 0 one

unfoldable pub compute_stability_score : ℕ → ℕ
unfolding clamp
compute_stability_score max_tps = clamp (99 * max_tps) 0 one

unfoldable pub compute_composite_score : ℕ → ℕ → ℕ → ℕ
compute_composite_score speed stability accuracy = 35 * speed + 35 * stability + 30 * accuracy

unfoldable pub compute_composite_score_for_run : RunStatus → ℕ → ℕ → ℕ → ℕ
unfolding terminal_statuses compute_composite_score compute_speed_score compute_stability_score
compute_composite_score_for_run status p99 max_tps accuracy =
    if terminal_statuses status
    then 0
    else compute_composite_score (compute_speed_score p99) (compute_stability_score max_tps)
        accuracy
