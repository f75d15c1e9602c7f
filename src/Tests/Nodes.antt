-- ===== src/Tests/Nodes.antt =====
-- Heartbeats, subscribers and health polls (monitor.go, hub.go, healthcheck.go).
use iicpc.Prelude.{ℕ, ◌≡◌, refl, ◌≤◌, ◌<◌, ◌⊎◌, List, [], ◌∷◌, any, length, if◌then◌else◌}
use iicpc.Heartbeat.{Event, beats, ticks, new_monitor, record_heartbeat}
use iicpc.Heartbeat as Heartbeat
use iicpc.Heartbeat.Reports.{reports, is_tick_after, silent-reported_once}
use iicpc.Hub.{registers, unregisters, receives, broadcasts, cancels, new_hub, running}
use iicpc.Hub as Hub
use iicpc.Hub.Safety.{IsHealthy, run-IsHealthy}
use iicpc.Health.{Answer, no_response, status, HealthChecker, unhealthy, cancelled}
use iicpc.Health as Health
use iicpc.Health.Streaks.{streak_after, run-ends_at_streak}

abbrev before : List Heartbeat.Event
before = beats "n1" 0 ∷ beats "n2" 1 ∷ ticks 20_000_000_000 ∷ []

-- The node is late at the second tick, and at the third.
abbrev after : List Heartbeat.Event
after =
    ticks 30_000_000_000
    ∷ beats "n2" 31_000_000_000
    ∷ ticks 36_000_000_000
    ∷ ticks 41_000_000_000
    ∷ []

silent-reported_once_example :
    reports "n1"
      (Heartbeat.run
        (record_heartbeat (Heartbeat.run new_monitor before).0 "n1" 20_000_000_001)
        after).1
    ≡ (if any (is_tick_after 35_000_000_001) after then 1 else 0)
silent-reported_once_example = silent-reported_once before after "n1" 20_000_000_001 refl

abbrev visits : List Hub.Event
visits =
    registers 1
    ∷ registers 2
    ∷ broadcasts "a"
    ∷ receives 1
    ∷ unregisters 1
    ∷ broadcasts "b"
    ∷ registers 2
    ∷ cancels
    ∷ receives 2
    ∷ []

run-IsHealthy_example : IsHealthy (Hub.run (running new_hub) visits)
run-IsHealthy_example = run-IsHealthy visits (refl, (refl, (refl, tt)))

abbrev checker : HealthChecker
checker = record { consecutive_fail = 0; max_fails = 0 }

abbrev answers : List Answer
answers =
    status 500 ∷ no_response ∷ status 204 ∷ status 404 ∷ no_response ∷ status 300 ∷ status 200 ∷ []

sixth_probe : Health.run checker answers ≡ (unhealthy, 6)
unfolding Health.run
sixth_probe = refl

run-ends_at_streak_example :
    (((Health.run checker answers).0 ≡ unhealthy)
      × ((Health.run checker answers).1 ≤ length answers)
      × (streak_after (Health.run checker answers).1 answers ≡ Health.threshold checker)
      × ((m : ℕ)
          → m < (Health.run checker answers).1
          → streak_after m answers < Health.threshold checker))
    ⊎ (((Health.run checker answers).0 ≡ cancelled)
        × ((Health.run checker answers).1 ≡ length answers)
        × ((m : ℕ) → m ≤ length answers → streak_after m answers < Health.threshold checker))
run-ends_at_streak_example = run-ends_at_streak checker answers refl
