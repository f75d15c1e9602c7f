-- ===== src/Heartbeat.antt =====
-- services/bot-fleet-manager/internal/heartbeat/monitor.go: the nodes whose heartbeats stop. Times and
-- durations are nanoseconds; a duration of 0 stands for every one that the source takes as missing.
-- The mutex makes each call one step, so a run is a sequence of heartbeats and ticks.
pub mod Reports
use iicpc.Prelude.{ℕ, ◌+◌, List, [], ◌∷◌, ◌++◌, map, String, ltb, ◌==◌, if◌then◌else◌, filter}
use iicpc.Prelude.Map.{put, remove_all}

pub record Monitor : Type 0 where
  pub heartbeat_interval : ℕ
  pub missed_threshold : ℕ
  pub last_seen : List (String × ℕ)

abbrev pub new_monitor : Monitor
new_monitor = record {
  heartbeat_interval = 5_000_000_000;
  missed_threshold = 15_000_000_000;
  last_seen = [];
}

unfoldable pub record_heartbeat : Monitor → String → ℕ → Monitor
record_heartbeat m node now = record m { last_seen = put m.last_seen node now }

-- The default that `Run` puts in place of a threshold that is not positive.
unfoldable pub threshold : Monitor → ℕ
threshold m = if m.missed_threshold == 0 then 15_000_000_000 else m.missed_threshold

-- The nodes that have been silent for longer than the threshold.
unfoldable pub failed_nodes : ℕ → ℕ → List (String × ℕ) → List String
failed_nodes limit now seen = map (λ e. e.0) (filter (λ e. ltb (e.1 + limit) now) seen)

-- `checkHeartbeats`: the nodes that are left, and the calls of `onNodeFailure`.
unfoldable pub check_heartbeats : ℕ → Monitor → ℕ → Monitor × List String
unfolding failed_nodes
check_heartbeats limit m now =
    let failed = failed_nodes limit now m.last_seen in
    (record m { last_seen = remove_all m.last_seen failed }, failed)

unfoldable pub known_nodes : Monitor → List String
known_nodes m = map (λ e. e.0) m.last_seen

-- What happens while `Run` is at work: heartbeats come in, and the ticker fires.
pub data Event : Type 0 where
  beats : String → ℕ → Event
  ticks : ℕ → Event

unfoldable pub handle : Monitor → Event → Monitor × List String
unfolding record_heartbeat check_heartbeats threshold
handle m (beats node now) = (record_heartbeat m node now, [])
handle m (ticks now) = check_heartbeats (threshold m) m now

-- The monitor after some events, and the callbacks of `onNodeFailure` in their order.
unfoldable pub run : Monitor → List Event → Monitor × List String
unfolding handle
run m [] = (m, [])
run m (e ∷ es) =
    let (m', failed) = handle m e in let (m'', later) = run m' es in (m'', failed ++ later)
