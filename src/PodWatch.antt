-- ===== src/PodWatch.antt =====
-- services/sandbox-controller/internal/controller/watcher.go: which events the watch of a pod reports.
-- What the watch of Kubernetes delivers is a list, with the turns at which the context is cancelled.
pub mod Reports
use iicpc.Prelude.{
  ℕ, Bool, true, false, ◌||◌, Option, none, some, List, [], ◌∷◌, String, str_eq, if◌then◌else◌,
}

-- The state of a container that has terminated.
pub record Terminated : Type 0 where
  pub reason : String
  pub exit_code : ℕ

-- A pod; a container that has not terminated is `none`.
pub record Pod : Type 0 where
  pub phase : String
  pub start_time : Option ℕ
  pub containers : List (Option Terminated)

pub record PodEvent : Type 0 where
  pub phase : String
  pub reason : String
  pub exit_code : ℕ
  pub timestamp : ℕ

-- A turn of the loop: the context ends, the channel is closed, an error, another kind of event or of
-- object, or a pod at a time, of which the event is sent unless the context ends first.
pub data Turn : Type 0 where
  cancelled closed error_event other : Turn
  changed : ℕ → Bool → Pod → Turn

pub data Ended : Type 0 where
  watching finished context_done channel_closed received_error : Ended

abbrev pub time_of : ℕ → Option ℕ → ℕ
time_of now none = now
time_of now (some t) = t

-- The first container that has terminated otherwise than by completion.
unfoldable pub crash_in : List (Option Terminated) → Option Terminated
crash_in [] = none
crash_in (none ∷ cs) = crash_in cs
crash_in (some t ∷ cs) =
    let rest = crash_in cs in if str_eq t.reason "Completed" then rest else some t

abbrev pub event_for : String → ℕ → Option Terminated → PodEvent
event_for phase ts none = record { phase = phase; reason = ""; exit_code = 0; timestamp = ts }
event_for phase ts (some t) = record {
  phase = "CRASHED";
  reason = t.reason;
  exit_code = t.exit_code;
  timestamp = ts;
}

-- `podEventFromPod`.
unfoldable pub pod_event_from_pod : ℕ → Pod → PodEvent
pod_event_from_pod now pod =
    event_for pod.phase (time_of now pod.start_time) (crash_in pod.containers)

unfoldable pub is_terminal_phase : String → Bool
is_terminal_phase phase =
    str_eq phase "CRASHED" || (str_eq phase "Succeeded" || str_eq phase "Failed")

abbrev pub sends : PodEvent → List PodEvent × Ended → List PodEvent × Ended
sends e o = (e ∷ o.0, o.1)

-- `WatchPod`, once the watch is started: the events that it sends, and how it ends.
unfoldable pub watch_pod : List Turn → List PodEvent × Ended
watch_pod [] = ([], watching)
watch_pod (cancelled ∷ ts) = ([], context_done)
watch_pod (closed ∷ ts) = ([], channel_closed)
watch_pod (error_event ∷ ts) = ([], received_error)
watch_pod (other ∷ ts) = watch_pod ts
watch_pod (changed now true pod ∷ ts) = ([], context_done)
watch_pod (changed now false pod ∷ ts) =
    let e = pod_event_from_pod now pod in
    let rest = watch_pod ts in
    if is_terminal_phase e.phase then (e ∷ [], finished) else sends e rest
