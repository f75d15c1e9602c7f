-- ===== src/FleetServer.antt =====
-- services/bot-fleet-manager/internal/grpc/server.go: a fleet is scheduled and provisioned, with the
-- events of its progress. The scheduler and the provisioner are those of their modules.
pub mod Delivery
pub mod Statuses
use iicpc.Prelude.{
  ℕ, ◌%◌, Bool, true, false, Option, none, some, List, [], ◌∷◌, ◌++◌, map, String, str_eq,
  if◌then◌else◌, length, filter,
}
use iicpc.Prelude.Sorting.{SortSlice, lower, higher}
use iicpc.Artifact.{Text}
use iicpc.Scheduler.{
  ScenarioDistribution, WorkerNode, BotAssignment, Result, ok, err, Error, load_of, remainder_of,
  schedule,
}
use iicpc.Shutdown
use iicpc.Shutdown.{Deletion, shutdown_fleet}
use iicpc.Fleet.{
  State, World, Outcome, provisioned, create_failed, timed_out, panics, provision_fleet,
  FleetRecord, FleetStore,
}

-- A node of Kubernetes, with the label `role`.
pub record Node : Type 0 where
  pub name : String
  pub role : Option String

abbrev pub is_bot_worker : Node → Bool
is_bot_worker n = elim n.role [ none ↦ false | some r ↦ str_eq r "bot-worker" ]

unfoldable pub to_worker_node : Node → WorkerNode
to_worker_node n = record { name = n.name; current_bots = 0; max_capacity = 500 }

-- `getWorkerNodes`, after the list was read.
unfoldable pub get_worker_nodes : List Node → List WorkerNode
unfolding to_worker_node
get_worker_nodes ns = map to_worker_node (filter is_bot_worker ns)

pub record ProvisionRequest : Type 0 where
  pub benchmark_run_id : Text
  pub bot_count : ℕ
  pub distribution : ScenarioDistribution

pub data EventPhase : Type 0 where
  scheduling starting ready failed timeout : EventPhase

pub record ProvisionEvent : Type 0 where
  pub ready_count : ℕ
  pub total_count : ℕ
  pub phase : EventPhase

-- What the RPC returns: nil, or an error.
pub data Reply : Type 0 where
  finished : Reply
  not_sent : EventPhase → Reply
  no_node_list : Reply
  not_scheduled : Error → Reply
  not_provisioned : Outcome → Reply

-- The list of the nodes, if it can be read; which events cannot be sent; and the provisioner's world.
pub record Answers : Type 0 where
  pub nodes : Option (List Node)
  pub send_fails : EventPhase → Bool
  pub world : World

-- The event of an error of the provisioner, which is ignored if it cannot be sent.
unfoldable pub error_phase : Outcome → EventPhase
error_phase timed_out = timeout
error_phase _ = failed

abbrev pub Served : Type 0
Served = State × List ProvisionEvent × Reply

unfoldable pub add_event : ProvisionEvent → Served → Served
add_event e (s, es, r) = (s, e ∷ es, r)

unfoldable pub event : ℕ → ProvisionRequest → EventPhase → ProvisionEvent
event n req p = record { ready_count = n; total_count = req.bot_count; phase = p }

-- After the provisioner. A panic sends nothing.
unfoldable pub report : Answers → ProvisionRequest → State × Outcome → Served
unfolding event error_phase
report a req (s, provisioned) =
    (s, event req.bot_count req ready ∷ [], if a.send_fails ready then not_sent ready else finished)
report a req (s, panics) = (s, [], not_provisioned panics)
report a req (s, o) = (s, event 0 req (error_phase o) ∷ [], not_provisioned o)

unfoldable pub start : Answers → ProvisionRequest → List BotAssignment → State → Served
unfolding event report add_event
start a req bots s =
    let o = provision_fleet a.world req.benchmark_run_id bots s in
    let rest = report a req o in
    if a.send_fails starting
    then (s, event 0 req starting ∷ [], not_sent starting)
    else add_event (event 0 req starting) rest

module _ (by_load : SortSlice (lower load_of))
    (by_remainder : SortSlice (higher remainder_of)) where
  unfoldable pub schedule_fleet : Answers → ProvisionRequest → List Node → State → Served
  unfolding start
  schedule_fleet a req ns s =
      elim (schedule by_load by_remainder req.bot_count (get_worker_nodes ns) req.distribution) [
        | err e ↦ (s, event 0 req failed ∷ [], not_scheduled e)
        | ok bots ↦ start a req bots s
      ]

  unfoldable pub provision : Answers → ProvisionRequest → State → Served
  unfolding schedule_fleet get_worker_nodes
  provision a req s =
      if a.send_fails scheduling
      then (s, event 0 req scheduling ∷ [], not_sent scheduling)
      else elim a.nodes [
        | none ↦ (s, event 0 req scheduling ∷ [], no_node_list)
        | some ns ↦ add_event (event 0 req scheduling) (schedule_fleet a req ns s)
      ]

-- The counts of a fleet on the wire, as unsigned numbers of 32 bits.
pub record FleetStatus : Type 0 where
  pub benchmark_run_id : Text
  pub total_bots : ℕ
  pub ready_bots : ℕ
  pub running_bots : ℕ
  pub throttling_bots : ℕ
  pub terminated_bots : ℕ

abbrev pub uint32 : ℕ → ℕ
uint32 n = n % 4_294_967_296

-- `ToFleetStatus`.
unfoldable pub to_fleet_status : FleetRecord → FleetStatus
to_fleet_status r = record {
  benchmark_run_id = r.benchmark_run_id;
  total_bots = uint32 r.total_bots;
  ready_bots = uint32 r.ready_bots;
  running_bots = uint32 r.running_bots;
  throttling_bots = uint32 r.throttling_bots;
  terminated_bots = uint32 r.terminated_bots;
}

abbrev pub no_bots : Text → FleetStatus
no_bots run = record {
  benchmark_run_id = run;
  total_bots = 0;
  ready_bots = 0;
  running_bots = 0;
  throttling_bots = 0;
  terminated_bots = 0;
}

-- `GetFleetStatus`.
unfoldable pub get_fleet_status : FleetStore → Text → FleetStatus
unfolding to_fleet_status
get_fleet_status s run = elim (s run) [ none ↦ no_bots run | some r ↦ to_fleet_status r ]

-- `StopFleet`: the pods of the run are shut down, and the store is left alone.
unfoldable pub stop_fleet :
    (Text → Shutdown.World) → Text → FleetStore → FleetStore × (List Deletion × Shutdown.Ended)
stop_fleet kubernetes run s = (s, shutdown_fleet (kubernetes run))
