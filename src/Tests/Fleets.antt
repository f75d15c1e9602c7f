-- ===== src/Tests/Fleets.antt =====
-- A fleet of two bots on two nodes, with one pod of another run (provisioner.go, server.go).
use iicpc.Prelude.{
  ◌*◌, ◌≤◌, ◌≡◌, ◌⊎◌, refl, true, false, none, some, List, [], ◌∷◌, map, String, length, replicate,
  count, arith,
}
use iicpc.Artifact.{Text, same_text}
use iicpc.Scheduler.{BotAssignment, market_maker, aggressive_taker}
use iicpc.Scheduler.Totals.{has_name}
use iicpc.Fleet.{
  Condition, Pod, World, State, build_bot_pod, pod_name, provision_fleet, wait_for_ready,
  provisioned, timed_out, create_failed, ready, failed, terminated,
}
use iicpc.Fleet.Release.{AreOthers, name_of, undeleted}
use iicpc.Fleet.Verdict.{before_failure, all_created, HasRecord, provision_fleet-verdict}
use iicpc.Shutdown
use iicpc.FleetServer.{Node, ProvisionRequest, Answers, provision, get_fleet_status, stop_fleet}
use iicpc.FleetServer.Statuses.{sized, get_fleet_status-sized}
use iicpc.FleetServer.Delivery.{workers_named, is_ready, reports_ready, IsFresh, provision-outcome}
use iicpc.Tests.Bots.{mix, by_load, by_remainder}

abbrev run : Text
run = replicate 8 97

abbrev bots : List BotAssignment
bots =
    record { bot_index = 0; node_name = "n1"; scenario = market_maker }
    ∷ record { bot_index = 1; node_name = "n2"; scenario = aggressive_taker }
    ∷ []

abbrev up : List Condition
up = record { kind = "Ready"; status = "True" } ∷ []

abbrev world : World
world = record {
  create_fails = λ i. false;
  delete_fails = λ name. false;
  ticks = none ∷ some (up ∷ [] ∷ []) ∷ some (up ∷ up ∷ []) ∷ [];
}

abbrev other : Pod
other = record {
  name = 98 ∷ [];
  benchmark_run_id = [];
  bot_scenario = market_maker;
  node_name = "n1";
  bot_index = 7;
}

abbrev state : State
state = record { pods = other ∷ []; store = λ id. none }

both_ready : wait_for_ready 2 world.ticks ≡ true
unfolding wait_for_ready
both_ready = refl

state-AreOthers : AreOthers run state.pods
unfolding same_text pod_name
state-AreOthers = ((λ i. refl), tt)

provision_fleet-verdict_example :
    let o = provision_fleet world run bots state in
    ((all_created world bots ≡ true)
      × (wait_for_ready 2 world.ticks ≡ true)
      × (o.1 ≡ provisioned)
      × (o.0.pods ≡ other ∷ map (build_bot_pod run) bots)
      × HasRecord run ready (map (name_of run) bots) 2 o.0.store)
    ⊎ ((all_created world bots ≡ true)
        × (wait_for_ready 2 world.ticks ≡ false)
        × (o.1 ≡ timed_out)
        × (o.0.pods ≡ other ∷ undeleted world run bots)
        × HasRecord run terminated (map (name_of run) bots) 2 o.0.store)
    ⊎ ((all_created world bots ≡ false)
        × (o.1 ≡ create_failed)
        × (o.0.pods ≡ other ∷ undeleted world run (before_failure world bots))
        × HasRecord run failed (map (name_of run) (before_failure world bots)) 2 o.0.store)
provision_fleet-verdict_example =
    provision_fleet-verdict world run bots state (omega arith) state-AreOthers

abbrev request : ProvisionRequest
request = record { benchmark_run_id = run; bot_count = 2; distribution = mix }

-- Two bot workers, a node with another role and one without.
abbrev nodes : List Node
nodes =
    record { name = "n1"; role = some "bot-worker" }
    ∷ record { name = "n2"; role = some "bot-worker" }
    ∷ record { name = "n3"; role = some "sandbox" }
    ∷ record { name = "n4"; role = none }
    ∷ []

abbrev answers : Answers
answers = record { nodes = some nodes; send_fails = λ p. false; world = world }

request-IsFresh : IsFresh answers request state
request-IsFresh = record { long = omega arith; others = state-AreOthers; deletes = λ name. refl }

provision-outcome_example :
    let o = provision by_load by_remainder answers request state in
    ((is_ready o.2 ≡ true)
      × (reports_ready o.1 ≡ true)
      × ((ns : List Node) × (placed : List BotAssignment) × (some nodes ≡ some ns)
          × (length placed ≡ 2)
          × ((m : String) → count (has_name m) placed ≤ 500 * workers_named m ns)
          × (o.0.pods ≡ other ∷ map (build_bot_pod run) placed)))
    ⊎ ((is_ready o.2 ≡ false) × (reports_ready o.1 ≡ false) × (o.0.pods ≡ other ∷ []))
provision-outcome_example =
    provision-outcome by_load by_remainder answers request state request-IsFresh

-- Nothing is left of another fleet.
abbrev kubernetes : Text → Shutdown.World
kubernetes id = record {
  first = some [];
  turns = [];
  last = none;
  delete_fails = λ name seconds. false;
}

get_fleet_status-sized_example :
    let o = provision_fleet world run bots state in
    (get_fleet_status o.0.store run ≡ sized run 2)
    × (get_fleet_status (stop_fleet kubernetes run o.0.store).0 run ≡ sized run 2)
get_fleet_status-sized_example =
    get_fleet_status-sized world kubernetes run bots state (omega arith) state-AreOthers
