-- ===== src/Fleet.antt =====
-- services/bot-fleet-manager/internal/store/fleet.go and provisioner/provisioner.go: the pods of a
-- fleet, created one by one, awaited and released. Identifiers and names are lists of bytes. A World
-- holds what Kubernetes answers; the pods that it keeps are part of the state.
pub mod Release
pub mod Verdict
use iicpc.Prelude.{
  ℕ, ◌+◌, ◌*◌, Bool, true, false, not, ◌&&◌, ◌||◌, Option, none, some, List, [], ◌∷◌, ◌++◌, map,
  String, str_eq, leb, ltb, if◌then◌else◌, length, take, filter, any, count,
}
use iicpc.Prelude.Decimal.{decimal}
use iicpc.Artifact.{Text, same_text}
use iicpc.Scheduler.{BotScenario, BotAssignment}

pub data FleetPhase : Type 0 where
  scheduling starting ready running stopping terminated failed timeout : FleetPhase

pub record FleetRecord : Type 0 where
  pub benchmark_run_id : Text
  pub phase : FleetPhase
  pub total_bots : ℕ
  pub ready_bots : ℕ
  pub running_bots : ℕ
  pub throttling_bots : ℕ
  pub terminated_bots : ℕ
  pub pod_names : List Text

-- `FleetStore`, as the lookup of its map.
abbrev pub FleetStore : Type 0
FleetStore = Text → Option FleetRecord

unfoldable pub set_record : Text → Option FleetRecord → FleetStore → FleetStore
set_record run r s id = if same_text id run then r else s id

-- A record that is there is changed; without one nothing happens.
unfoldable pub change_record : Text → (FleetRecord → FleetRecord) → FleetStore → FleetStore
unfolding set_record
change_record run f s = elim (s run) [ none ↦ s | some r ↦ set_record run (some (f r)) s ]

unfoldable pub new_record : Text → ℕ → FleetRecord
new_record run total = record {
  benchmark_run_id = run;
  phase = scheduling;
  total_bots = total;
  ready_bots = 0;
  running_bots = 0;
  throttling_bots = 0;
  terminated_bots = 0;
  pod_names = [];
}

unfoldable pub create : Text → ℕ → FleetStore → FleetStore
unfolding set_record new_record
create run total = set_record run (some (new_record run total))

unfoldable pub update_phase : Text → FleetPhase → FleetStore → FleetStore
unfolding change_record
update_phase run p = change_record run (λ r. record r { phase = p })

unfoldable pub increment_ready : Text → FleetStore → FleetStore
unfolding change_record
increment_ready run = change_record run (λ r. record r { ready_bots = r.ready_bots + 1 })

unfoldable pub add_pod : Text → Text → FleetStore → FleetStore
unfolding change_record
add_pod run name = change_record run (λ r. record r { pod_names = r.pod_names ++ name ∷ [] })

unfoldable pub delete_record : Text → FleetStore → FleetStore
unfolding set_record
delete_record run = set_record run none

-- What a bot pod carries.
pub record Pod : Type 0 where
  pub name : Text
  pub benchmark_run_id : Text
  pub bot_scenario : BotScenario
  pub node_name : String
  pub bot_index : ℕ

-- "bot-", eight bytes of the run, "-", and the index.
unfoldable pub pod_name : Text → ℕ → Text
pod_name run i = 98 ∷ 111 ∷ 116 ∷ 45 ∷ take 8 run ++ 45 ∷ decimal i

unfoldable pub build_bot_pod : Text → BotAssignment → Pod
unfolding pod_name
build_bot_pod run a = record {
  name = pod_name run a.bot_index;
  benchmark_run_id = run;
  bot_scenario = a.scenario;
  node_name = a.node_name;
  bot_index = a.bot_index;
}

pub record Condition : Type 0 where
  pub kind : String
  pub status : String

unfoldable pub is_pod_ready : List Condition → Bool
is_pod_ready = any (λ c. str_eq c.kind "Ready" && str_eq c.status "True")

-- What the calls answer: whether the pod of an index cannot be created and a pod cannot be deleted;
-- and the ticks before the deadline, each with the conditions of the pods that are listed, or `none`
-- where the listing fails.
pub record World : Type 0 where
  pub create_fails : ℕ → Bool
  pub delete_fails : Text → Bool
  pub ticks : List (Option (List (List Condition)))

-- The pods that Kubernetes keeps, and the store.
pub record State : Type 0 where
  pub pods : List Pod
  pub store : FleetStore

pub data Outcome : Type 0 where
  provisioned create_failed timed_out : Outcome
  -- `runID[:8]` of a shorter identifier panics.
  panics : Outcome

abbrev pub second : ℕ
second = 1_000_000_000

unfoldable pub provisioning_timeout : ℕ → ℕ
provisioning_timeout fleet_size = if leb fleet_size 1000 then 60 * second else 180 * second

unfoldable pub delete_pods : World → List Text → List Pod → List Pod
unfolding same_text
delete_pods w [] pods = pods
delete_pods w (name ∷ names) pods =
    let left =
      if w.delete_fails name then pods else filter (λ p. not (same_text p.name name)) pods in
    delete_pods w names left

unfoldable pub release_fleet : World → Text → State → State
unfolding delete_pods update_phase
release_fleet w run s = elim (s.store run) [
  | none ↦ s
  | some r ↦ record {
    pods = delete_pods w r.pod_names s.pods;
    store = update_phase run terminated s.store;
  }
]

-- The loop that creates the pods; `true` if it came to the end.
unfoldable pub deploy : World → Text → List BotAssignment → State → State × Bool
unfolding build_bot_pod add_pod
deploy w run [] s = (s, true)
deploy w run (a ∷ rest) s =
    let pod = build_bot_pod run a in
    let next =
      deploy w run rest
        (record { pods = s.pods ++ pod ∷ []; store = add_pod run pod.name s.store }) in
    if w.create_fails a.bot_index then (s, false) else next

-- `waitForReady`: whether a tick before the deadline saw the whole fleet ready.
unfoldable pub wait_for_ready : ℕ → List (Option (List (List Condition))) → Bool
unfolding is_pod_ready
wait_for_ready fleet_size [] = false
wait_for_ready fleet_size (none ∷ ticks) = wait_for_ready fleet_size ticks
wait_for_ready fleet_size (some pods ∷ ticks) =
    leb fleet_size (count is_pod_ready pods) || wait_for_ready fleet_size ticks

-- `ProvisionFleet`, after the pods were deployed.
unfoldable pub settle : World → Text → ℕ → State × Bool → State × Outcome
unfolding release_fleet wait_for_ready
settle w run fleet_size (s, false) =
    let released = release_fleet w run s in
    (record released { store = update_phase run failed released.store }, create_failed)
settle w run fleet_size (s, true) =
    if wait_for_ready fleet_size w.ticks
    then (record s { store = update_phase run ready s.store }, provisioned)
    else (release_fleet w run (record s { store = update_phase run timeout s.store }), timed_out)

unfoldable pub start_record : Text → ℕ → State → State
unfolding create update_phase
start_record run fleet_size s = record s {
  store = update_phase run starting (create run fleet_size s.store);
}

unfoldable pub provision_fleet : World → Text → List BotAssignment → State → State × Outcome
unfolding deploy settle start_record
provision_fleet w run assignments s =
    let fleet_size = length assignments in
    let started = start_record run fleet_size s in
    if ltb (length run) 8 && ltb 0 fleet_size
    then (started, panics)
    else settle w run fleet_size (deploy w run assignments started)
