-- ===== src/Sandbox.antt =====
-- services/sandbox-controller/internal/controller/reconciler.go and endpoint/prober.go, endpoint/
-- registry.go: the phase of a sandbox, and its endpoints. Kubernetes, the overlay network, Redis and
-- the network are the answers that a call gets (`World`), with the texts of their errors. JSON loses
-- nothing, so the hash of Redis holds the endpoints themselves.
pub mod Phases
pub mod Probes
use Prim.Native.String.{◌++◌ as append}
use iicpc.Prelude.{
  ℕ, ◌-◌, ltb, Bool, true, false, not, ◌&&◌, ◌||◌, Option, none, some, List, [], ◌∷◌, ◌++◌, map,
  String, str_eq, if◌then◌else◌, all, length, ◌==◌,
}
use iicpc.Prelude.Map.{put}

-- The phases; the status of a new resource has the empty string.
pub data SandboxPhase : Type 0 where
  unset pending running unhealthy crashed completed failed : SandboxPhase

pub data Availability : Type 0 where
  available unavailable : Availability

pub record EndpointStatus : Type 0 where
  pub protocol : String
  pub port : ℕ
  pub status : Availability

pub record SandboxSpec : Type 0 where
  pub submission_id : String
  pub benchmark_run_id : String
  pub protocols : List String

pub record SandboxStatus : Type 0 where
  pub phase : SandboxPhase
  pub internal_ip : String
  pub endpoints : List EndpointStatus
  pub termination_reason : String
  pub exit_code : ℕ

pub record EndpointInfo : Type 0 where
  pub protocol : String
  pub port : ℕ
  pub status : Availability
  pub internal_ip : String
  pub submission_id : String
  pub benchmark_run_id : String

-- What the reconciler reads of a pod: its phase, and the state of its first container.
pub data PodPhase : Type 0 where
  pod_pending pod_running pod_succeeded pod_failed pod_unknown : PodPhase

pub record Terminated : Type 0 where
  pub exit_code : ℕ
  pub reason : String

pub record Pod : Type 0 where
  pub phase : PodPhase
  pub pod_ip : String
  pub reason : String
  pub terminated : Option Terminated

pub data Lookup : Type 0 where
  found : Pod → Lookup
  missing unreadable : Lookup

pub data Overlay : Type 0 where
  overlay_created overlay_creation_failed overlay_other_error : Overlay

-- How a dial ends, and after how many nanoseconds; one that hangs ends with its context.
pub data Dial : Type 0 where
  connects refuses : ℕ → Dial
  hangs : Dial

-- The answers of the world to one call of `Reconcile`. `dials` says how a dial of an address would end.
pub record World : Type 0 where
  pub pod : Lookup
  pub overlay : Overlay
  pub create_error : Option String
  pub has_registry : Bool
  pub register_fails : Bool
  pub update_fails : String → Bool
  pub dials : String → ℕ → Dial

-- What a call does to the world, in its order.
pub data Effect : Type 0 where
  creates_overlay deletes_overlay : String → Effect
  creates_pod : String → Effect
  stores : String → List EndpointInfo → Effect
  stores_one : String → EndpointInfo → Effect

pub data Error : Type 0 where
  get_pod create_overlay : Error

pub record Outcome : Type 0 where
  pub status : SandboxStatus
  pub effects : List Effect
  pub error : Option Error

-- The map `portByProtocol`.
unfoldable pub port_by_protocol : String → Option ℕ
port_by_protocol p =
    if str_eq p "FIX"
    then some 9898
    else if str_eq p "REST"
    then some 8080
    else if str_eq p "WS"
    then some 8081
    else none

unfoldable pub new_endpoint : SandboxSpec → String → String → ℕ → EndpointInfo
new_endpoint spec ip proto port = record {
  protocol = proto;
  port = port;
  status = unavailable;
  internal_ip = ip;
  submission_id = spec.submission_id;
  benchmark_run_id = spec.benchmark_run_id;
}

abbrev cons_endpoint : Option EndpointInfo → List EndpointInfo → List EndpointInfo
cons_endpoint none eps = eps
cons_endpoint (some ep) eps = ep ∷ eps

abbrev endpoint_for : SandboxSpec → String → String → Option ℕ → Option EndpointInfo
endpoint_for spec ip proto none = none
endpoint_for spec ip proto (some port) = some (new_endpoint spec ip proto port)

-- The loop of `buildEndpoints` over the protocols; an unknown one is left out.
unfoldable pub build_list : SandboxSpec → String → List String → List EndpointInfo
unfolding port_by_protocol
build_list spec ip [] = []
build_list spec ip (proto ∷ protos) =
    cons_endpoint (endpoint_for spec ip proto (port_by_protocol proto)) (build_list spec ip protos)

unfoldable pub build_endpoints : SandboxSpec → String → List EndpointInfo
unfolding build_list
build_endpoints spec ip = build_list spec ip spec.protocols

abbrev pub is_unavailable : EndpointInfo → Bool
is_unavailable ep = elim ep.status [ unavailable ↦ true | available ↦ false ]

-- The 15 seconds of `probeCtx`, which all dials share. The 15 seconds of each dial in `ProbeEndpoints`
-- never end before them.
abbrev pub probe_timeout : ℕ
probe_timeout = 15_000_000_000

-- A dial when so many nanoseconds are left, and what it leaves.
unfoldable pub dial_context : ℕ → Dial → Availability × ℕ
dial_context left (connects t) = if ltb t left then (available, left - t) else (unavailable, 0)
dial_context left (refuses t) = (unavailable, left - t)
dial_context left hangs = (unavailable, 0)

-- The dials, one after the other.
unfoldable pub probe_list : (String → ℕ → Dial) → ℕ → List EndpointInfo → List EndpointInfo
unfolding dial_context
probe_list dials left [] = []
probe_list dials left (ep ∷ eps) =
    let result = dial_context left (dials ep.internal_ip ep.port) in
    record ep { status = result.0 } ∷ probe_list dials result.1 eps

-- `ProbeEndpoints`: the endpoints as probed, and whether `onAllUnavailable` is called.
unfoldable pub probe_endpoints : (String → ℕ → Dial) → List EndpointInfo → List EndpointInfo × Bool
unfolding probe_list
probe_endpoints dials eps =
    let results = probe_list dials probe_timeout eps in
    (results, not (length results == 0) && all is_unavailable results)

abbrev pub status_of : EndpointInfo → EndpointStatus
status_of ep = record { protocol = ep.protocol; port = ep.port; status = ep.status }

-- The updates of the registry, one for each endpoint; one that fails is logged.
unfoldable pub updates : World → String → List EndpointInfo → List Effect
updates w run_id [] = []
updates w run_id (ep ∷ eps) =
    let rest = updates w run_id eps in
    if w.update_fails ep.protocol then rest else stores_one run_id ep ∷ rest

unfoldable pub register_and_probe :
    World → SandboxSpec → String → SandboxStatus → SandboxStatus × List Effect
unfolding build_endpoints probe_endpoints updates
register_and_probe w spec ip s =
    let eps = build_endpoints spec ip in
    let (probed, all_unavailable) = probe_endpoints w.dials eps in
    let stored = if w.register_fails then [] else stores spec.benchmark_run_id eps ∷ [] in
    if not w.has_registry || length eps == 0 then (s, []) else (
      record s {
        endpoints = map status_of probed;
        termination_reason = if all_unavailable then "NO_ENDPOINTS" else s.termination_reason;
      },
      stored ++ updates w spec.benchmark_run_id probed,
    )

abbrev pub unchanged : SandboxStatus → Outcome
unchanged s = record { status = s; effects = []; error = none }

-- The exit code and the reason of a failed pod.
unfoldable pub failure_of : Pod → ℕ × String
failure_of pod = elim pod.terminated [
  | none ↦ (0, pod.reason)
  | some t ↦ (t.exit_code, if str_eq pod.reason "" then t.reason else pod.reason)
]

unfoldable pub sync_phase_from_pod : World → SandboxSpec → Pod → SandboxStatus → Outcome
unfolding register_and_probe failure_of
sync_phase_from_pod w spec pod s =
    let at_ip : SandboxStatus = record s { phase = running; internal_ip = pod.pod_ip } in
    let (probed, effects) = register_and_probe w spec pod.pod_ip at_ip in
    let (exit_code, reason) = failure_of pod in
    elim pod.phase [
      | pod_running ↦ elim s.phase [
        | running ↦ unchanged s
        | _ ↦ record { status = probed; effects = effects; error = none }
      ]
      | pod_failed ↦
          unchanged
            (record s { phase = crashed; termination_reason = reason; exit_code = exit_code })
      | pod_succeeded ↦ unchanged (record s { phase = completed })
      | pod_pending ↦ unchanged (record s { phase = pending })
      | pod_unknown ↦ unchanged s
    ]

unfoldable pub create_pod : World → SandboxSpec → SandboxStatus → Outcome
create_pod w spec s = elim w.create_error [
  | none ↦ record {
    status = record s { phase = pending };
    effects =
        creates_overlay spec.benchmark_run_id
        ∷ creates_pod (append "sandbox-" spec.submission_id)
        ∷ [];
    error = none;
  }
  | some e ↦ record {
    status = record s { phase = failed; termination_reason = append "pod creation failed: " e };
    effects = creates_overlay spec.benchmark_run_id ∷ deletes_overlay spec.benchmark_run_id ∷ [];
    error = none;
  }
]

unfoldable pub create_sandbox : World → SandboxSpec → SandboxStatus → Outcome
unfolding create_pod
create_sandbox w spec s = elim w.overlay [
  | overlay_creation_failed ↦
      unchanged (record s { phase = failed; termination_reason = "NETWORK_SETUP_FAILED" })
  | overlay_other_error ↦ record { status = s; effects = []; error = some create_overlay }
  | overlay_created ↦ create_pod w spec s
]

-- The phases in which `Reconcile` does nothing.
unfoldable pub is_settled : SandboxPhase → Bool
is_settled running = true
is_settled completed = true
is_settled failed = true
is_settled crashed = true
is_settled unhealthy = true
is_settled _ = false

unfoldable pub reconcile : World → SandboxSpec → SandboxStatus → Outcome
unfolding is_settled sync_phase_from_pod create_sandbox
reconcile w spec s = if is_settled s.phase then unchanged s else elim w.pod [
  | unreadable ↦ record { status = s; effects = []; error = some get_pod }
  | missing ↦ create_sandbox w spec s
  | found pod ↦ sync_phase_from_pod w spec pod s
]

-- Calls one after the other; each answer of the world stands for one call.
unfoldable pub reconcile_all :
    SandboxSpec → SandboxStatus → List World → SandboxStatus × List Effect
unfolding reconcile
reconcile_all spec s [] = (s, [])
reconcile_all spec s (w ∷ ws) =
    let o = reconcile w spec s in
    let (last, later) = reconcile_all spec o.status ws in (last, o.effects ++ later)
