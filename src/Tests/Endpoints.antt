-- ===== src/Tests/Endpoints.antt =====
-- The endpoints of a sandbox of which one answers, as a bot reads them (server.go, registry.go).
use mathlib.Core.List.Perm
use iicpc.Prelude.{
  ◌≡◌, refl, ◌&&◌, not, true, false, none, some, List, [], ◌∷◌, map, count, ◌==◌, if◌then◌else◌,
}
use iicpc.Sandbox.{
  connects, refuses, hangs, unavailable, probe_list, probe_timeout, build_endpoints, new_endpoint,
  unset, pod_running, SandboxSpec, SandboxStatus, World, Pod, found, overlay_created, is_settled,
  reconcile, port_by_protocol,
}
use iicpc.Sandbox.Probes.{is_known, known_ports}
use iicpc.SandboxServer.{Order, Endpoint, endpoints, protocol_of, write_all, get_sandbox_endpoints}
use iicpc.SandboxServer.Writes.{last_probe, same_protocol}
use iicpc.SandboxServer.Served.{reconcile-get_sandbox_endpoints}

abbrev spec : SandboxSpec
spec = record { submission_id = "s"; benchmark_run_id = "r"; protocols = "FIX" ∷ "WS" ∷ [] }

abbrev fresh : SandboxStatus
fresh = record {
  phase = unset;
  internal_ip = "";
  endpoints = [];
  termination_reason = "";
  exit_code = 0;
}

abbrev pod : Pod
pod = record { phase = pod_running; pod_ip = "10.0.0.7"; reason = ""; terminated = none }

-- Only the WebSocket port answers, and the registration fails.
abbrev world : World
world = record {
  pod = found pod;
  overlay = overlay_created;
  create_error = none;
  has_registry = true;
  register_fails = true;
  update_fails = λ p. false;
  dials = λ ip port. if port == 8081 then connects 10 else refuses 5;
}

abbrev as_stored : Order
as_stored = record { arrange = λ h. h; arrange-Perm = λ h. Perm.refl h }

fresh_open : is_settled fresh.phase ≡ false
unfolding is_settled
fresh_open = refl

ws_known : is_known "WS" ≡ true
unfolding port_by_protocol
ws_known = refl

reconcile-get_sandbox_endpoints_example :
    let o = reconcile world spec fresh in
    (eps : List Endpoint) × (get_sandbox_endpoints as_stored
        (some o.status.phase)
        false
        "r"
        (write_all o.effects (λ run. []))
      ≡ endpoints eps)
    × (count (λ e. same_protocol e.protocol (protocol_of "WS")) eps ≡ (
        if not (world.update_fails "WS")
          && last_probe world.dials "10.0.0.7" 0 "WS" (known_ports spec.protocols) false
        then 1
        else 0))
reconcile-get_sandbox_endpoints_example =
    reconcile-get_sandbox_endpoints as_stored world spec fresh pod (λ run. []) "WS" fresh_open refl
      refl refl refl refl ws_known

-- A dial that hangs leaves no time for those after it.
starved :
    map
      (λ e. e.status)
      (probe_list
        (λ ip port. if port == 8081 then connects 10 else hangs)
        probe_timeout
        (build_endpoints spec "10.0.0.7"))
    ≡ unavailable ∷ unavailable ∷ []
unfolding probe_list build_endpoints new_endpoint
starved = refl
