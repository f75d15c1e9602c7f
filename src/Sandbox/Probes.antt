-- ===== src/Sandbox/Probes.antt =====
-- What the reconciler makes of the endpoints of a sandbox whose pod runs.
use iicpc.Prelude.{
  ℕ, ◌+◌, ◌-◌, ltb, ◌<◌, ◌≡◌, refl, Bool, true, false, not, ◌||◌, Option, none, some, List, [], ◌∷◌,
  map, String, arith, if◌then◌else◌, ◌==◌, count, any, all, length, ap, ◌∙◌, Option-cases, inl, inr,
}
use iicpc.Sandbox.{
  Availability, available, unavailable, pod_running, running, SandboxSpec, SandboxStatus,
  EndpointStatus, EndpointInfo, World, Pod, found, port_by_protocol, new_endpoint, build_list,
  build_endpoints, is_unavailable, probe_endpoints, register_and_probe, sync_phase_from_pod,
  is_settled, reconcile, status_of, Dial, connects, refuses, hangs, probe_timeout, dial_context,
  probe_list,
}

abbrev pub is_known : String → Bool
is_known p = elim (port_by_protocol p) [ none ↦ false | some port ↦ true ]

-- How long a dial takes that nothing cuts off.
abbrev pub takes : Dial → ℕ
takes (connects t) = t
takes (refuses t) = t
takes hangs = probe_timeout

-- A dial that starts so long after the first connects before the 15 seconds are over.
abbrev pub connects_after : ℕ → Dial → Bool
connects_after spent (connects t) = ltb (spent + t) probe_timeout
connects_after spent (refuses t) = false
connects_after spent hangs = false

abbrev pub status_after : ℕ → Dial → Availability
status_after spent d = if connects_after spent d then available else unavailable

abbrev onto : String → Option ℕ → List (String × ℕ) → List (String × ℕ)
onto p none ports = ports
onto p (some port) ports = (p, port) ∷ ports

-- The known protocols, with their ports.
unfoldable pub known_ports : List String → List (String × ℕ)
known_ports [] = []
known_ports (p ∷ ps) = onto p (port_by_protocol p) (known_ports ps)

-- What the dials of the ports give, one after the other, where those before have taken so long.
abbrev pub results :
    (String → ℕ → Dial) → String → ℕ → List (String × ℕ) → List (String × Availability)
results dials ip spent [] = []
results dials ip spent ((p, port) ∷ ports) =
    (p, status_after spent (dials ip port)) ∷ results dials ip (spent + takes (dials ip port)) ports

abbrev pub is_up : String × Availability → Bool
is_up (p, available) = true
is_up (p, unavailable) = false

pub dial_context-after :
    (spent : ℕ) (d : Dial)
    → dial_context (probe_timeout - spent) d
      ≡ (status_after spent d, probe_timeout - (spent + takes d))
unfolding dial_context
dial_context-after spent (connects t) = ground arith
dial_context-after spent (refuses t) = ground arith
dial_context-after spent hangs = ground arith

abbrev probed_list : World → SandboxSpec → String → ℕ → List String → List EndpointInfo
probed_list w spec ip spent ps = probe_list w.dials (probe_timeout - spent) (build_list spec ip ps)

built_lem :
    (w : World) (spec : SandboxSpec) (ip : String) (spent : ℕ) (ps : List String)
    → (length (build_list spec ip ps) ≡ count is_known ps)
      × (length (probed_list w spec ip spent ps) ≡ count is_known ps)
      × (all is_unavailable (probed_list w spec ip spent ps)
          ≡ not (any is_up (results w.dials ip spent (known_ports ps))))
      × (map {B = String × Availability}
            (λ e. (e.protocol, e.status))
            (probed_list w spec ip spent ps)
          ≡ results w.dials ip spent (known_ports ps))
unfolding build_list probe_list new_endpoint known_ports
built_lem w spec ip spent [] = (refl, refl, refl, refl)
built_lem w spec ip spent (p ∷ ps) = elim (Option-cases (port_by_protocol p)) [
  | inl e ↦
      let rest = built_lem w spec ip spent ps in
      rw e (ground (arith, e, rest), ground (arith, e, rest), rest.2, rest.3)
  | inr (port, e) ↦
      let d = w.dials ip port in
      let rest = built_lem w spec ip (spent + takes d) ps in
      rw (e, dial_context-after spent d)
        (
          ground (arith, e, rest),
          ground (arith, e, rest),
          ground (arith, rest),
          ap (λ xs. (p, status_after spent d) ∷ xs) rest.3,
        )
]

EndpointStatus-view :
    (eps : List EndpointInfo)
    → map {B = String × Availability}
        (λ (e : EndpointStatus). (e.protocol, e.status))
        (map status_of eps)
      ≡ map (λ e. (e.protocol, e.status)) eps
EndpointStatus-view [] = refl
EndpointStatus-view (e ∷ eps) = ap (λ xs. (e.protocol, e.status) ∷ xs) (EndpointStatus-view eps)

register_and_probe-status :
    (w : World) (spec : SandboxSpec) (ip : String) (s : SandboxStatus)
    → w.has_registry ≡ true
    → 0 < count is_known spec.protocols
    → ((register_and_probe w spec ip s).0.termination_reason ≡ (
        if any is_up (results w.dials ip 0 (known_ports spec.protocols))
        then s.termination_reason
        else "NO_ENDPOINTS"))
      × (map {B = String × Availability}
            (λ e. (e.protocol, e.status))
            (register_and_probe w spec ip s).0.endpoints
          ≡ results w.dials ip 0 (known_ports spec.protocols))
      × ((register_and_probe w spec ip s).0.phase ≡ s.phase)
      × ((register_and_probe w spec ip s).0.internal_ip ≡ s.internal_ip)
unfolding register_and_probe build_endpoints probe_endpoints
register_and_probe-status w spec ip s reg some_known =
    let (n, sized, none_up, same) = built_lem w spec ip 0 spec.protocols in
    let probed : List EndpointInfo = probed_list w spec ip 0 spec.protocols in
    let skip : (not w.has_registry || length (build_list spec ip spec.protocols) == 0) ≡ false =
      ground (arith, reg, n, some_known) in
    (
      rw skip (ground (arith, none_up, n, some_known, sized)),
      rw skip (EndpointStatus-view probed ∙ same),
      rw skip refl,
      rw skip refl,
    )

pub synced :
    (w : World) (spec : SandboxSpec) (s : SandboxStatus) (pod : Pod)
    → is_settled s.phase ≡ false
    → pod.phase ≡ pod_running
    → (sync_phase_from_pod w spec pod s).status
      ≡ (register_and_probe w spec pod.pod_ip
          (record s { phase = running; internal_ip = pod.pod_ip })).0
unfolding sync_phase_from_pod is_settled
synced w spec s pod open_ runs = ground (arith, open_, runs)

-- Let `Reconcile` find the pod of a new or pending sandbox running, with an endpoint registry
-- configured and at least one known protocol in the spec. Then the sandbox is RUNNING at the pod's
-- address; its status lists the known protocols of the spec in their order, each AVAILABLE exactly if
-- its dial connects within the 15 seconds that all dials have together, one after the other; and the
-- reason NO_ENDPOINTS is set if none is, while otherwise the reason stays as it was. Failures of the
-- registry change none of this.
reconcile-probes :
    (w : World) (spec : SandboxSpec) (s : SandboxStatus) (pod : Pod)
    → is_settled s.phase ≡ false
    → w.pod ≡ found pod
    → pod.phase ≡ pod_running
    → w.has_registry ≡ true
    → 0 < count is_known spec.protocols
    → let status = (reconcile w spec s).status in
      (status.phase ≡ running)
      × (status.internal_ip ≡ pod.pod_ip)
      × (map {B = String × Availability} (λ e. (e.protocol, e.status)) status.endpoints
          ≡ results w.dials pod.pod_ip 0 (known_ports spec.protocols))
      × (status.termination_reason ≡ (
          if any is_up (results w.dials pod.pod_ip 0 (known_ports spec.protocols))
          then s.termination_reason
          else "NO_ENDPOINTS"))
unfolding reconcile
reconcile-probes w spec s pod open_ there runs reg some_known =
    let at_ip : SandboxStatus = record s { phase = running; internal_ip = pod.pod_ip } in
    let (reason, eps, phase, ip) =
      register_and_probe-status w spec pod.pod_ip at_ip reg some_known in
    let reached = synced w spec s pod open_ runs in
    rw (open_, there, reconcile, reached) (phase, ip, eps, reason)
