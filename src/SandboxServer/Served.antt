-- ===== src/SandboxServer/Served.antt =====
-- Which endpoints the bots are told (server.go, registry.go, reconciler.go).
use iicpc.Prelude.Sorting.{count-perm}
use iicpc.Prelude.{
  ◌≡◌, refl, ap, sym, subst, ◌∙◌, Bool, true, false, not, ◌&&◌, ◌||◌, some, List, [], ◌∷◌, map,
  filter, count, String, str_eq, if◌then◌else◌, arith, Bool-cases, inl, inr, ◌==◌, length,
}
use iicpc.Sandbox.{
  SandboxSpec, SandboxStatus, running, EndpointInfo, Effect, World, Pod, pod_running, found,
  build_list, build_endpoints, register_and_probe, is_settled, reconcile,
}
use iicpc.Sandbox.Probes.{is_known, known_ports, synced}
use iicpc.SandboxServer.{
  Hash, Redis, put_all, write_all, Order, get_endpoints, Endpoint, protocol_of,
  endpoint_info_to_proto, endpoints, is_available, get_sandbox_endpoints,
}
use iicpc.SandboxServer.Hashes.{IsKeyed, avail_at, count-offers, offers, put_all-IsKeyed}
use iicpc.SandboxServer.Writes.{
  avail-put_ok, effects_lem, empty_unavailable, hash_after, if-false, if-true, last_probe, probed,
  protocol_of-same, put_ok, put_ok-IsKeyed, same_protocol, stored_first, unavailable-put_all,
}

count-served :
    (p : String) (eps : List EndpointInfo)
    → is_known p ≡ true
    → count
        (λ (e : Endpoint). same_protocol e.protocol (protocol_of p))
        (map endpoint_info_to_proto (filter is_available eps))
      ≡ count (λ e. is_available e && str_eq e.protocol p) eps
unfolding endpoint_info_to_proto
count-served p [] k = refl
count-served p (e ∷ eps) k = ground (arith, protocol_of-same p e.protocol k, count-served p eps k)

count-values :
    (p : String) (h : Hash)
    → count
        (λ (e : EndpointInfo). is_available e && str_eq e.protocol p)
        (map (λ (e : String × EndpointInfo). e.1) h)
      ≡ count (offers p) h
count-values p [] = refl
count-values p (e ∷ h) = ground (arith, count-values p h)

first-IsKeyed : (w : World) (eps : List EndpointInfo) → IsKeyed (stored_first w eps [])
first-IsKeyed w eps = elim (Bool-cases w.register_fails) [
  | inl f ↦ subst IsKeyed (sym (if-true w.register_fails [] (put_all eps []) f)) (tt, tt)
  | inr f ↦
      subst IsKeyed (sym (if-false w.register_fails [] (put_all eps []) f))
        (put_all-IsKeyed eps [] (tt, tt))
]

first-unavailable :
    (w : World) (spec : SandboxSpec) (ip p : String)
    → avail_at (stored_first w (build_list spec ip spec.protocols) []) p ≡ false
first-unavailable w spec ip p = elim (Bool-cases w.register_fails) [
  | inl f ↦
      ap (λ (h : Hash). avail_at h p)
        (if-true w.register_fails [] (put_all (build_list spec ip spec.protocols) []) f)
      ∙ empty_unavailable p
  | inr f ↦
      ap (λ (h : Hash). avail_at h p)
        (if-false w.register_fails [] (put_all (build_list spec ip spec.protocols) []) f)
      ∙ unavailable-put_all spec ip p spec.protocols [] (empty_unavailable p)
]

register_and_probe-phase :
    (w : World) (spec : SandboxSpec) (ip : String) (s : SandboxStatus)
    → (register_and_probe w spec ip s).0.phase ≡ s.phase
unfolding register_and_probe
register_and_probe-phase w spec ip s =
    elim (Bool-cases (not w.has_registry || length (build_endpoints spec ip) == 0)) [
      | inl e ↦ ap (λ (o : SandboxStatus × List Effect). o.0.phase) (if-true _ _ _ e)
      | inr e ↦ ap (λ (o : SandboxStatus × List Effect). o.0.phase) (if-false _ _ _ e)
    ]

reconcile-phase :
    (w : World) (spec : SandboxSpec) (s : SandboxStatus) (pod : Pod)
    → is_settled s.phase ≡ false
    → w.pod ≡ found pod
    → pod.phase ≡ pod_running
    → (reconcile w spec s).status.phase ≡ running
unfolding reconcile
reconcile-phase w spec s pod open_ there runs =
    let at_ip : SandboxStatus = record s { phase = running; internal_ip = pod.pod_ip } in
    rw (open_, there, reconcile, synced w spec s pod open_ runs)
      (register_and_probe-phase w spec pod.pod_ip at_ip)

-- The endpoints of the run in the registry, once the sandbox has been reconciled.
served_hash :
    (w : World) (spec : SandboxSpec) (s : SandboxStatus) (pod : Pod) (redis : Redis)
    → is_settled s.phase ≡ false
    → w.pod ≡ found pod
    → pod.phase ≡ pod_running
    → w.has_registry ≡ true
    → redis spec.benchmark_run_id ≡ []
    → write_all (reconcile w spec s).effects redis spec.benchmark_run_id
      ≡ put_ok w
          (probed w spec pod.pod_ip 0 spec.protocols)
          (stored_first w (build_list spec pod.pod_ip spec.protocols) [])
served_hash w spec s pod redis open_ there runs reg fresh =
    let at_ip : SandboxStatus = record s { phase = running; internal_ip = pod.pod_ip } in
    ap (λ (es : List Effect). write_all es redis spec.benchmark_run_id)
      (effects_lem w spec s pod open_ there runs)
    ∙ hash_after w spec pod.pod_ip at_ip redis reg
    ∙ ap
        (λ (h : Hash).
          put_ok w (probed w spec pod.pod_ip 0 spec.protocols)
            (stored_first w (build_list spec pod.pod_ip spec.protocols) h))
        fresh

-- What a hash that is read offers of a protocol.
count-read :
    (order : Order) (h : Hash) (p : String)
    → IsKeyed h
    → is_known p ≡ true
    → count
        (λ (e : Endpoint). same_protocol e.protocol (protocol_of p))
        (map endpoint_info_to_proto
          (filter is_available (map (λ (e : String × EndpointInfo). e.1) (order.arrange h))))
      ≡ (if avail_at h p then 1 else 0)
count-read order h p keyed k =
    count-served p (map (λ (e : String × EndpointInfo). e.1) (order.arrange h)) k
    ∙ count-values p (order.arrange h)
    ∙ count-perm (offers p) (order.arrange-Perm h)
    ∙ count-offers h p keyed

unless : (f x y z : Bool) → x ≡ false → y ≡ z → (if f then x else y) ≡ (not f && z)
unless f x y z h k = ground (arith, h, k)

-- Let `Reconcile` find the pod of a new or pending sandbox running, with a registry that has nothing yet
-- of the run. Then a bot that asks for the endpoints of the run, which has a name, in any order in which
-- the registry is read, is told each protocol of the interface once, if it is among those of the spec,
-- its dial connects before 15 seconds have passed since the first of the dials, which are made one after
-- the other, and its update in the registry succeeded, and not at all otherwise. A protocol that the
-- spec names more than once has the result of its last dial. Whether the registration before the dials
-- failed changes nothing.
pub reconcile-get_sandbox_endpoints :
    (order : Order) (w : World) (spec : SandboxSpec) (s : SandboxStatus) (pod : Pod) (redis : Redis)
    (p : String)
    → is_settled s.phase ≡ false
    → w.pod ≡ found pod
    → pod.phase ≡ pod_running
    → w.has_registry ≡ true
    → redis spec.benchmark_run_id ≡ []
    → str_eq spec.benchmark_run_id "" ≡ false
    → is_known p ≡ true
    → let o = reconcile w spec s in
      (eps : List Endpoint) × (get_sandbox_endpoints order
          (some o.status.phase)
          false
          spec.benchmark_run_id
          (write_all o.effects redis)
        ≡ endpoints eps)
      × (count (λ e. same_protocol e.protocol (protocol_of p)) eps ≡ (
          if not (w.update_fails p)
            && last_probe w.dials pod.pod_ip 0 p (known_ports spec.protocols) false
          then 1
          else 0))
unfolding get_sandbox_endpoints get_endpoints
reconcile-get_sandbox_endpoints order w spec s pod redis p open_ there runs reg fresh named k =
    let after = served_hash w spec s pod redis open_ there runs reg fresh in
    let first = stored_first w (build_list spec pod.pod_ip spec.protocols) [] in
    let last = put_ok w (probed w spec pod.pod_ip 0 spec.protocols) first in
    (
      map endpoint_info_to_proto
          (filter is_available (map (λ (e : String × EndpointInfo). e.1) (order.arrange last))),
      rw (named, reconcile-phase w spec s pod open_ there runs, after) refl,
      count-read order last p
            (put_ok-IsKeyed w (probed w spec pod.pod_ip 0 spec.protocols) first
              (first-IsKeyed w (build_list spec pod.pod_ip spec.protocols)))
            k
          ∙ ap (λ (b : Bool). if b then 1 else 0)
              (avail-put_ok w spec pod.pod_ip p 0 spec.protocols first
                ∙ unless (w.update_fails p) _ _ _ (first-unavailable w spec pod.pod_ip p) (
                    ap (last_probe w.dials pod.pod_ip 0 p (known_ports spec.protocols))
                      (first-unavailable w spec pod.pod_ip p))),
    )
