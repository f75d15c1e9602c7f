-- ===== src/SandboxServer/Writes.antt =====
-- The hash of a run after a sandbox has been probed (reconciler.go, registry.go).
use iicpc.Prelude.Map.{get, put, get-put}
use iicpc.Prelude.{
  ℕ, ◌+◌, ◌-◌, ◌≡◌, refl, ap, sym, eq_refl, ◌∙◌, Bool, true, false, not, ◌&&◌, ◌||◌, List, [], ◌∷◌,
  ◌++◌, any, String, str_eq, eq_iff, if◌then◌else◌, arith, Bool-cases, Option-cases, List-cases,
  inl, inr, ◌==◌, length,
}
use iicpc.Sandbox.{
  SandboxSpec, SandboxStatus, running, EndpointInfo, Effect, stores, World, Pod, pod_running, found,
  port_by_protocol, new_endpoint, build_list, build_endpoints, Availability, Dial, probe_timeout,
  probe_list, probe_endpoints, updates, register_and_probe, sync_phase_from_pod, is_settled,
  reconcile,
}
use iicpc.Sandbox.Probes.{
  is_known, known_ports, takes, connects_after, status_after, dial_context-after,
}
use iicpc.SandboxServer.{
  Hash, Redis, put_all, update_key, register_endpoints, update_endpoint_status, write, write_all,
  Protocol, unspecified, fix, rest, websocket, protocol_of, is_available,
}
use iicpc.SandboxServer.Hashes.{IsKeyed, avail-put, avail_at, put-IsKeyed}

-- The updates that succeed, on the hash of the run.
abbrev pub put_ok : World → List EndpointInfo → Hash → Hash
put_ok w [] h = h
put_ok w (ep ∷ eps) h =
    put_ok w eps (if w.update_fails ep.protocol then h else put h ep.protocol ep)

write_all-updates :
    (w : World) (run : String) (eps : List EndpointInfo) (redis : Redis)
    → write_all (updates w run eps) redis run ≡ put_ok w eps (redis run)
unfolding write_all updates write update_endpoint_status
write_all-updates w run [] redis = refl
write_all-updates w run (ep ∷ eps) redis = elim (Bool-cases (w.update_fails ep.protocol)) [
  | inl f ↦ rw f (write_all-updates w run eps redis)
  | inr f ↦ rw f (
      write_all-updates w run eps (update_key run (put (redis run) ep.protocol ep) redis)
      ∙ ap (put_ok w eps) (rw (eq_refl run) refl))
]

pub put_ok-IsKeyed :
    (w : World) (eps : List EndpointInfo) (h : Hash) → IsKeyed h → IsKeyed (put_ok w eps h)
put_ok-IsKeyed w [] h k = k
put_ok-IsKeyed w (ep ∷ eps) h k = elim (Bool-cases (w.update_fails ep.protocol)) [
  | inl f ↦ rw f (put_ok-IsKeyed w eps h k)
  | inr f ↦ rw f (put_ok-IsKeyed w eps (put h ep.protocol ep) (put-IsKeyed h ep k))
]

abbrev pub names : String → List String → Bool
names p = any (λ q. str_eq q p)

-- The endpoints as probed, when the dials have so long in all, less what is spent.
abbrev pub probed : World → SandboxSpec → String → ℕ → List String → List EndpointInfo
probed w spec ip spent ps = probe_list w.dials (probe_timeout - spent) (build_list spec ip ps)

-- What the last dial for a protocol gives, or a value if there is none.
abbrev pub last_probe : (String → ℕ → Dial) → String → ℕ → String → List (String × ℕ) → Bool → Bool
last_probe dials ip spent p [] before = before
last_probe dials ip spent p ((q, port) ∷ ports) before =
    let d = dials ip port in
    last_probe dials ip (spent + takes d) p ports
      (if str_eq q p then connects_after spent d else before)

-- One update: the endpoint of `q` as it was probed.
abbrev after_probe : SandboxSpec → String → String → ℕ → Availability → EndpointInfo
after_probe spec ip q port a = record (new_endpoint spec ip q port) { status = a }

probed_avail :
    (spec : SandboxSpec) (ip p : String) (port spent : ℕ) (d : Dial)
    → is_available (after_probe spec ip p port (status_after spent d)) ≡ connects_after spent d
probed_avail spec ip p port spent d = ground arith

avail-step :
    (w : World) (spec : SandboxSpec) (ip p q : String) (port spent : ℕ) (d : Dial) (h : Hash)
    → avail_at
        (if w.update_fails q
          then h
          else put h q (after_probe spec ip q port (status_after spent d)))
        p
      ≡ (if str_eq q p && not (w.update_fails p) then connects_after spent d else avail_at h p)
avail-step w spec ip p q port spent d h =
    let ep = after_probe spec ip q port (status_after spent d) in
    elim (Bool-cases (str_eq q p)) [
      | inl s ↦
          let same : q ≡ p = (eq_iff q p).0 s in
          elim (Bool-cases (w.update_fails p)) [
            | inl f ↦ rw (s, same, f) refl
            | inr f ↦
                rw
                  (
                    s,
                    same,
                    f,
                    get-put h p p (after_probe spec ip p port (status_after spent d)),
                    eq_refl p,
                  )
                  (probed_avail spec ip p port spent d)
          ]
      | inr s ↦ elim (Bool-cases (w.update_fails q)) [
        | inl f ↦ rw (f, s) refl
        | inr f ↦ rw (f, get-put h q p ep, s) refl
      ]
    ]

pub avail-put_ok :
    (w : World) (spec : SandboxSpec) (ip p : String) (spent : ℕ) (ps : List String) (h : Hash)
    → avail_at (put_ok w (probed w spec ip spent ps) h) p ≡ (
        if w.update_fails p
        then avail_at h p
        else last_probe w.dials ip spent p (known_ports ps) (avail_at h p))
unfolding build_list probe_list new_endpoint known_ports
avail-put_ok w spec ip p spent [] h = ground arith
avail-put_ok w spec ip p spent (q ∷ ps) h = elim (Option-cases (port_by_protocol q)) [
  | inl e ↦ rw e (avail-put_ok w spec ip p spent ps h)
  | inr (port, e) ↦
      let d = w.dials ip port in
      let step = avail-step w spec ip p q port spent d h in
      rw (e, dial_context-after spent d)
        (avail-put_ok w spec ip p (spent + takes d) ps _ ∙ elim (Bool-cases (w.update_fails p)) [
          | inl f ↦ rw f (step ∙ ground (arith, f))
          | inr f ↦ rw f (
              ap (last_probe w.dials ip (spent + takes d) p (known_ports ps))
                (step ∙ ground (arith, f)))
        ])
]

pub empty_unavailable : (p : String) → avail_at [] p ≡ false
unfolding get
empty_unavailable p = refl

pub unavailable-put_all :
    (spec : SandboxSpec) (ip p : String) (ps : List String) (h : Hash)
    → avail_at h p ≡ false
    → avail_at (put_all (build_list spec ip ps) h) p ≡ false
unfolding build_list new_endpoint
unavailable-put_all spec ip p [] h n = n
unavailable-put_all spec ip p (q ∷ ps) h n = elim (Option-cases (port_by_protocol q)) [
  | inl e ↦ rw e (unavailable-put_all spec ip p ps h n)
  | inr (port, e) ↦
      rw e (unavailable-put_all spec ip p ps _ (avail-put h q p _ ∙ ground (arith, n)))
]

abbrev pub same_protocol : Protocol → Protocol → Bool
same_protocol unspecified unspecified = true
same_protocol fix fix = true
same_protocol rest rest = true
same_protocol websocket websocket = true
same_protocol _ _ = false

pub protocol_of-same :
    (p q : String) → is_known p ≡ true → same_protocol (protocol_of q) (protocol_of p) ≡ str_eq q p
unfolding port_by_protocol
protocol_of-same p q k = ground (
  arith,
  k,
  eq_iff p "FIX",
  eq_iff p "REST",
  eq_iff p "WS",
  eq_iff q "FIX",
  eq_iff q "REST",
  eq_iff q "WS",
  eq_iff q p,
)

abbrev pub stored_first : World → List EndpointInfo → Hash → Hash
stored_first w eps h = if w.register_fails then h else put_all eps h

stored_first_nil : (w : World) (h : Hash) → stored_first w [] h ≡ h
stored_first_nil w h = ground arith

pub if-true {ℓ} : {A : Type ℓ} (c : Bool) (x y : A) → c ≡ true → (if c then x else y) ≡ x
if-true c x y h = rw h refl

pub if-false {ℓ} : {A : Type ℓ} (c : Bool) (x y : A) → c ≡ false → (if c then x else y) ≡ y
if-false c x y h = rw h refl

write_all-register :
    (w : World) (run : String) (eps sent : List EndpointInfo) (redis : Redis)
    → write_all
        ((if w.register_fails then [] else stores run eps ∷ []) ++ updates w run sent)
        redis
        run
      ≡ put_ok w sent (stored_first w eps (redis run))
unfolding write_all write register_endpoints updates
write_all-register w run eps sent redis = elim (Bool-cases w.register_fails) [
  | inl f ↦ rw f (write_all-updates w run sent redis)
  | inr f ↦ rw f (
      write_all-updates w run sent (update_key run (put_all eps (redis run)) redis)
      ∙ ap (put_ok w sent) (rw (eq_refl run) refl))
]

-- The hash of the run after a sandbox has been registered and probed.
pub hash_after :
    (w : World) (spec : SandboxSpec) (ip : String) (s : SandboxStatus) (redis : Redis)
    → w.has_registry ≡ true
    → write_all (register_and_probe w spec ip s).1 redis spec.benchmark_run_id
      ≡ put_ok w
          (probed w spec ip 0 spec.protocols)
          (stored_first w (build_list spec ip spec.protocols) (redis spec.benchmark_run_id))
unfolding register_and_probe build_endpoints probe_endpoints write_all
hash_after w spec ip s redis reg = elim (List-cases (build_list spec ip spec.protocols)) [
  | inl e ↦
      ap (λ (o : SandboxStatus × List Effect). write_all o.1 redis spec.benchmark_run_id)
        (if-true (not w.has_registry || length (build_list spec ip spec.protocols) == 0) _ _
          (ground (arith, reg, ap (length {A = EndpointInfo}) e)))
      ∙ sym (rw e (stored_first_nil w (redis spec.benchmark_run_id)))
  | inr (ep, eps, e) ↦
      ap (λ (o : SandboxStatus × List Effect). write_all o.1 redis spec.benchmark_run_id)
        (if-false (not w.has_registry || length (build_list spec ip spec.protocols) == 0) _ _
          (ground (arith, reg, ap (length {A = EndpointInfo}) e)))
      ∙ write_all-register w spec.benchmark_run_id (build_list spec ip spec.protocols)
          (probed w spec ip 0 spec.protocols) redis
]

pub effects_lem :
    (w : World) (spec : SandboxSpec) (s : SandboxStatus) (pod : Pod)
    → is_settled s.phase ≡ false
    → w.pod ≡ found pod
    → pod.phase ≡ pod_running
    → (reconcile w spec s).effects
      ≡ (register_and_probe w spec pod.pod_ip
          (record s { phase = running; internal_ip = pod.pod_ip })).1
unfolding reconcile sync_phase_from_pod is_settled
effects_lem w spec s pod open_ there runs = ground (arith, open_, there, runs)
