-- ===== src/FleetServer/Delivery.antt =====
-- What a reply of the RPC says of the fleet (server.go).
use iicpc.Prelude.{
  ℕ, ◌*◌, ◌≤◌, ◌≡◌, ◌⊎◌, inl, inr, refl, ap, ◌∙◌, Bool, true, false, ◌&&◌, some, List, [], ◌∷◌,
  ◌++◌, map, String, str_eq, arith, if◌then◌else◌, Bool-cases, Option-cases, any, length, count,
  sum,
}
use mathlib.Core.List.{append-nil}
use iicpc.Prelude.Sorting.{SortSlice, lower, higher}
use iicpc.Artifact.{Text}
use iicpc.Scheduler.{BotAssignment, spare, load_of, remainder_of}
use iicpc.Scheduler.Outcome.{schedule_outcome}
use iicpc.Scheduler.Totals.{room_at, has_name}
use iicpc.Fleet.{
  Pod, build_bot_pod, World, State, Outcome, provisioned, create_failed, timed_out, panics,
  provision_fleet,
}
use iicpc.Fleet.Release.{AreOthers, undeleted}
use iicpc.Fleet.Verdict.{provision_fleet-verdict}
use iicpc.FleetServer.{
  Node, is_bot_worker, to_worker_node, get_worker_nodes, ProvisionRequest, scheduling, starting,
  ready, ProvisionEvent, Reply, finished, not_sent, Answers, Served, add_event, event, error_phase,
  report, start, schedule_fleet, provision,
}

-- The bot workers of a name among the nodes.
abbrev pub workers_named : String → List Node → ℕ
workers_named m = count (λ n. is_bot_worker n && str_eq n.name m)

room-worker :
    (m : String) (n : Node) → room_at m (to_worker_node n) ≡ (if str_eq n.name m then 500 else 0)
unfolding to_worker_node spare
room-worker m n = refl

room-workers :
    (m : String) (ns : List Node)
    → sum (map (room_at m) (get_worker_nodes ns)) ≡ 500 * workers_named m ns
unfolding get_worker_nodes
room-workers m [] = refl
room-workers m (n ∷ ns) = elim (Bool-cases (is_bot_worker n)) [
  | inr other ↦ rw (get_worker_nodes, other) (room-workers m ns ∙ omega arith)
  | inl worker ↦ elim (Bool-cases (str_eq n.name m)) [
    | inl same ↦
        rw (get_worker_nodes, worker, room-worker m n, same) (omega (arith, room-workers m ns))
    | inr differ ↦
        rw (get_worker_nodes, worker, room-worker m n, differ) (omega (arith, room-workers m ns))
  ]
]

none_undeleted :
    (w : World) (run : Text) (bots : List BotAssignment)
    → ((name : Text) → w.delete_fails name ≡ false)
    → undeleted w run bots ≡ []
unfolding build_bot_pod
none_undeleted w run [] h = refl
none_undeleted w run (a ∷ bots) h = rw (h (build_bot_pod run a).name) (none_undeleted w run bots h)

-- Whether the fleet was reported READY, or would have been.
abbrev pub is_ready : Reply → Bool
is_ready finished = true
is_ready (not_sent ready) = true
is_ready _ = false

abbrev pub reports_ready : List ProvisionEvent → Bool
reports_ready = any (λ e. elim e.phase [ ready ↦ true | _ ↦ false ])

-- The pods of the fleet are there and READY is reported, or nothing is there and it is not.
abbrev Delivered : Text → List Pod → List BotAssignment → Served → Type 0
Delivered run pods bots o =
    ((is_ready o.2 ≡ true)
      × (o.0.pods ≡ pods ++ map (build_bot_pod run) bots)
      × (reports_ready o.1 ≡ true))
    ⊎ ((is_ready o.2 ≡ false) × (o.0.pods ≡ pods) × (reports_ready o.1 ≡ false))

ready_reply : (b : Bool) → is_ready (if b then not_sent ready else finished) ≡ true
ready_reply true = refl
ready_reply false = refl

reported :
    (a : Answers) (req : ProvisionRequest) (run : Text) (pods : List Pod)
    (bots : List BotAssignment) (s : State) (x : Outcome)
    → ((x ≡ provisioned) × (s.pods ≡ pods ++ map (build_bot_pod run) bots))
      ⊎ (((x ≡ timed_out) ⊎ (x ≡ create_failed)) × (s.pods ≡ pods))
    → Delivered run pods bots (report a req (s, x))
unfolding report event error_phase
reported a req run pods bots s provisioned (inl (e, h)) =
    inl (ready_reply (a.send_fails ready), h, refl)
reported a req run pods bots s provisioned (inr (inl e, h)) = absurd (ground (arith, e))
reported a req run pods bots s provisioned (inr (inr e, h)) = absurd (ground (arith, e))
reported a req run pods bots s create_failed (inl (e, h)) = absurd (ground (arith, e))
reported a req run pods bots s create_failed (inr (e, h)) = inr (refl, h, refl)
reported a req run pods bots s timed_out (inl (e, h)) = absurd (ground (arith, e))
reported a req run pods bots s timed_out (inr (e, h)) = inr (refl, h, refl)
reported a req run pods bots s panics (inl (e, h)) = absurd (ground (arith, e))
reported a req run pods bots s panics (inr (inl e, h)) = absurd (ground (arith, e))
reported a req run pods bots s panics (inr (inr e, h)) = absurd (ground (arith, e))

-- What is asked of a request: an identifier of eight bytes at least, pods that have no name of the
-- run's, and a Kubernetes that deletes what it is told to.
pub record IsFresh (a : Answers) (req : ProvisionRequest) (s : State) : Type 0 where
  pub long : 8 ≤ length req.benchmark_run_id
  pub others : AreOthers req.benchmark_run_id s.pods
  pub deletes : (name : Text) → a.world.delete_fails name ≡ false

provisioned_cases :
    (a : Answers) (req : ProvisionRequest) (bots : List BotAssignment) (s : State)
    → IsFresh a req s
    → let o = provision_fleet a.world req.benchmark_run_id bots s in
      ((o.1 ≡ provisioned) × (o.0.pods ≡ s.pods ++ map (build_bot_pod req.benchmark_run_id) bots))
      ⊎ (((o.1 ≡ timed_out) ⊎ (o.1 ≡ create_failed)) × (o.0.pods ≡ s.pods))
provisioned_cases a req bots s f =
    let run = req.benchmark_run_id in
    let gone : (bs : List BotAssignment) → s.pods ++ undeleted a.world run bs ≡ s.pods =
      λ bs. ap (λ ps. s.pods ++ ps) (none_undeleted a.world run bs f.deletes) ∙ append-nil s.pods in
    elim (provision_fleet-verdict a.world run bots s f.long f.others) [
      | inl (all_there, in_time, e, h, there) ↦ inl (e, h)
      | inr (inl (all_there, late, e, h, there)) ↦ inr (inl e, h ∙ gone bots)
      | inr (inr (some_fail, e, h, there)) ↦ inr (inr e, h ∙ gone _)
    ]

start-Delivered :
    (a : Answers) (req : ProvisionRequest) (bots : List BotAssignment) (s : State)
    → IsFresh a req s
    → Delivered req.benchmark_run_id s.pods bots (start a req bots s)
unfolding start add_event event
start-Delivered a req bots s f = elim (Bool-cases (a.send_fails starting)) [
  | inl unsent ↦ rw (start, unsent) (inr (refl, refl, refl))
  | inr sent ↦
      let o = provision_fleet a.world req.benchmark_run_id bots s in
      rw (start, sent)
        (reported a req req.benchmark_run_id s.pods bots o.0 o.1 (provisioned_cases a req bots s f))
]

module _ (by_load : SortSlice (lower load_of))
    (by_remainder : SortSlice (higher remainder_of)) where
  abbrev Scheduled : ProvisionRequest → List Node → State → Served → Type 0
  Scheduled req ns s o =
      ((is_ready o.2 ≡ true)
        × (reports_ready o.1 ≡ true)
        × ((bots : List BotAssignment) × (length bots ≡ req.bot_count)
            × ((m : String) → count (has_name m) bots ≤ 500 * workers_named m ns)
            × (o.0.pods ≡ s.pods ++ map (build_bot_pod req.benchmark_run_id) bots)))
      ⊎ ((is_ready o.2 ≡ false) × (reports_ready o.1 ≡ false) × (o.0.pods ≡ s.pods))

  schedule_fleet-Scheduled :
      (a : Answers) (req : ProvisionRequest) (ns : List Node) (s : State)
      → IsFresh a req s
      → Scheduled req ns s (schedule_fleet by_load by_remainder a req ns s)
  unfolding schedule_fleet event
  schedule_fleet-Scheduled a req ns s f =
      elim (schedule_outcome by_load by_remainder req.bot_count (get_worker_nodes ns)
        req.distribution) [
          | inl (no_room, e) ↦ rw (schedule_fleet, e) (inr (refl, refl, refl))
          | inr (inl (room, few, e)) ↦ rw (schedule_fleet, e) (inr (refl, refl, refl))
          | inr (inr (room, enough, (bots, e, (full, indexed, fair, shared)))) ↦
              rw (schedule_fleet, e)
                (elim (start-Delivered a req bots s f) [
                  | inl (there, pods, told) ↦ inl (
                    there,
                    told,
                    (bots, full, λ m. omega (arith, fair m, room-workers m ns), pods),
                  )
                  | inr (failing, pods, told) ↦ inr (failing, told, pods)
                ])
        ]

  -- The reply of the RPC against the fleet, for a request with a fresh run whose pods can be deleted.
  -- Either the reply is nil, or the last event alone could not be sent: then READY was reported, and
  -- exactly the pods of a full fleet are added, one for each bot that was asked for; on the nodes of a
  -- name there are at most 500 for each listed bot worker of that name, so none on any other node. Or
  -- it is an error: then READY was not reported and the cluster has the pods that it had before.
  pub provision-outcome :
      (a : Answers) (req : ProvisionRequest) (s : State)
      → IsFresh a req s
      → let o = provision by_load by_remainder a req s in
        ((is_ready o.2 ≡ true)
          × (reports_ready o.1 ≡ true)
          × ((ns : List Node) × (bots : List BotAssignment) × (a.nodes ≡ some ns)
              × (length bots ≡ req.bot_count)
              × ((m : String) → count (has_name m) bots ≤ 500 * workers_named m ns)
              × (o.0.pods ≡ s.pods ++ map (build_bot_pod req.benchmark_run_id) bots)))
        ⊎ ((is_ready o.2 ≡ false) × (reports_ready o.1 ≡ false) × (o.0.pods ≡ s.pods))
  unfolding provision add_event event
  provision-outcome a req s f = elim (Bool-cases (a.send_fails scheduling)) [
    | inl unsent ↦ rw (provision, unsent) (inr (refl, refl, refl))
    | inr sent ↦ elim (Option-cases a.nodes) [
      | inl unlisted ↦ rw (provision, sent, unlisted) (inr (refl, refl, refl))
      | inr (ns, listed) ↦
          rw (provision, sent, listed)
            (elim (schedule_fleet-Scheduled a req ns s f) [
              | inl (there, told, (bots, full, fair, pods)) ↦
                  inl (there, told, (ns, bots, refl, full, fair, pods))
              | inr (failing, told, pods) ↦ inr (failing, told, pods)
            ])
    ]
  ]
