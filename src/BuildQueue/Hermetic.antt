-- ===== src/BuildQueue/Hermetic.antt =====
-- How the build jobs are shut in (job_spawner.go, network_policy.go).
use iicpc.Prelude.{
  ◌≤◌, ◌≡◌, refl, Bool, true, false, not, ◌&&◌, ◌||◌, Option, none, some, List, [], ◌∷◌, ◌++◌, any,
  All, length, arith, Bool-cases, inl, inr, ltb, length-take-le,
}
use iicpc.Prelude.Sorting.{SortSlice, lower}
use iicpc.Artifact.{Text, same_text}
use iicpc.Artifact.Texts.{same_text_refl}
use iicpc.BuildQueue.Manifest.{
  prefix, Job, build_job_name, build_job_spec, NetworkPolicy, build_network_policy, created,
  is_already_exists, apply_network_policy,
}
use iicpc.BuildQueue.{
  Row, Fetched, Queue, Outage, spawn_marked, spawn_build_job, dispatch, refill, tick_of, turn_of,
  insert, Action, ticks, turns, inserts, settles, act, act_all,
}

-- What the pod of a job may not do: be root, write to its file system, gain privileges, or call the API
-- of the cluster; it is tried once, for ten minutes, with the resources that it asks for and no more.
abbrev pub IsHermetic : Job → Type 0
IsHermetic j =
    (j.name ≡ build_job_name j.submission_id)
    × (length j.name ≤ 63)
    × ((j.run_as_non_root && ltb 0 j.run_as_user) ≡ true)
    × ((j.automount_token || j.privilege_escalation || not j.read_only_root) ≡ false)
    × (j.backoff_limit ≡ 0)
    × (j.active_deadline_seconds ≤ 600)
    × (j.requests ≡ j.limits)

spec-IsHermetic : (id uri : Text) → IsHermetic (build_job_spec (build_job_name id) id uri)
unfolding build_job_spec build_job_name
spec-IsHermetic id uri =
    (refl, length-take-le 63 (prefix ++ id), refl, refl, refl, omega arith, refl)

abbrev AllHermetic : Queue → Type 0
AllHermetic q = All IsHermetic q.jobs

spawn-AllHermetic :
    (w : Outage) (f : Fetched) (q : Queue) → AllHermetic q → AllHermetic (spawn_build_job w f q)
unfolding spawn_build_job
spawn-AllHermetic w f q h =
    elim (Bool-cases (w.create_fails || any (λ j. same_text j.name (build_job_name f.id)) q.jobs)) [
      | inl e ↦ rw e h
      | inr e ↦ rw e (spec-IsHermetic f.id f.artifact_uri, h)
    ]

marked-AllHermetic :
    (w : Outage) (f : Fetched) (q : Queue) (o : List Row × Bool)
    → AllHermetic q
    → AllHermetic (spawn_marked w f q o)
marked-AllHermetic w f q (rows, true) h = spawn-AllHermetic w f (record q { rows = rows }) h
marked-AllHermetic w f q (rows, false) h = h

turn_of-AllHermetic :
    (w : Outage) (fs : List Fetched) (q : Queue) → AllHermetic q → AllHermetic (turn_of w fs q)
unfolding turn_of dispatch
turn_of-AllHermetic w [] q h = h
turn_of-AllHermetic w (f ∷ fs) q h = marked-AllHermetic w f (record q { pending = fs }) _ h

refill-AllHermetic :
    (o : Option (List Fetched)) (q : Queue) → AllHermetic q → AllHermetic (refill o q)
refill-AllHermetic none q h = h
refill-AllHermetic (some fs) q h = h

tick_of-AllHermetic :
    (by : SortSlice (lower (λ (r : Row). r.created_at))) (fails : Bool) (fs : List Fetched)
    (q : Queue)
    → AllHermetic q
    → AllHermetic (tick_of by fails fs q)
unfolding tick_of
tick_of-AllHermetic by fails [] q h = refill-AllHermetic _ q h
tick_of-AllHermetic by fails (f ∷ fs) q h = h

act-AllHermetic :
    (by : SortSlice (lower (λ (r : Row). r.created_at))) (a : Action) (q : Queue)
    → AllHermetic q
    → AllHermetic (act by a q)
unfolding act insert
act-AllHermetic by (ticks fails) q h = tick_of-AllHermetic by fails q.pending q h
act-AllHermetic by (turns w) q h = turn_of-AllHermetic w q.pending q h
act-AllHermetic by (inserts r) q h = elim (Bool-cases (any (λ s. same_text s.id r.id) q.rows)) [
  | inl e ↦ rw e h
  | inr e ↦ rw e h
]
act-AllHermetic by (settles id status) q h = h

-- Whatever happens to the queue, every job that is created has the name of its submission, of 63 bytes at
-- most, does not run as root, has no token of the cluster and no way to privileges, cannot write to its
-- file system, is tried once for ten minutes, and is limited to the resources that it asks for.
act_all-AllHermetic :
    (by : SortSlice (lower (λ (r : Row). r.created_at))) (actions : List Action) (q : Queue)
    → AllHermetic q
    → AllHermetic (act_all by actions q)
unfolding act_all
act_all-AllHermetic by [] q h = h
act_all-AllHermetic by (a ∷ as') q h =
    act_all-AllHermetic by as' (act by a q) (act-AllHermetic by a q h)

-- A policy with which the pods of a submission have no way out.
abbrev closes : Text → NetworkPolicy → Bool
closes id p =
    same_text p.selects id
    && (p.limits_egress && elim p.egress_rules [ [] ↦ true | r ∷ rs ↦ false ])

abbrev has_policy : Text → List NetworkPolicy → Bool
has_policy id = any (λ p. same_text p.name (build_network_policy id).name)

-- While the cluster works and no policy has the name yet, an application adds a policy under which the
-- pods of the submission have no way out; a second application is no error and changes nothing.
apply_network_policy-again :
    (id : Text) (ps : List NetworkPolicy)
    → has_policy id ps ≡ false
    → let qs = build_network_policy id ∷ ps in
      (apply_network_policy created id ps ≡ (qs, true))
      × (apply_network_policy created id qs ≡ (qs, true))
      × (closes id (build_network_policy id) ≡ true)
unfolding apply_network_policy build_network_policy is_already_exists
apply_network_policy-again id ps h = (
  rw h refl,
  rw (same_text_refl (build_network_policy id).name) refl,
  rw (same_text_refl id) refl,
)
