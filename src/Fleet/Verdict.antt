-- ===== src/Fleet/Verdict.antt =====
-- How provisioning ends, and what it leaves in the cluster and in the store (provisioner.go).
use mathlib.Core.List.{append_assoc, append-nil}
use iicpc.Prelude.{
  ℕ, ◌≤◌, ◌≡◌, ◌⊎◌, inl, inr, refl, sym, ap, ◌∙◌, Bool, true, false, not, ◌&&◌, Option, some, List,
  [], ◌∷◌, ◌++◌, map, arith, if◌then◌else◌, Bool-cases, all, length, ltb,
}
use iicpc.Artifact.{Text}
use iicpc.Scheduler.{BotAssignment}
use iicpc.Fleet.{
  FleetPhase, starting, ready, failed, timeout, terminated, FleetRecord, FleetStore, set_record,
  new_record, create, update_phase, add_pod, Pod, build_bot_pod, World, State, delete_pods,
  release_fleet, deploy, wait_for_ready, settle, start_record, Outcome, provisioned, create_failed,
  timed_out, provision_fleet,
}
use iicpc.Artifact.Texts.{same_text_refl}
use iicpc.Fleet.Release.{changed, name_of, AreOthers, undeleted, delete_pods-fleet}

-- The assignments before the first whose pod cannot be created.
abbrev pub before_failure : World → List BotAssignment → List BotAssignment
before_failure w [] = []
before_failure w (a ∷ rest) = if w.create_fails a.bot_index then [] else a ∷ before_failure w rest

abbrev pub all_created : World → List BotAssignment → Bool
all_created w = all (λ a. not (w.create_fails a.bot_index))

-- The store holds a record of the run in a phase, with the names of some pods.
abbrev pub HasRecord : Text → FleetPhase → List Text → ℕ → FleetStore → Type 0
HasRecord run phase names total s =
    s run ≡ some (record (new_record run total) { phase = phase; pod_names = names })

abbrev held : Text → FleetPhase → ℕ → List Text → Option FleetRecord
held run phase total names =
    some (record (new_record run total) { phase = phase; pod_names = names })

deployed :
    (w : World) (run : Text) (bots : List BotAssignment) (phase : FleetPhase) (names : List Text)
    (total : ℕ) (s : State)
    → HasRecord run phase names total s.store
    → let o = deploy w run bots s in
      (o.0.pods ≡ s.pods ++ map (build_bot_pod run) (before_failure w bots))
      × HasRecord run phase (names ++ map (name_of run) (before_failure w bots)) total o.0.store
      × (o.1 ≡ all_created w bots)
unfolding deploy add_pod build_bot_pod
deployed w run [] phase names total s h =
    (sym (append-nil s.pods), h ∙ ap (held run phase total) (sym (append-nil names)), refl)
deployed w run (a ∷ rest) phase names total s h = elim (Bool-cases (w.create_fails a.bot_index)) [
  | inl fails ↦
      rw fails
        (sym (append-nil s.pods), h ∙ ap (held run phase total) (sym (append-nil names)), refl)
  | inr works ↦
      let name = name_of run a in
      let (pods, record_there, all_there) =
        deployed w run rest phase (names ++ name ∷ []) total
          (record { pods = s.pods ++ build_bot_pod run a ∷ []; store = add_pod run name s.store })
          (changed run (λ r. record r { pod_names = r.pod_names ++ name ∷ [] }) s.store _ h) in
      rw works (
        pods ∙ append_assoc s.pods (build_bot_pod run a ∷ []) _,
        record_there ∙ ap (held run phase total) (append_assoc names (name ∷ []) _),
        all_there,
      )
]

released :
    (w : World) (run : Text) (bots : List BotAssignment) (pods : List Pod) (phase : FleetPhase)
    (total : ℕ) (s : State)
    → AreOthers run pods
    → s.pods ≡ pods ++ map (build_bot_pod run) bots
    → HasRecord run phase (map (name_of run) bots) total s.store
    → ((release_fleet w run s).pods ≡ pods ++ undeleted w run bots)
      × HasRecord run terminated (map (name_of run) bots) total (release_fleet w run s).store
unfolding release_fleet update_phase
released w run bots pods phase total s others e h =
    rw (release_fleet, h)
      (
        ap (delete_pods w (map (name_of run) bots)) e ∙ delete_pods-fleet w run bots pods others,
        changed run (λ r. record r { phase = terminated }) s.store _ h,
      )

before_failure_all :
    (w : World) (bots : List BotAssignment)
    → all_created w bots ≡ true
    → before_failure w bots ≡ bots
before_failure_all w [] h = refl
before_failure_all w (a ∷ rest) h = elim (Bool-cases (w.create_fails a.bot_index)) [
  | inl fails ↦ absurd (ground (arith, h, fails))
  | inr works ↦ rw works (ap (λ xs. a ∷ xs) (before_failure_all w rest (ground (arith, h, works))))
]

abbrev Ending : World → Text → List BotAssignment → List Pod → State × Outcome → Type 0
Ending w run bots pods o =
    ((all_created w bots ≡ true)
      × (wait_for_ready (length bots) w.ticks ≡ true)
      × (o.1 ≡ provisioned)
      × (o.0.pods ≡ pods ++ map (build_bot_pod run) bots)
      × HasRecord run ready (map (name_of run) bots) (length bots) o.0.store)
    ⊎ ((all_created w bots ≡ true)
        × (wait_for_ready (length bots) w.ticks ≡ false)
        × (o.1 ≡ timed_out)
        × (o.0.pods ≡ pods ++ undeleted w run bots)
        × HasRecord run terminated (map (name_of run) bots) (length bots) o.0.store)
    ⊎ ((all_created w bots ≡ false)
        × (o.1 ≡ create_failed)
        × (o.0.pods ≡ pods ++ undeleted w run (before_failure w bots))
        × HasRecord run failed (map (name_of run) (before_failure w bots)) (length bots) o.0.store)

ended :
    (w : World) (run : Text) (bots : List BotAssignment) (pods : List Pod) (d : State) (done : Bool)
    → AreOthers run pods
    → d.pods ≡ pods ++ map (build_bot_pod run) (before_failure w bots)
    → HasRecord run starting (map (name_of run) (before_failure w bots)) (length bots) d.store
    → all_created w bots ≡ done
    → Ending w run bots pods (settle w run (length bots) (d, done))
unfolding settle update_phase
ended w run bots pods d false others e there turned =
    let (left, record_there) =
      released w run (before_failure w bots) pods starting (length bots) d others e there in
    inr (
      inr (
        turned,
        refl,
        left,
        changed run (λ r. record r { phase = failed }) (release_fleet w run d).store _ record_there,
      ))
ended w run bots pods d true others e there turned =
    let same = before_failure_all w bots turned in
    let pods_all : d.pods ≡ pods ++ map (build_bot_pod run) bots =
      e ∙ ap (λ bs. pods ++ map (build_bot_pod run) bs) same in
    let record_all : HasRecord run starting (map (name_of run) bots) (length bots) d.store =
      there ∙ ap (λ bs. held run starting (length bots) (map (name_of run) bs)) same in
    elim (Bool-cases (wait_for_ready (length bots) w.ticks)) [
      | inl in_time ↦ inl (
        turned,
        in_time,
        rw (settle, in_time) refl,
        rw (settle, in_time) pods_all,
        rw (settle, in_time) (changed run (λ r. record r { phase = ready }) d.store _ record_all),
      )
      | inr late ↦
          let (left, record_there) =
            released w run bots pods timeout (length bots)
              (record d { store = update_phase run timeout d.store }) others pods_all
              (changed run (λ r. record r { phase = timeout }) d.store _ record_all) in
          inr (
            inl (
              turned,
              late,
              rw (settle, late) refl,
              rw (settle, late) left,
              rw (settle, late) record_there,
            ))
    ]

started :
    (run : Text) (total : ℕ) (s : State)
    → HasRecord run starting [] total (start_record run total s).store
unfolding start_record create update_phase set_record
started run total s =
    changed run (λ r. record r { phase = starting }) (create run total s.store)
      (new_record run total) (rw (create, set_record, same_text_refl run) refl)

-- How ProvisionFleet ends, with what it leaves. Its identifier has eight bytes at least and the pods
-- that are there have no name of the run's. (1) Every pod was created and a tick before the deadline
-- saw the fleet ready: the pods of all assignments are added, in their order, and the record is
-- READY. (2) Every pod was created and no tick did: of these pods only those stay that cannot be
-- deleted, and the record is TERMINATED, so the TIMEOUT that was set before is lost. (3) A pod could
-- not be created: of the pods before it only those stay that cannot be deleted, and the record is
-- FAILED. The record names the pods that were created in each case.
pub provision_fleet-verdict :
    (w : World) (run : Text) (bots : List BotAssignment) (s : State)
    → 8 ≤ length run
    → AreOthers run s.pods
    → let o = provision_fleet w run bots s in
      ((all_created w bots ≡ true)
        × (wait_for_ready (length bots) w.ticks ≡ true)
        × (o.1 ≡ provisioned)
        × (o.0.pods ≡ s.pods ++ map (build_bot_pod run) bots)
        × HasRecord run ready (map (name_of run) bots) (length bots) o.0.store)
      ⊎ ((all_created w bots ≡ true)
          × (wait_for_ready (length bots) w.ticks ≡ false)
          × (o.1 ≡ timed_out)
          × (o.0.pods ≡ s.pods ++ undeleted w run bots)
          × HasRecord run terminated (map (name_of run) bots) (length bots) o.0.store)
      ⊎ ((all_created w bots ≡ false)
          × (o.1 ≡ create_failed)
          × (o.0.pods ≡ s.pods ++ undeleted w run (before_failure w bots))
          × HasRecord run failed
              (map (name_of run) (before_failure w bots))
              (length bots)
              o.0.store)
unfolding provision_fleet start_record
provision_fleet-verdict w run bots s long others =
    let first = start_record run (length bots) s in
    let (pods, there, all_there) =
      deployed w run bots starting [] (length bots) first (started run (length bots) s) in
    let enough : (ltb (length run) 8 && ltb 0 (length bots)) ≡ false = ground (arith, long) in
    let d = deploy w run bots first in
    rw (provision_fleet, enough) (ended w run bots s.pods d.0 d.1 others pods there (sym all_there))
