-- ===== src/FleetServer/Statuses.antt =====
-- What the status of a fleet tells (server.go, store/fleet.go).
use iicpc.Prelude.{ℕ, ◌≤◌, ◌≡◌, inl, inr, ap, Option, none, some, List, length}
use iicpc.Artifact.{Text}
use iicpc.Scheduler.{BotAssignment}
use iicpc.Shutdown
use iicpc.Fleet.{FleetPhase, FleetRecord, FleetStore, new_record, World, State, provision_fleet}
use iicpc.Fleet.Release.{AreOthers}
use iicpc.Fleet.Verdict.{HasRecord, provision_fleet-verdict}
use iicpc.FleetServer.{FleetStatus, uint32, to_fleet_status, no_bots, get_fleet_status, stop_fleet}

-- The status of a fleet of which nothing but the size is known.
abbrev pub sized : Text → ℕ → FleetStatus
sized run total = record (no_bots run) { total_bots = uint32 total }

status_of_record :
    (run : Text) (phase : FleetPhase) (names : List Text) (total : ℕ) (s : FleetStore)
    → HasRecord run phase names total s
    → get_fleet_status s run ≡ sized run total
unfolding get_fleet_status new_record
status_of_record run phase names total s h =
    ap (λ (o : Option FleetRecord). elim o [ none ↦ no_bots run | some r ↦ to_fleet_status r ]) h

-- After ProvisionFleet for a run whose identifier has eight bytes at least, where the pods that are there
-- have no name of the run's, and also after StopFleet then, GetFleetStatus tells the number of bots that
-- were asked for, modulo 2^32, and no bot that is ready, running, throttling or terminated: the same
-- whether the fleet became ready, came too late or failed, and whatever was deleted.
pub get_fleet_status-sized :
    (w : World) (kubernetes : Text → Shutdown.World) (run : Text) (bots : List BotAssignment)
    (s : State)
    → 8 ≤ length run
    → AreOthers run s.pods
    → let o = provision_fleet w run bots s in
      (get_fleet_status o.0.store run ≡ sized run (length bots))
      × (get_fleet_status (stop_fleet kubernetes run o.0.store).0 run ≡ sized run (length bots))
unfolding stop_fleet
get_fleet_status-sized w kubernetes run bots s long others =
    let o = provision_fleet w run bots s in
    let told : get_fleet_status o.0.store run ≡ sized run (length bots) =
      elim (provision_fleet-verdict w run bots s long others) [
        | inl (created, in_time, e, pods, h) ↦ status_of_record run _ _ (length bots) o.0.store h
        | inr (inl (created, late, e, pods, h)) ↦ status_of_record run _ _ (length bots) o.0.store h
        | inr (inr (failing, e, pods, h)) ↦ status_of_record run _ _ (length bots) o.0.store h
      ] in
    (told, told)
