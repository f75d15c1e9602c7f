-- ===== src/Tests/Shutdowns.antt =====
-- Two pods of a fleet, of which one is still there after the deadline (shutdown.go).
use iicpc.Prelude.{◌≡◌, refl, false, none, some, [], ◌∷◌}
use iicpc.Artifact.{Text, same_text}
use iicpc.Shutdown.{
  cancelled, listed, World, finished, cut_off, not_deleted, graceful, forced, shutdown_fleet, await,
  kill, after_wait, shutdown_listed,
}
use iicpc.Shutdown.Kills.{IsShutdown, shutdown_fleet-kills}

abbrev quick : Text
quick = 97 ∷ []

abbrev stuck : Text
stuck = 98 ∷ []

-- A tick cannot list the pods, and the next sees that one is left.
abbrev slow_world : World
slow_world = record {
  first = some (quick ∷ stuck ∷ []);
  turns = listed none ∷ listed (some (stuck ∷ [])) ∷ [];
  last = some (stuck ∷ []);
  delete_fails = λ _ _. false;
}

abbrev cut_world : World
cut_world = record slow_world { turns = listed none ∷ cancelled ∷ [] }

abbrev refused_world : World
refused_world = record slow_world { delete_fails = λ p _. same_text p stuck }

-- The pod that is left is killed.
kills_stuck :
    shutdown_fleet slow_world ≡ (graceful quick ∷ graceful stuck ∷ forced stuck ∷ [], finished)
unfolding shutdown_fleet shutdown_listed after_wait await kill
kills_stuck = refl

-- A wait that is cancelled kills no pod.
kills_none_cut : shutdown_fleet cut_world ≡ (graceful quick ∷ graceful stuck ∷ [], cut_off)
unfolding shutdown_fleet shutdown_listed after_wait await kill
kills_none_cut = refl

reports_refusal :
    shutdown_fleet refused_world
    ≡ (graceful quick ∷ graceful stuck ∷ forced stuck ∷ [], not_deleted)
unfolding shutdown_fleet shutdown_listed after_wait await kill same_text
reports_refusal = refl

shutdown_fleet-kills_example : IsShutdown slow_world slow_world.first (shutdown_fleet slow_world)
shutdown_fleet-kills_example = shutdown_fleet-kills slow_world
