-- ===== src/Shutdown.antt =====
-- services/bot-fleet-manager/internal/provisioner/shutdown.go: the pods of a fleet are told to stop,
-- awaited for 30 seconds, and killed. A World holds what Kubernetes answers: the lists of the pods that
-- are left, at the start, at the ticks before the deadline and after it, and which deletions fail.
pub mod Kills
use iicpc.Prelude.{
  ℕ, Bool, true, false, not, ◌||◌, Option, none, some, List, [], ◌∷◌, ◌++◌, map, any, if◌then◌else◌,
}
use iicpc.Artifact.{Text}

-- The names of the pods of the run, or `none` where the list cannot be read.
abbrev pub Listing : Type 0
Listing = Option (List Text)

-- A turn of the wait: the context is cancelled, or a tick lists the pods.
pub data Turn : Type 0 where
  cancelled : Turn
  listed : Listing → Turn

pub data Ended : Type 0 where
  finished cut_off no_list not_deleted : Ended

pub record World : Type 0 where
  pub first : Listing
  pub turns : List Turn
  pub last : Listing
  -- Whether the deletion of a pod with a grace period, in seconds, fails.
  pub delete_fails : Text → ℕ → Bool

-- A deletion that is sent, with its grace period.
abbrev pub Deletion : Type 0
Deletion = Text × ℕ

abbrev pub graceful : Text → Deletion
graceful pod = (pod, 30)

abbrev pub forced : Text → Deletion
forced pod = (pod, 0)

-- The loop until the deadline: `none` if it comes to its end.
unfoldable pub await : List Turn → Option Ended
await [] = none
await (cancelled ∷ ts) = some cut_off
await (listed none ∷ ts) = await ts
await (listed (some []) ∷ ts) = some finished
await (listed (some (p ∷ ps)) ∷ ts) = await ts

-- `ShutdownFleet`, after the deadline. A list that is empty leaves nothing to delete.
unfoldable pub kill : World → Listing → List Deletion × Ended
kill w none = ([], no_list)
kill w (some pods) =
    (map forced pods, if any (λ p. w.delete_fails p 0) pods then not_deleted else finished)

abbrev pub sends_first : List Deletion → List Deletion × Ended → List Deletion × Ended
sends_first ds o = (ds ++ o.0, o.1)

-- `ShutdownFleet`, from the loop on.
unfoldable pub after_wait : World → Option Ended → List Deletion × Ended
after_wait w (some r) = ([], r)
after_wait w none = kill w w.last

-- `ShutdownFleet`, once the pods are listed.
unfoldable pub shutdown_listed : World → Listing → List Deletion × Ended
shutdown_listed w none = ([], no_list)
shutdown_listed w (some []) = ([], finished)
shutdown_listed w (some (p ∷ ps)) =
    sends_first (map graceful (p ∷ ps)) (after_wait w (await w.turns))

-- `ShutdownFleet`: the deletions that it sends, in their order, and how it ends.
unfoldable pub shutdown_fleet : World → List Deletion × Ended
shutdown_fleet w = shutdown_listed w w.first
