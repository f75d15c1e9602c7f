-- ===== src/Sandbox/Phases.antt =====
-- The life of a sandbox under reconciler.go.
use iicpc.Prelude.{◌+◌, ◌≤◌, ◌≡◌, ◌≢◌, Bool, true, false, List, if◌then◌else◌, count}
use iicpc.Sandbox.{
  unhealthy, Effect, creates_overlay, deletes_overlay, creates_pod, stores, Outcome, is_settled,
}

abbrev pub is_store : Effect → Bool
is_store (stores r eps) = true
is_store _ = false

abbrev pub is_overlay : Effect → Bool
is_overlay (creates_overlay r) = true
is_overlay _ = false

abbrev pub is_removal : Effect → Bool
is_removal (deletes_overlay r) = true
is_removal _ = false

abbrev pub is_pod : Effect → Bool
is_pod (creates_pod r) = true
is_pod _ = false

abbrev IsBalanced : List Effect → Type 0
IsBalanced es = count is_overlay es ≡ count is_pod es + count is_removal es

-- One call: at most one list of endpoints is stored, and if one is, the sandbox is settled; an
-- overlay is for a pod or is removed; nothing is called unhealthy.
abbrev IsStep : Outcome → Type 0
IsStep o =
    (count is_store o.effects ≤ (if is_settled o.status.phase then 1 else 0))
    × IsBalanced o.effects
    × (o.status.phase ≢ unhealthy)
