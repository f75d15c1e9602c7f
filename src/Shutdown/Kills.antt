-- ===== src/Shutdown/Kills.antt =====
-- Which pods are killed, and what a shutdown that succeeds means (shutdown.go).
use iicpc.Prelude.{
  ◌≡◌, ◌⊎◌, inl, inr, refl, ap, Bool, true, false, Option, none, some, List, [], ◌∷◌, ◌++◌, map,
  any, ◌||◌, if◌then◌else◌, Bool-cases,
}
use iicpc.Artifact.{Text}
use iicpc.Shutdown.{
  Turn, cancelled, listed, Listing, Ended, finished, World, Deletion, graceful, forced, await, kill,
  after_wait, shutdown_listed, shutdown_fleet,
}

abbrev pub is_finished : Ended → Bool
is_finished finished = true
is_finished _ = false

-- The pods of a list, none of one that could not be read.
abbrev pub pods_of : Listing → List Text
pods_of none = []
pods_of (some pods) = pods

abbrev pub nobody : List Text → Bool
nobody [] = true
nobody (_ ∷ _) = false

abbrev pub is_empty : Turn → Bool
is_empty (listed (some [])) = true
is_empty _ = false

-- A turn that ends the wait: no pod is left, or the context is cancelled.
abbrev pub ends : Turn → Bool
ends cancelled = true
ends (listed l) = is_empty (listed l)

-- How a wait came to be as it was.
abbrev AwaitedBy : List Turn → Option Ended → Type 0
AwaitedBy ts none = any ends ts ≡ false
AwaitedBy ts (some r) = (any ends ts ≡ true) × ((is_finished r ≡ false) ⊎ (any is_empty ts ≡ true))

awaited_cases : (ts : List Turn) → AwaitedBy ts (await ts)
unfolding await
awaited_cases [] = refl
awaited_cases (cancelled ∷ ts) = (refl, inl refl)
awaited_cases (listed none ∷ ts) = awaited_cases ts
awaited_cases (listed (some []) ∷ ts) = (refl, inr refl)
awaited_cases (listed (some (p ∷ ps)) ∷ ts) = awaited_cases ts

-- The deletion of every pod that is listed after the deadline is accepted.
abbrev pub AllAccepted : World → Type 0
AllAccepted w =
    (pods : List Text) × (w.last ≡ some pods) × (any (λ p. w.delete_fails p 0) pods ≡ false)

-- The part after the deadline.
kill_cases :
    (w : World) (l : Listing)
    → w.last ≡ l
    → ((kill w l).0 ≡ map forced (pods_of l)) × ((is_finished (kill w l).1 ≡ false) ⊎ AllAccepted w)
unfolding kill
kill_cases w none e = (refl, inl refl)
kill_cases w (some pods) e = elim (Bool-cases (any (λ p. w.delete_fails p 0) pods)) [
  | inl f ↦ (refl, inl (rw f refl))
  | inr f ↦ (refl, inr (pods, e, f))
]

-- From the loop on: nothing is killed where a turn ends the wait.
after_wait_cases :
    (w : World) (o : Option Ended)
    → AwaitedBy w.turns o
    → ((after_wait w o).0 ≡ (if any ends w.turns then [] else map forced (pods_of w.last)))
      × ((is_finished (after_wait w o).1 ≡ false) ⊎ (any is_empty w.turns ≡ true) ⊎ AllAccepted w)
unfolding after_wait
after_wait_cases w (some r) (e, h) = (rw e refl, elim h [ inl h ↦ inl h | inr h ↦ inr (inl h) ])
after_wait_cases w none e =
    let (sent, how) = kill_cases w w.last refl in
    (rw e sent, elim how [ inl h ↦ inl h | inr h ↦ inr (inr h) ])

-- What a shutdown sends, with the first list, and how it ends.
abbrev pub IsShutdown : World → Listing → List Deletion × Ended → Type 0
IsShutdown w first o =
    (o.0
      ≡ map graceful (pods_of first)
        ++ (if nobody (pods_of first) || any ends w.turns then [] else map forced (pods_of w.last)))
    × ((is_finished o.1 ≡ false)
        ⊎ (first ≡ some [])
        ⊎ (any is_empty w.turns ≡ true)
        ⊎ AllAccepted w)

listed_first : (w : World) (l : Listing) → IsShutdown w l (shutdown_listed w l)
unfolding shutdown_listed
listed_first w none = (refl, inl refl)
listed_first w (some []) = (refl, inr (inl refl))
listed_first w (some (p ∷ ps)) =
    let (sent, how) = after_wait_cases w (await w.turns) (awaited_cases w.turns) in
    (ap (λ ds. map graceful (p ∷ ps) ++ ds) sent, elim how [ inl h ↦ inl h | inr h ↦ inr (inr h) ])

-- The deletions of a shutdown, whatever Kubernetes answers: first those with the grace period, of all
-- pods that are listed at the start; then, if there are any, and no turn of the wait was a cancelled
-- context or a list with no pod left, those without, of all pods that are still listed after the
-- deadline; and no other. It ends without an error only if the list at the start or at a turn was
-- empty, or the list after the deadline was read and the deletion of every pod in it was accepted.
pub shutdown_fleet-kills : (w : World) → IsShutdown w w.first (shutdown_fleet w)
unfolding shutdown_fleet
shutdown_fleet-kills w = listed_first w w.first
