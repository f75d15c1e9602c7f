-- ===== src/PodWatch/Reports.antt =====
-- Which events of a pod are reported (watcher.go).
use iicpc.Prelude.{
  ℕ, ◌≡◌, refl, ap, Bool, true, false, ◌||◌, Option, none, some, List, [], ◌∷◌, str_eq,
  if◌then◌else◌, any, through, Bool-cases, inl, inr, ◌⊎◌, ◌⊎◌,
}
use iicpc.PodWatch.{
  Terminated, Pod, PodEvent, Turn, cancelled, closed, error_event, other, changed, Ended, watching,
  finished, context_done, channel_closed, received_error, crash_in, pod_event_from_pod,
  is_terminal_phase, watch_pod,
}

-- The events of the pods that the watch delivers while nothing ends it.
abbrev delivered : List Turn → List PodEvent
delivered [] = []
delivered (other ∷ ts) = delivered ts
delivered (changed now false pod ∷ ts) = pod_event_from_pod now pod ∷ delivered ts
delivered (changed now true pod ∷ ts) = []
delivered (cancelled ∷ ts) = []
delivered (closed ∷ ts) = []
delivered (error_event ∷ ts) = []

-- What ends the watch, if no event does.
abbrev interruption : List Turn → Ended
interruption [] = watching
interruption (other ∷ ts) = interruption ts
interruption (changed now false pod ∷ ts) = interruption ts
interruption (changed now true pod ∷ ts) = context_done
interruption (cancelled ∷ ts) = context_done
interruption (closed ∷ ts) = channel_closed
interruption (error_event ∷ ts) = received_error

abbrev is_last : PodEvent → Bool
is_last e = is_terminal_phase e.phase

abbrev Reports : List Turn → Type 0
Reports ts =
    ((watch_pod ts).0 ≡ through is_last (delivered ts))
    × ((watch_pod ts).1 ≡ (if any is_last (delivered ts) then finished else interruption ts))

reports : (ts : List Turn) → Reports ts
unfolding watch_pod
reports [] = (refl, refl)
reports (cancelled ∷ ts) = (refl, refl)
reports (closed ∷ ts) = (refl, refl)
reports (error_event ∷ ts) = (refl, refl)
reports (other ∷ ts) = reports ts
reports (changed now true pod ∷ ts) = (refl, refl)
reports (changed now false pod ∷ ts) =
    let (sent, end) = reports ts in
    elim (Bool-cases (is_last (pod_event_from_pod now pod))) [
      | inl e ↦ rw e (refl, refl)
      | inr e ↦ rw e (ap (λ es. pod_event_from_pod now pod ∷ es) sent, end)
    ]

-- A container has terminated otherwise than by completion.
abbrev has_crashed : Option Terminated → Bool
has_crashed none = false
has_crashed (some t) = if str_eq t.reason "Completed" then false else true

crash_cases :
    (cs : List (Option Terminated))
    → ((any has_crashed cs ≡ false) × (crash_in cs ≡ none))
      ⊎ ((any has_crashed cs ≡ true) × ((t : Terminated) × (crash_in cs ≡ some t)))
unfolding crash_in
crash_cases [] = inl (refl, refl)
crash_cases (none ∷ cs) = crash_cases cs
crash_cases (some t ∷ cs) = elim (Bool-cases (str_eq t.reason "Completed")) [
  | inl e ↦ rw e (crash_cases cs)
  | inr e ↦ rw e (inr (refl, (t, refl)))
]

crashed_phase :
    (now : ℕ) (pod : Pod)
    → str_eq (pod_event_from_pod now pod).phase "CRASHED"
      ≡ (any has_crashed pod.containers || str_eq pod.phase "CRASHED")
unfolding pod_event_from_pod
crashed_phase now pod = elim (crash_cases pod.containers) [
  | inl (a, e) ↦ rw (a, e) refl
  | inr (a, (t, e)) ↦ rw (a, e) refl
]

-- The watch of a pod sends an event for each pod that it is delivered, up to the first of a terminal
-- phase and with that one, and ends without an error exactly then; else it ends by what interrupts it,
-- if anything does. The event of a pod says CRASHED exactly if some container has terminated otherwise
-- than by completion, or the pod's own phase says so.
watch_pod-reports :
    (ts : List Turn) (now : ℕ) (pod : Pod)
    → ((watch_pod ts).0 ≡ through is_last (delivered ts))
      × ((watch_pod ts).1 ≡ (if any is_last (delivered ts) then finished else interruption ts))
      × (str_eq (pod_event_from_pod now pod).phase "CRASHED"
          ≡ (any has_crashed pod.containers || str_eq pod.phase "CRASHED"))
watch_pod-reports ts now pod = let (sent, end) = reports ts in (sent, end, crashed_phase now pod)
