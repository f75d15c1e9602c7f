-- ===== src/Benchmark/Machine.antt =====
-- The state machine of service.go by itself: the map `allowedTransitions` against the set of the
-- terminal statuses.
use iicpc.Prelude.{ℕ, suc, ◌+◌, ◌≤◌, ◌<◌, ◌≡◌, refl, ◌≢◌, ◌↔◌, Bool, true, false, arith}
use iicpc.Status.{
  RunStatus, queued, building, deploying, running, collecting, scoring, complete, build_failed,
  build_timeout, sandbox_crash, network_setup_failed, no_endpoints, provisioning_timeout,
  insufficient_capacity, collection_timeout, failed, unknown, is_terminal,
}
use iicpc.Benchmark.{allowed_transition}

-- A path through the machine, with the number of its transitions.
pub data Trail : RunStatus → ℕ → RunStatus → Type 0 where
  here : {s : RunStatus} → Trail s 0 s
  then :
      {s t u : RunStatus} {n : ℕ} → allowed_transition s t ≡ true → Trail t n u → Trail s (suc n) u

abbrev pub is_known : RunStatus → Bool
is_known (unknown s) = false
is_known _ = true

-- How many transitions the longest path from a status has.
unfoldable pub remaining : RunStatus → ℕ
remaining queued = 6
remaining building = 5
remaining deploying = 4
remaining running = 3
remaining collecting = 2
remaining scoring = 1
remaining _ = 0

allowed-remaining : (s t : RunStatus) → allowed_transition s t ≡ true → remaining t < remaining s
unfolding allowed_transition remaining
allowed-remaining s t h = ground arith

-- Along every path of transitions the number of transitions, with what the last status still
-- allows, is at most what the first status allows: six from QUEUED.
pub Trail-le-remaining : {s t : RunStatus} {n : ℕ} → Trail s n t → n + remaining t ≤ remaining s
Trail-le-remaining here = omega arith
Trail-le-remaining (then {s} {t} h p) = omega (arith, allowed-remaining s t h, Trail-le-remaining p)

-- A status of the source is terminal exactly if the map allows no transition from it.
is_terminal-iff_stuck :
    (s : RunStatus)
    → is_known s ≡ true
    → (is_terminal s ≡ true) ↔ ((t : RunStatus) → allowed_transition s t ≡ false)
unfolding is_terminal allowed_transition
is_terminal-iff_stuck s k = (λ h t. ground arith, λ h. ground (arith, h failed, h complete))

allowed_next :
    (s t : RunStatus)
    → allowed_transition s t ≡ true
    → (is_known t ≡ true) × (t ≢ provisioning_timeout)
unfolding allowed_transition
allowed_next s t h = ground arith

Trail-used :
    {s t : RunStatus} {n : ℕ}
    → Trail s n t
    → (is_known s ≡ true) × (s ≢ provisioning_timeout)
    → (is_known t ≡ true) × (t ≢ provisioning_timeout)
Trail-used here h = h
Trail-used (then {s} {t} e p) h = Trail-used p (allowed_next s t e)

then_last :
    {s t : RunStatus} {n : ℕ} (u : RunStatus)
    → Trail s n t
    → allowed_transition t u ≡ true
    → Trail s (suc n) u
then_last u here e = then e here
then_last u (then h p) e = then h (then_last u p e)

-- The forward path, a stage at a time.
to_building : Trail queued 1 building
unfolding allowed_transition
to_building = then refl here

to_deploying : Trail queued 2 deploying
unfolding allowed_transition
to_deploying = then_last deploying to_building refl

to_running : Trail queued 3 running
unfolding allowed_transition
to_running = then_last running to_deploying refl

to_collecting : Trail queued 4 collecting
unfolding allowed_transition
to_collecting = then_last collecting to_running refl

to_scoring : Trail queued 5 scoring
unfolding allowed_transition
to_scoring = then_last scoring to_collecting refl

queued-Trail :
    (t : RunStatus) → is_known t ≡ true → t ≢ provisioning_timeout → (n : ℕ) × Trail queued n t
unfolding allowed_transition
queued-Trail queued k h = (0, here)
queued-Trail building k h = (1, to_building)
queued-Trail deploying k h = (2, to_deploying)
queued-Trail running k h = (3, to_running)
queued-Trail collecting k h = (4, to_collecting)
queued-Trail scoring k h = (5, to_scoring)
queued-Trail complete k h = (6, then_last complete to_scoring refl)
queued-Trail build_failed k h = (2, then_last build_failed to_building refl)
queued-Trail build_timeout k h = (2, then_last build_timeout to_building refl)
queued-Trail sandbox_crash k h = (3, then_last sandbox_crash to_deploying refl)
queued-Trail network_setup_failed k h = (3, then_last network_setup_failed to_deploying refl)
queued-Trail no_endpoints k h = (3, then_last no_endpoints to_deploying refl)
queued-Trail provisioning_timeout k h = absurd (h refl)
queued-Trail insufficient_capacity k h = (4, then_last insufficient_capacity to_running refl)
queued-Trail collection_timeout k h = (5, then_last collection_timeout to_collecting refl)
queued-Trail failed k h = (1, then refl here)
queued-Trail (unknown s) k h = absurd (cc)

-- From QUEUED the machine reaches exactly the statuses of the source other than
-- PROVISIONING_TIMEOUT, which no transition leads to.
reachable_iff :
    (t : RunStatus)
    → ((n : ℕ) × Trail queued n t) ↔ ((is_known t ≡ true) × (t ≢ provisioning_timeout))
reachable_iff t = (λ p. Trail-used p.1 (refl, λ e. cc), λ h. queued-Trail t h.0 h.1)
