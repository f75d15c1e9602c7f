-- ===== src/Health/Streaks.antt =====
-- When healthcheck.go calls a sandbox unhealthy.
use iicpc.Prelude.{
  ℕ, zero, suc, ◌+◌, ◌≤◌, ◌<◌, ◌≡◌, refl, true, false, List, [], ◌∷◌, arith, if◌then◌else◌, length,
  take, inl, inr, ◌⊎◌, ◌∙◌, subst,
}
use iicpc.Health.{
  Answer, probe_fails, HealthChecker, Ending, unhealthy, cancelled, threshold, tick, run,
}

-- The answers of the first probes, the latest in front.
abbrev pub onto : List Answer → List Answer → List Answer
onto seen [] = seen
onto seen (a ∷ rest) = onto (a ∷ seen) rest

-- How many of the latest answers are failures.
pub streak : List Answer → ℕ
streak [] = 0
streak (a ∷ seen) = if probe_fails a then streak seen + 1 else 0

abbrev pub streak_after : ℕ → List Answer → ℕ
streak_after n answers = streak (onto [] (take n answers))

abbrev at : List Answer → ℕ → List Answer → ℕ
at seen n answers = streak (onto seen (take n answers))

tick_cases :
    (h : HealthChecker) (a : Answer) (seen : List Answer)
    → h.consecutive_fail ≡ streak seen
    → h.consecutive_fail < threshold h
    → ((tick h a).0.consecutive_fail ≡ streak (a ∷ seen))
      × (threshold (tick h a).0 ≡ threshold h)
      × ((((tick h a).1 ≡ true) × (streak (a ∷ seen) ≡ threshold h))
          ⊎ (((tick h a).1 ≡ false) × (streak (a ∷ seen) < threshold h)))
unfolding tick streak threshold
tick_cases h a seen same low = ground arith

-- How `Run` ends, with the answers that are left, after those of `seen`.
abbrev Ends : ℕ → List Answer → List Answer → Ending × ℕ → Type 0
Ends limit seen answers (ending, n) =
    ((ending ≡ unhealthy)
      × (n ≤ length answers)
      × (at seen n answers ≡ limit)
      × ((m : ℕ) → m < n → at seen m answers < limit))
    ⊎ ((ending ≡ cancelled)
        × (n ≡ length answers)
        × ((m : ℕ) → m ≤ length answers → at seen m answers < limit))

none_before :
    (limit n : ℕ) (seen : List Answer) (a : Answer) (rest : List Answer)
    → streak seen < limit
    → ((m : ℕ) → m < n → at (a ∷ seen) m rest < limit)
    → (m : ℕ) → m < n + 1
    → at seen m (a ∷ rest) < limit
none_before limit n seen a rest low later zero h = low
none_before limit n seen a rest low later (suc m) h = later m (omega (arith, h))

none_at_all :
    (limit : ℕ) (seen : List Answer) → streak seen < limit → (m : ℕ) → m ≤ 0 → at seen m [] < limit
none_at_all limit seen low zero h = low
none_at_all limit seen low (suc m) h = low

Ends-later :
    (limit : ℕ) (seen : List Answer) (a : Answer) (rest : List Answer) (r : Ending × ℕ)
    → streak seen < limit
    → Ends limit (a ∷ seen) rest r
    → Ends limit seen (a ∷ rest) (r.0, r.1 + 1)
Ends-later limit seen a rest (ending, n) low (inl (e, short, full, early)) = inl (
  e,
  omega (arith, short),
  subst (λ k. at seen k (a ∷ rest) ≡ limit) {x = suc n} (omega arith) full,
  none_before limit n seen a rest low early,
)
Ends-later limit seen a rest (ending, n) low (inr (e, all_read, never)) = inr (
  e,
  omega (arith, all_read),
  λ m h.
      none_before limit (length rest + 1) seen a rest low (λ k l. never k (omega (arith, l))) m
        (omega (arith, h)),
)

run-Ends :
    (h : HealthChecker) (limit : ℕ) (seen answers : List Answer)
    → threshold h ≡ limit
    → h.consecutive_fail ≡ streak seen
    → streak seen < limit
    → Ends limit seen answers (run h answers)
unfolding run
run-Ends h limit seen [] at_limit same low = inr (refl, refl, none_at_all limit seen low)
run-Ends h limit seen (a ∷ rest) at_limit same low =
    let (next, kept, calls) = tick_cases h a seen same (rw same (rw at_limit low)) in
    elim calls [
      | inl (stops, full) ↦ rw stops (
          inl (
            refl,
            omega arith,
            full ∙ at_limit,
            none_before limit 0 seen a rest low (λ m l. absurd (omega (arith, l))),
          ))
      | inr (goes_on, under) ↦ rw goes_on (
          Ends-later limit seen a rest (run (tick h a).0 rest) low (
            run-Ends (tick h a).0 limit (a ∷ seen) rest (kept ∙ at_limit) next
              (omega (arith, under, at_limit))))
    ]

threshold-pos : (h : HealthChecker) → 0 < threshold h
unfolding threshold
threshold-pos h = ground arith

-- A new checker calls the sandbox unhealthy at the first probe at which as many probes in a row have
-- failed as the threshold says, and it never does before; if no such row comes, it runs through all
-- the answers until it is cancelled.
pub run-ends_at_streak :
    (h : HealthChecker) (answers : List Answer)
    → h.consecutive_fail ≡ 0
    → (((run h answers).0 ≡ unhealthy)
        × ((run h answers).1 ≤ length answers)
        × (streak_after (run h answers).1 answers ≡ threshold h)
        × ((m : ℕ) → m < (run h answers).1 → streak_after m answers < threshold h))
      ⊎ (((run h answers).0 ≡ cancelled)
          × ((run h answers).1 ≡ length answers)
          × ((m : ℕ) → m ≤ length answers → streak_after m answers < threshold h))
unfolding streak
run-ends_at_streak h answers new = run-Ends h (threshold h) [] answers refl new (threshold-pos h)
