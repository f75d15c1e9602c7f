-- ===== src/JobWatch/Outcomes.antt =====
-- Which turn decides the watch of a build job (job_watcher.go).
use mathlib.Core.Option.{some_inj}
use iicpc.Prelude.{
  ◌≡◌, refl, ap, subst, ◌∙◌, Bool, true, false, not, ◌&&◌, ◌||◌, Option, none, some, List, [], ◌∷◌,
  ◌++◌, String, str_eq, leb, if◌then◌else◌, All, Bool-cases, Option-cases, inl, inr, ◌⊎◌,
}
use iicpc.BuildQueue.{SubmissionStatus, build_failed, build_timeout, build_infrastructure_error}
use iicpc.JobWatch.{
  ConditionType, complete, failed, suspended, other_type, Condition, JobStatus, JobResult,
  has_failed, not_started, decide_by, or_else, evaluate_conditions, evaluate_job_status, Turn,
  cancelled, timer, closed, error_event, other, job, answers, watch_build_job,
}

-- What a turn decides by itself: the result, and whether there is an error.
abbrev decides : Turn → Option (JobResult × Bool)
decides cancelled = some (not_started, true)
decides timer = some (not_started, false)
decides closed = some (not_started, false)
decides error_event = some (not_started, true)
decides other = none
decides (job s) = answers (evaluate_job_status s) none

abbrev IsOpen : Turn → Type 0
IsOpen t = decides t ≡ none

-- The first turn that decides.
abbrev DecidedBy : List Turn → List Turn → Turn → List Turn → JobResult × Bool → Type 0
DecidedBy ts before t after r =
    (ts ≡ before ++ t ∷ after) × All IsOpen before × (decides t ≡ some r)

abbrev is_infrastructure : Option SubmissionStatus → Bool
is_infrastructure (some build_infrastructure_error) = true
is_infrastructure _ = false

abbrev is_given : Option SubmissionStatus → Bool
is_given none = false
is_given (some s) = true

-- A result has a reason exactly if it is a failure, that of the infrastructure exactly if the job has
-- not started, and a job that succeeded has started and not failed.
abbrev IsSound : JobResult → Type 0
IsSound r =
    (is_given r.reason ≡ r.failed)
    × (is_infrastructure r.reason ≡ not r.started)
    × ((r.succeeded && (r.failed || not r.started)) ≡ false)

has_failed-IsSound :
    (r : String)
    → IsSound (has_failed (if str_eq r "DeadlineExceeded" then build_timeout else build_failed))
has_failed-IsSound r = elim (Bool-cases (str_eq r "DeadlineExceeded")) [
  | inl e ↦ rw e (refl, refl, refl)
  | inr e ↦ rw e (refl, refl, refl)
]

decide_by-IsSound :
    (k : ConditionType) (reason : String) (rest : Option JobResult) (r : JobResult)
    → ((q : JobResult) → rest ≡ some q → IsSound q)
    → or_else (decide_by k reason) rest ≡ some r
    → IsSound r
decide_by-IsSound complete reason rest r h e =
    subst (λ (o : JobResult). IsSound o) (some_inj.0 e) (refl, refl, refl)
decide_by-IsSound failed reason rest r h e =
    subst (λ (o : JobResult). IsSound o) (some_inj.0 e) (has_failed-IsSound reason)
decide_by-IsSound suspended reason rest r h e = h r e
decide_by-IsSound other_type reason rest r h e = h r e

conditions-IsSound :
    (cs : List Condition) (r : JobResult) → evaluate_conditions cs ≡ some r → IsSound r
unfolding evaluate_conditions
conditions-IsSound [] r h = cc
conditions-IsSound (c ∷ cs) r h = elim (Bool-cases (str_eq c.status "True")) [
  | inl e ↦
      decide_by-IsSound c.kind c.reason (evaluate_conditions cs) r (conditions-IsSound cs)
        (rw e at h)
  | inr e ↦ conditions-IsSound cs r (rw e at h)
]

status-IsSound : (s : JobStatus) (r : JobResult) → evaluate_job_status s ≡ some r → IsSound r
unfolding evaluate_job_status
status-IsSound s r h = elim (Bool-cases (leb 1 s.active)) [
  | inl e ↦ subst (λ (o : JobResult). IsSound o) (some_inj.0 (rw e at h)) (refl, refl, refl)
  | inr e ↦ conditions-IsSound s.conditions r (rw e at h)
]

abbrev Outcome : List Turn → Type 0
Outcome ts =
    (All IsOpen ts × (watch_build_job ts ≡ none))
    ⊎ ((before : List Turn) × (t : Turn) × (after : List Turn) × (r : JobResult × Bool) × DecidedBy
          ts before t after r
        × IsSound r.0
        × (watch_build_job ts ≡ some r))

-- A turn that leaves the watch open, in front of others.
after_open :
    (t : Turn) (ts : List Turn)
    → decides t ≡ none
    → watch_build_job (t ∷ ts) ≡ watch_build_job ts
    → Outcome ts
    → Outcome (t ∷ ts)
after_open t ts o same (inl (h, e)) = inl ((o, h), same ∙ e)
after_open t ts o same (inr (before, u, after, r, (split, h, d), sound, e)) =
    inr (t ∷ before, u, after, r, (ap (λ us. t ∷ us) split, (o, h), d), sound, same ∙ e)

-- The watch of a job returns what the first turn decides that decides anything, and waits if none does.
-- The result has a reason exactly if it is a failure, and the reason BUILD_INFRASTRUCTURE_ERROR exactly
-- if the job has not started; one that succeeded has started and not failed.
watch_build_job-outcome : (ts : List Turn) → Outcome ts
unfolding watch_build_job
watch_build_job-outcome [] = inl (tt, refl)
watch_build_job-outcome (cancelled ∷ ts) =
    inr ([], cancelled, ts, (not_started, true), (refl, tt, refl), (refl, refl, refl), refl)
watch_build_job-outcome (timer ∷ ts) =
    inr ([], timer, ts, (not_started, false), (refl, tt, refl), (refl, refl, refl), refl)
watch_build_job-outcome (closed ∷ ts) =
    inr ([], closed, ts, (not_started, false), (refl, tt, refl), (refl, refl, refl), refl)
watch_build_job-outcome (error_event ∷ ts) =
    inr ([], error_event, ts, (not_started, true), (refl, tt, refl), (refl, refl, refl), refl)
watch_build_job-outcome (other ∷ ts) = after_open other ts refl refl (watch_build_job-outcome ts)
watch_build_job-outcome (job s ∷ ts) = elim (Option-cases (evaluate_job_status s)) [
  | inl e ↦
      after_open (job s) ts (ap (λ (o : Option JobResult). answers o none) e)
        (ap (λ (o : Option JobResult). answers o (watch_build_job ts)) e)
        (watch_build_job-outcome ts)
  | inr (r, e) ↦ inr (
    [],
    job s,
    ts,
    (r, false),
    (refl, tt, ap (λ (o : Option JobResult). answers o none) e),
    status-IsSound s r e,
    ap (λ (o : Option JobResult). answers o (watch_build_job ts)) e,
  )
]
