-- ===== src/JobWatch.antt =====
-- services/build-pipeline/internal/spawner/job_watcher.go: what the watch of a build job makes of what
-- Kubernetes delivers.
pub mod Outcomes
use iicpc.Prelude.{
  ℕ, Bool, true, false, not, ◌&&◌, Option, none, some, List, [], ◌∷◌, String, str_eq, leb,
  if◌then◌else◌,
}
use iicpc.BuildQueue.{SubmissionStatus, build_failed, build_timeout, build_infrastructure_error}

pub data ConditionType : Type 0 where
  complete failed suspended other_type : ConditionType

pub record Condition : Type 0 where
  pub kind : ConditionType
  pub status : String
  pub reason : String

pub record JobStatus : Type 0 where
  pub active : ℕ
  pub conditions : List Condition

-- The result; `none` for the reason is the empty string.
pub record JobResult : Type 0 where
  pub started : Bool
  pub succeeded : Bool
  pub failed : Bool
  pub reason : Option SubmissionStatus

abbrev pub has_started : JobResult
has_started = record { started = true; succeeded = false; failed = false; reason = none }

abbrev pub has_succeeded : JobResult
has_succeeded = record { started = true; succeeded = true; failed = false; reason = none }

abbrev pub has_failed : SubmissionStatus → JobResult
has_failed s = record { started = true; succeeded = false; failed = true; reason = some s }

abbrev pub not_started : JobResult
not_started = record {
  started = false;
  succeeded = false;
  failed = true;
  reason = some build_infrastructure_error;
}

-- A condition that holds, and decides; a suspended job is watched on.
abbrev pub decide_by : ConditionType → String → Option JobResult
decide_by complete reason = some has_succeeded
decide_by failed reason =
    some (has_failed (if str_eq reason "DeadlineExceeded" then build_timeout else build_failed))
decide_by suspended reason = none
decide_by other_type reason = none

abbrev pub or_else {ℓ} : {A : Type ℓ} → Option A → Option A → Option A
or_else none o = o
or_else (some a) o = some a

-- The loop over the conditions of `evaluateJobStatus`.
unfoldable pub evaluate_conditions : List Condition → Option JobResult
evaluate_conditions [] = none
evaluate_conditions (c ∷ cs) =
    let rest = evaluate_conditions cs in
    if str_eq c.status "True" then or_else (decide_by c.kind c.reason) rest else rest

-- `evaluateJobStatus`; `none` is to keep watching.
unfoldable pub evaluate_job_status : JobStatus → Option JobResult
evaluate_job_status s =
    if leb 1 s.active then some has_started else evaluate_conditions s.conditions

-- A turn of the loop: the context ends, the timer fires, the channel is closed, an error, an object of
-- another kind, or the job.
pub data Turn : Type 0 where
  cancelled timer closed error_event other : Turn
  job : JobStatus → Turn

abbrev pub answers : Option JobResult → Option (JobResult × Bool) → Option (JobResult × Bool)
answers none rest = rest
answers (some r) rest = some (r, false)

-- `WatchBuildJob`, once the watch is established: the result and whether it comes with an error, or
-- `none` while it waits.
unfoldable pub watch_build_job : List Turn → Option (JobResult × Bool)
watch_build_job [] = none
watch_build_job (cancelled ∷ ts) = some (not_started, true)
watch_build_job (timer ∷ ts) = some (not_started, false)
watch_build_job (closed ∷ ts) = some (not_started, false)
watch_build_job (error_event ∷ ts) = some (not_started, true)
watch_build_job (other ∷ ts) = watch_build_job ts
watch_build_job (job s ∷ ts) = answers (evaluate_job_status s) (watch_build_job ts)
