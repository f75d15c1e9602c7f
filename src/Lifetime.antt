-- ===== src/Lifetime.antt =====
-- services/sandbox-controller/internal/controller/lifetime.go and crashhandler.go: how a sandbox ends,
-- by its time limit or by a crash. What the container, the collection of metrics, the control plane and
-- the release of the resources answer is a parameter; a result is the list of the calls made.
pub mod Ends
use iicpc.Prelude.{
  ℕ, Bool, true, false, ◌||◌, ◌&&◌, Option, none, some, List, [], ◌∷◌, ◌++◌, String, ltb, leb, ◌==◌,
  if◌then◌else◌,
}
use iicpc.Status.{RunStatus, sandbox_crash, collection_timeout}
use iicpc.Sandbox.{SandboxStatus, crashed}

abbrev pub max_allowed_lifetime_seconds : ℕ
max_allowed_lifetime_seconds = 7200

abbrev pub metric_collection_deadline : ℕ
metric_collection_deadline = 60

abbrev pub resource_release_timeout : ℕ
resource_release_timeout = 30

pub data Call : Type 0 where
  graceful_stop collect release : Call
  update_run_status : String → RunStatus → Call

pub data Error : Type 0 where
  context_cancelled collection_exceeded : Error
  release_failed release_timed_out update_failed : Error

-- A lifetime of 0 stands for any that is not positive.
unfoldable pub lifetime_seconds : ℕ → ℕ
lifetime_seconds n = if n == 0 || ltb 7200 n then max_allowed_lifetime_seconds else n

-- The second at which the context is cancelled, and which of two signals of one moment is taken; how
-- many seconds the collection takes, if there is one, where `none` never ends.
pub record Answers : Type 0 where
  pub cancelled_at : Option ℕ
  pub takes_cancel : Bool
  pub has_collection : Bool
  pub collection_takes : Option ℕ
  pub stop_fails : Bool
  pub release_fails : Bool
  pub update_fails : Bool

-- Whether the context ends before the timer.
abbrev pub comes_first : Bool → Option ℕ → ℕ → Bool
comes_first tie none n = false
comes_first tie (some t) n = ltb t n || (t == n && tie)

unfoldable pub is_late : Option ℕ → ℕ → Bool
is_late none deadline = true
is_late (some n) deadline = ltb deadline n

unfoldable pub times_out : Answers → Bool
times_out w = w.has_collection && is_late w.collection_takes metric_collection_deadline

abbrev pub calls_if : Bool → Call → List Call
calls_if true c = c ∷ []
calls_if false c = []

-- `EnforceLifetime`, for a run.
unfoldable pub enforce_lifetime : Answers → String → ℕ → List Call × Option Error
unfolding lifetime_seconds times_out is_late
enforce_lifetime w run seconds =
    let late = times_out w in
    if comes_first w.takes_cancel w.cancelled_at (lifetime_seconds seconds)
    then ([], some context_cancelled)
    else (
      graceful_stop
          ∷ (calls_if w.has_collection collect
              ++ (calls_if late (update_run_status run collection_timeout) ++ release ∷ [])),
      if w.release_fails
          then some release_failed
          else if late
          then some collection_exceeded
          else none,
    )

-- How the release of the resources after a crash ends; `none` is a release that the context does not
-- wait for, and `some` the seconds that it takes.
unfoldable pub release_error : Option ℕ → Bool → Option Error
unfolding is_late
release_error takes fails =
    if is_late takes resource_release_timeout
    then some release_timed_out
    else if fails
    then some release_failed
    else none

abbrev pub first_error : Option Error → Option Error → Option Error
first_error (some e) f = some e
first_error none f = f

-- `HandleCrash`: the status of the sandbox, the calls and the error.
unfoldable pub handle_crash :
    Option ℕ
    → Bool
    → Bool
    → String
    → ℕ
    → String
    → SandboxStatus
    → SandboxStatus × List Call × Option Error
unfolding release_error
handle_crash release_takes release_fails update_fails run exit_code reason s = (
  record s { phase = crashed; termination_reason = reason; exit_code = exit_code },
  release ∷ update_run_status run sandbox_crash ∷ [],
  first_error (release_error release_takes release_fails)
      (if update_fails then some update_failed else none),
)
