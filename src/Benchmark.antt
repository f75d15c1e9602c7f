-- ===== src/Benchmark.antt =====
-- services/control-plane-api/internal/benchmark/service.go: the life of benchmark runs. The tables
-- `benchmark_runs` and `benchmark_run_audit` are lists of rows, in the order of insertion. A call of
-- the database may fail (`Outage` says which one does); a transaction that does not commit changes
-- nothing. The generated id of a new row is an argument, and the primary key refuses a used one.
pub mod Machine
pub mod Rows
pub mod Audit
pub mod Limit
pub mod History
pub mod Outcomes
pub mod Race
use iicpc.Prelude.{
  ℕ, Bool, true, false, not, ◌&&◌, Option, none, some, List, [], ◌∷◌, ◌++◌, String, str_eq, leb,
  ◌==◌, if◌then◌else◌, count,
}
use iicpc.Status.{
  RunStatus, queued, building, deploying, running, collecting, scoring, complete, build_failed,
  build_timeout, sandbox_crash, network_setup_failed, no_endpoints, provisioning_timeout,
  insufficient_capacity, collection_timeout, failed, unknown, is_terminal,
}

pub record BenchmarkRun : Type 0 where
  pub id : String
  pub contestant_id : String
  pub submission_id : String
  pub status : RunStatus
  pub bot_count : ℕ
  pub created_at : ℕ

pub record AuditEntry : Type 0 where
  pub benchmark_run_id : String
  pub prior_state : RunStatus
  pub new_state : RunStatus
  pub actor_identity : String
  pub failure_reason : Option String

pub record Database : Type 0 where
  pub runs : List BenchmarkRun
  pub audit : List AuditEntry

-- Which call of the database fails, if one does.
pub record Outage : Type 0 where
  pub counts : Bool
  pub begins : Bool
  pub selects : Bool
  pub updates : Bool
  pub inserts_run : Bool
  pub inserts_audit : Bool
  pub commits : Bool

pub record CreateRunRequest : Type 0 where
  pub contestant_id : String
  pub submission_id : String
  pub bot_count : ℕ

pub data Error : Type 0 where
  resource_exhausted : ℕ → Error
  not_found database_error : Error
  already_terminal : RunStatus → Error
  invalid_transition : RunStatus → RunStatus → Error

pub data Result {ℓ} (A : Type ℓ) : Type ℓ where
  ok : A → Result A
  err : Error → Result A

abbrev pub max_concurrent_runs : ℕ
max_concurrent_runs = 3

-- The map of maps `allowedTransitions`; a missing key, of either map, reads as false.
unfoldable pub allowed_transition : RunStatus → RunStatus → Bool
allowed_transition queued building = true
allowed_transition queued failed = true
allowed_transition queued build_failed = true
allowed_transition building deploying = true
allowed_transition building build_failed = true
allowed_transition building build_timeout = true
allowed_transition building failed = true
allowed_transition deploying running = true
allowed_transition deploying sandbox_crash = true
allowed_transition deploying network_setup_failed = true
allowed_transition deploying no_endpoints = true
allowed_transition deploying failed = true
allowed_transition running collecting = true
allowed_transition running sandbox_crash = true
allowed_transition running insufficient_capacity = true
allowed_transition running failed = true
allowed_transition collecting scoring = true
allowed_transition collecting collection_timeout = true
allowed_transition collecting failed = true
allowed_transition scoring complete = true
allowed_transition scoring failed = true
allowed_transition _ _ = false

-- The list of the query of `countNonTerminalRuns`, after `status NOT IN`.
unfoldable pub not_in_query_list : RunStatus → Bool
not_in_query_list complete = false
not_in_query_list build_failed = false
not_in_query_list build_timeout = false
not_in_query_list sandbox_crash = false
not_in_query_list network_setup_failed = false
not_in_query_list no_endpoints = false
not_in_query_list provisioning_timeout = false
not_in_query_list insufficient_capacity = false
not_in_query_list collection_timeout = false
not_in_query_list failed = false
not_in_query_list _ = true

unfoldable pub count_non_terminal_runs : String → List BenchmarkRun → ℕ
unfolding not_in_query_list
count_non_terminal_runs c = count (λ r. str_eq r.contestant_id c && not_in_query_list r.status)

unfoldable pub find_run : String → List BenchmarkRun → Option BenchmarkRun
find_run i [] = none
find_run i (r ∷ rs) = if str_eq r.id i then some r else find_run i rs

-- `UPDATE benchmark_runs SET status = $1 WHERE id = $2`.
unfoldable pub update_status : RunStatus → String → List BenchmarkRun → List BenchmarkRun
update_status s i [] = []
update_status s i (r ∷ rs) =
    (if str_eq r.id i then record r { status = s } else r) ∷ update_status s i rs

new_run : CreateRunRequest → String → ℕ → BenchmarkRun
new_run req i now = record {
  id = i;
  contestant_id = req.contestant_id;
  submission_id = req.submission_id;
  status = queued;
  bot_count = if req.bot_count == 0 then 1000 else req.bot_count;
  created_at = now;
}

-- The first audit row of a run; its prior state is the empty string.
creation_entry : CreateRunRequest → String → AuditEntry
creation_entry req i = record {
  benchmark_run_id = i;
  prior_state = unknown "";
  new_state = queued;
  actor_identity = req.contestant_id;
  failure_reason = none;
}

-- What the transaction of `CreateRun` commits.
pub created : Database → CreateRunRequest → String → ℕ → Database
unfolding new_run creation_entry
created db req i now = record {
  runs = db.runs ++ new_run req i now ∷ [];
  audit = db.audit ++ creation_entry req i ∷ [];
}

-- The transaction of `CreateRun`, after the check of the limit.
unfoldable pub insert_run :
    Outage → Database → CreateRunRequest → String → ℕ → Database × Result BenchmarkRun
unfolding new_run created find_run
insert_run o db req i now =
    if o.begins
    then (db, err database_error)
    else if o.inserts_run
    then (db, err database_error)
    else elim (find_run i db.runs) [
      | some r ↦ (db, err database_error)
      | none ↦
          if o.inserts_audit
          then (db, err database_error)
          else if o.commits
          then (db, err database_error)
          else (created db req i now, ok (new_run req i now))
    ]

-- The check that precedes the transaction: `none` lets the request pass.
unfoldable pub refuse_create : Outage → Database → CreateRunRequest → Option Error
unfolding count_non_terminal_runs
refuse_create o db req =
    let n = count_non_terminal_runs req.contestant_id db.runs in
    if o.counts
    then some database_error
    else if leb max_concurrent_runs n
    then some (resource_exhausted n)
    else none

unfoldable pub create_run :
    Outage → Database → CreateRunRequest → String → ℕ → Database × Result BenchmarkRun
unfolding refuse_create insert_run
create_run o db req i now = elim (refuse_create o db req) [
  | some e ↦ (db, err e)
  | none ↦ insert_run o db req i now
]

unfoldable pub get_run : Outage → Database → String → Result BenchmarkRun
unfolding find_run
get_run o db i =
    if o.selects
    then err database_error
    else elim (find_run i db.runs) [ none ↦ err not_found | some r ↦ ok r ]

-- A request as the server takes it: the call of the service, with the id and the time of a new row.
pub data Request : Type 0 where
  creates : CreateRunRequest → String → ℕ → Request
  transitions : String → String → RunStatus → String → Request
  cancels : String → Request

reason_of : String → Option String
reason_of s = if str_eq s "" then none else some s

transition_entry : BenchmarkRun → String → String → RunStatus → String → AuditEntry
unfolding reason_of
transition_entry r i actor s reason = record {
  benchmark_run_id = i;
  prior_state = r.status;
  new_state = s;
  actor_identity = actor;
  failure_reason = reason_of reason;
}

-- What the transaction of `TransitionState` commits.
pub advanced : Database → String → String → RunStatus → String → BenchmarkRun → Database
unfolding update_status transition_entry
advanced db i actor s reason r = record {
  runs = update_status s i db.runs;
  audit = db.audit ++ transition_entry r i actor s reason ∷ [];
}

-- `TransitionState`, from the locked row on.
advance :
    Outage
    → Database
    → String
    → String
    → RunStatus
    → String
    → BenchmarkRun
    → Database × Result (Unit {0})
unfolding allowed_transition is_terminal advanced
advance o db i actor s reason r =
    if is_terminal r.status
    then (db, err (already_terminal r.status))
    else if not (allowed_transition r.status s)
    then (db, err (invalid_transition r.status s))
    else if o.updates
    then (db, err database_error)
    else if o.inserts_audit
    then (db, err database_error)
    else if o.commits
    then (db, err database_error)
    else (advanced db i actor s reason r, ok tt)

unfoldable pub transition_state :
    Outage → Database → String → String → RunStatus → String → Database × Result (Unit {0})
unfolding advance find_run
transition_state o db i actor s reason =
    if o.begins
    then (db, err database_error)
    else if o.selects
    then (db, err database_error)
    else elim (find_run i db.runs) [
      | none ↦ (db, err not_found)
      | some r ↦ advance o db i actor s reason r
    ]

unfoldable pub cancel_run : Outage → Database → String → Database × Result (Unit {0})
unfolding transition_state
cancel_run o db i = transition_state o db i "operator" failed "cancelled by operator"

-- The tables after a request, and after a history of requests that are served one by one.
unfoldable pub serve : Database → Outage × Request → Database
unfolding create_run transition_state cancel_run
serve db (o, creates req i now) = (create_run o db req i now).0
serve db (o, transitions i actor s reason) = (transition_state o db i actor s reason).0
serve db (o, cancels i) = (cancel_run o db i).0

unfoldable pub serve_all : Database → List (Outage × Request) → Database
unfolding serve
serve_all db [] = db
serve_all db (r ∷ rs) = serve_all (serve db r) rs
