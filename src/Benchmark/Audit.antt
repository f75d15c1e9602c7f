-- ===== src/Benchmark/Audit.antt =====
-- The audit trail of service.go: the rows of a run, in the order of insertion, read as steps of the
-- state machine.
use mathlib.Core.Logic.{ite}
use iicpc.Prelude.{
  ℕ, ◌≡◌, refl, Bool, true, false, ◌||◌, Option, none, some, List, [], ◌∷◌, ◌++◌, String, str_eq,
  eq_iff, eq_refl, arith, if◌then◌else◌, ◌⊎◌,
}
use iicpc.Status.{RunStatus, RunStatus-discrete, queued, unknown}
use iicpc.Benchmark.{
  BenchmarkRun, AuditEntry, Database, Outage, CreateRunRequest, find_run, allowed_transition,
  insert_run, created, creation_entry, new_run, advanced, transition_entry,
}
use iicpc.Benchmark.Rows.{find_run-append, find_run-update_status}

-- The first row of a run goes from the empty string to QUEUED.
abbrev is_creation : RunStatus → RunStatus → Bool
is_creation (unknown s) queued = str_eq s ""
is_creation _ _ = false

-- One row read: it has to start where the trail stands, and to be a step that is allowed.
pub follow : Option RunStatus → AuditEntry → Option RunStatus
follow none e = none
follow (some s) e =
    ite (RunStatus-discrete e.prior_state s)
      (if allowed_transition s e.new_state || is_creation s e.new_state
        then some e.new_state
        else none)
      none

-- The rows of the run `i`, read from a status on; `none` if a row does not fit.
unfoldable pub replay : String → Option RunStatus → List AuditEntry → Option RunStatus
replay i o [] = o
replay i o (e ∷ es) = replay i (if str_eq e.benchmark_run_id i then follow o e else o) es

unfoldable pub status_of : String → List BenchmarkRun → RunStatus
status_of i rs = elim (find_run i rs) [ none ↦ unknown "" | some r ↦ r.status ]

-- For every id the audit rows replay to the status in the table, or to nothing if the id is free.
abbrev pub IsAudited : Database → Type 0
IsAudited db = (i : String) → replay i (some (unknown "")) db.audit ≡ some (status_of i db.runs)

replay-append :
    (i : String) (o : Option RunStatus) (es : List AuditEntry) (e : AuditEntry)
    → replay i o (es ++ e ∷ [])
      ≡ (if str_eq e.benchmark_run_id i then follow (replay i o es) e else replay i o es)
unfolding replay
replay-append i o [] e = refl
replay-append i o (x ∷ es) e =
    replay-append i (if str_eq x.benchmark_run_id i then follow o x else o) es e

-- What is committed keeps the trail faithful, whoever commits it.
pub created-IsAudited :
    (db : Database) (req : CreateRunRequest) (i : String) (now : ℕ)
    → find_run i db.runs ≡ none
    → IsAudited db
    → IsAudited (created db req i now)
unfolding created new_run creation_entry follow status_of
created-IsAudited db req i now free h j = ground (
  arith,
  h j,
  eq_iff i j,
  eq_refl "",
  replay-append j (some (unknown "")) db.audit (creation_entry req i),
  find_run-append j db.runs (new_run req i now),
)

pub advanced-IsAudited :
    (db : Database) (i actor : String) (s : RunStatus) (reason : String) (r : BenchmarkRun)
    → find_run i db.runs ≡ some r
    → allowed_transition r.status s ≡ true
    → IsAudited db
    → IsAudited (advanced db i actor s reason r)
unfolding advanced transition_entry follow status_of
advanced-IsAudited db i actor s reason r found e h j = ground (
  arith,
  h j,
  eq_iff i j,
  replay-append j (some (unknown "")) db.audit (transition_entry r i actor s reason),
  find_run-update_status s i j db.runs,
)

-- A request leaves the tables alone, or commits its rows.
pub insert_run_cases :
    (o : Outage) (db : Database) (req : CreateRunRequest) (i : String) (now : ℕ)
    → ((insert_run o db req i now).0 ≡ db)
      ⊎ ((find_run i db.runs ≡ none) × ((insert_run o db req i now).0 ≡ created db req i now))
unfolding insert_run
insert_run_cases o db req i now = ground arith
