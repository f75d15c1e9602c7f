-- ===== src/Benchmark/Outcomes.antt =====
-- What an error of service.go leaves, and what a terminal status means for the rest of a history.
use iicpc.Prelude.{
  ℕ, ◌≡◌, inl, inr, true, false, some, List, [], ◌∷◌, String, eq_iff, arith, Option-cases,
}
use iicpc.Status.{RunStatus, is_terminal, failed}
use iicpc.Benchmark.{
  BenchmarkRun, Database, Outage, CreateRunRequest, find_run, err, Error, create_run, refuse_create,
  insert_run, created, new_run, advanced, advance, transition_state, cancel_run, Request, creates,
  transitions, cancels, serve, serve_all,
}
use iicpc.Benchmark.Audit.{insert_run_cases}
use iicpc.Benchmark.Rows.{find_run-append, find_run-update_status}
use iicpc.Benchmark.History.{transition_state_cases}

-- No call of the database fails.
pub record IsUp (o : Outage) : Type 0 where
  pub begins : o.begins ≡ false
  pub selects : o.selects ≡ false
  pub updates : o.updates ≡ false
  pub inserts_audit : o.inserts_audit ≡ false
  pub commits : o.commits ≡ false

-- A request of any kind that returns an error has changed nothing.
error_unchanged :
    (o : Outage) (db : Database) (req : CreateRunRequest) (i actor reason : String) (now : ℕ)
    (s : RunStatus) (e : Error)
    → ((create_run o db req i now).1 ≡ err e → (create_run o db req i now).0 ≡ db)
      × ((transition_state o db i actor s reason).1 ≡ err e
          → (transition_state o db i actor s reason).0 ≡ db)
      × ((cancel_run o db i).1 ≡ err e → (cancel_run o db i).0 ≡ db)
unfolding create_run insert_run transition_state advance cancel_run
error_unchanged o db req i actor reason now s e =
    (λ h. ground arith, λ h. ground arith, λ h. ground arith)

kept_by_create :
    (o : Outage) (db : Database) (req : CreateRunRequest) (i j : String) (now : ℕ)
    (r : BenchmarkRun)
    → find_run j db.runs ≡ some r
    → find_run j (create_run o db req i now).0.runs ≡ some r
unfolding create_run created
kept_by_create o db req i j now r found = elim (Option-cases (refuse_create o db req)) [
  | inr (e, h) ↦ rw (h, create_run) found
  | inl h ↦
      rw (h, create_run)
        (elim (insert_run_cases o db req i now) [
          | inl same ↦ rw same found
          | inr (free, new) ↦ rw new (ground (arith, find_run-append j db.runs (new_run req i now)))
        ])
]

kept_by_transition :
    (o : Outage) (db : Database) (i j actor : String) (s : RunStatus) (reason : String)
    (r : BenchmarkRun)
    → find_run j db.runs ≡ some r
    → is_terminal r.status ≡ true
    → find_run j (transition_state o db i actor s reason).0.runs ≡ some r
unfolding advanced
kept_by_transition o db i j actor s reason r found over =
    elim (transition_state_cases o db i actor s reason) [
      | inl same ↦ rw same found
      | inr (x, there, live, allowed, moved) ↦
          rw moved (ground (arith, eq_iff i j, find_run-update_status s i j db.runs))
    ]

kept_by_request :
    (db : Database) (q : Outage × Request) (j : String) (r : BenchmarkRun)
    → find_run j db.runs ≡ some r
    → is_terminal r.status ≡ true
    → find_run j (serve db q).runs ≡ some r
unfolding serve cancel_run
kept_by_request db (o, creates req i now) j r found over = kept_by_create o db req i j now r found
kept_by_request db (o, transitions i actor s reason) j r found over =
    kept_by_transition o db i j actor s reason r found over
kept_by_request db (o, cancels i) j r found over =
    kept_by_transition o db i j "operator" failed "cancelled by operator" r found over

-- A run in a terminal status keeps its row as it is, its status included, whatever requests are served
-- after that, one after the other, and whatever calls of the database fail.
pub terminal_absorbs :
    (db : Database) (qs : List (Outage × Request)) (j : String) (r : BenchmarkRun)
    → find_run j db.runs ≡ some r
    → is_terminal r.status ≡ true
    → find_run j (serve_all db qs).runs ≡ some r
unfolding serve_all
terminal_absorbs db [] j r found over = found
terminal_absorbs db (q ∷ qs) j r found over =
    terminal_absorbs (serve db q) qs j r (kept_by_request db q j r found over) over
