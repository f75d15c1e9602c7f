-- ===== src/Benchmark/History.antt =====
-- What holds of the tables of service.go after any history of requests and failures.
use iicpc.Prelude.{
  ℕ, ◌+◌, ◌≤◌, ◌<◌, ◌≡◌, ◌⊎◌, inl, inr, true, false, ◌||◌, Bool-cases, none, some, List, [], ◌∷◌,
  String, str_eq, eq_iff, arith, if◌then◌else◌, count-append, Option-cases, ◌∙◌,
}
use iicpc.Status.{RunStatus, is_terminal, failed}
use iicpc.Benchmark.{
  BenchmarkRun, Database, Outage, CreateRunRequest, find_run, not_in_query_list, ok,
  count_non_terminal_runs, max_concurrent_runs, create_run, refuse_create, created, new_run,
  advanced, advance, transition_state, cancel_run, allowed_transition, Request, creates,
  transitions, cancels, serve, serve_all,
}
use iicpc.Benchmark.Audit.{insert_run_cases, IsAudited, created-IsAudited, advanced-IsAudited}
use iicpc.Benchmark.Limit.{IsKeyed, update_status-IsKeyed, append-IsKeyed, count-update_status}

pub record IsValid (db : Database) : Type 0 where
  pub audited : IsAudited db
  pub keyed : IsKeyed db.runs
  pub limited : (c : String) → count_non_terminal_runs c db.runs ≤ max_concurrent_runs

-- `advance` either refuses and leaves the tables alone, or commits an allowed transition.
advance_cases :
    (o : Outage) (db : Database) (i actor : String) (s : RunStatus) (reason : String)
    (r : BenchmarkRun)
    → ((advance o db i actor s reason r).0 ≡ db)
      ⊎ ((is_terminal r.status ≡ false)
          × (allowed_transition r.status s ≡ true)
          × (advance o db i actor s reason r ≡ (advanced db i actor s reason r, ok tt)))
unfolding advance
advance_cases o db i actor s reason r = ground arith

pub transition_state_cases :
    (o : Outage) (db : Database) (i actor : String) (s : RunStatus) (reason : String)
    → ((transition_state o db i actor s reason).0 ≡ db)
      ⊎ ((r : BenchmarkRun) × (find_run i db.runs ≡ some r)
          × (is_terminal r.status ≡ false)
          × (allowed_transition r.status s ≡ true)
          × ((transition_state o db i actor s reason).0 ≡ advanced db i actor s reason r))
unfolding transition_state
transition_state_cases o db i actor s reason = elim (Option-cases (find_run i db.runs)) [
  | inl e ↦ inl (ground arith)
  | inr (r, e) ↦ elim (Bool-cases (o.begins || o.selects)) [
    | inl down ↦ inl (ground arith)
    | inr up ↦ elim (advance_cases o db i actor s reason r) [
      | inl same ↦ inl (ground arith)
      | inr (live, allowed, moved) ↦ inr (r, e, live, allowed, ground arith)
    ]
  ]
]

pub created-count :
    (c : String) (db : Database) (req : CreateRunRequest) (i : String) (now : ℕ)
    → count_non_terminal_runs c (created db req i now).runs
      ≡ count_non_terminal_runs c db.runs + (if str_eq req.contestant_id c then 1 else 0)
unfolding count_non_terminal_runs created new_run not_in_query_list
created-count c db req i now = count-append _ db.runs (new_run req i now ∷ []) ∙ ground arith

-- What `CreateRun` commits after its check keeps the tables valid.
created-IsValid :
    (db : Database) (req : CreateRunRequest) (i : String) (now : ℕ)
    → find_run i db.runs ≡ none
    → count_non_terminal_runs req.contestant_id db.runs < max_concurrent_runs
    → IsValid db
    → IsValid (created db req i now)
unfolding created new_run
created-IsValid db req i now free room v = record {
  audited = created-IsAudited db req i now free v.audited;
  keyed = append-IsKeyed db.runs (new_run req i now) free v.keyed;
  limited =
      λ c. ground (arith, created-count c db req i now, v.limited c, eq_iff req.contestant_id c);
}

advanced-IsValid :
    (db : Database) (i actor : String) (s : RunStatus) (reason : String) (r : BenchmarkRun)
    → find_run i db.runs ≡ some r
    → is_terminal r.status ≡ false
    → allowed_transition r.status s ≡ true
    → IsValid db
    → IsValid (advanced db i actor s reason r)
unfolding advanced
advanced-IsValid db i actor s reason r found live allowed v = record {
  audited = advanced-IsAudited db i actor s reason r found allowed v.audited;
  keyed = update_status-IsKeyed s i db.runs v.keyed;
  limited = λ c. omega (arith, count-update_status c s i db.runs r v.keyed found live, v.limited c);
}

refuse_create_room :
    (o : Outage) (db : Database) (req : CreateRunRequest)
    → refuse_create o db req ≡ none
    → count_non_terminal_runs req.contestant_id db.runs < max_concurrent_runs
unfolding refuse_create
refuse_create_room o db req h = ground arith

create_run-IsValid :
    (o : Outage) (db : Database) (req : CreateRunRequest) (i : String) (now : ℕ)
    → IsValid db
    → IsValid (create_run o db req i now).0
unfolding create_run
create_run-IsValid o db req i now v = elim (Option-cases (refuse_create o db req)) [
  | inr (e, h) ↦ rw (h, create_run) v
  | inl h ↦
      rw (h, create_run)
        (elim (insert_run_cases o db req i now) [
          | inl same ↦ rw same v
          | inr (free, new) ↦
              rw new (created-IsValid db req i now free (refuse_create_room o db req h) v)
        ])
]

transition_state-IsValid :
    (o : Outage) (db : Database) (i actor : String) (s : RunStatus) (reason : String)
    → IsValid db
    → IsValid (transition_state o db i actor s reason).0
transition_state-IsValid o db i actor s reason v =
    elim (transition_state_cases o db i actor s reason) [
      | inl same ↦ rw same v
      | inr (r, found, live, allowed, moved) ↦
          rw moved (advanced-IsValid db i actor s reason r found live allowed v)
    ]

serve-IsValid : (db : Database) (q : Outage × Request) → IsValid db → IsValid (serve db q)
unfolding serve cancel_run
serve-IsValid db (o, creates req i now) v = create_run-IsValid o db req i now v
serve-IsValid db (o, transitions i actor s reason) v =
    transition_state-IsValid o db i actor s reason v
serve-IsValid db (o, cancels i) v =
    transition_state-IsValid o db i "operator" failed "cancelled by operator" v

-- Every history of requests served one by one, with any failures of the database, keeps the tables
-- valid: the audit rows of each id replay, by allowed steps, to the status in the table; no two rows
-- have one id; and no contestant has more than three runs that are not terminal.
pub serve_all-IsValid :
    (db : Database) (qs : List (Outage × Request)) → IsValid db → IsValid (serve_all db qs)
unfolding serve_all
serve_all-IsValid db [] v = v
serve_all-IsValid db (q ∷ qs) v = serve_all-IsValid (serve db q) qs (serve-IsValid db q v)
