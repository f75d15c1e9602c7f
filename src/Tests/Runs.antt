-- ===== src/Tests/Runs.antt =====
-- Histories of benchmark runs (service.go).
use iicpc.Prelude.{◌≡◌, refl, true, false, some, List, [], ◌∷◌, ◌+◌, ◌≤◌, arith, length, map, ◌++◌}
use iicpc.Status.{is_terminal, queued, building, deploying, failed, running}
use iicpc.Benchmark.{
  BenchmarkRun, Database, Outage, CreateRunRequest, Request, creates, transitions, cancels,
  serve_all, find_run, allowed_transition, create_run, transition_state, count_non_terminal_runs,
  ok, err, resource_exhausted,
}
use iicpc.Benchmark.Machine.{Trail, here, then, remaining, Trail-le-remaining}
use iicpc.Benchmark.Audit.{replay, status_of}
use iicpc.Benchmark.History.{IsValid, serve_all-IsValid}
use iicpc.Benchmark.Outcomes.{IsUp, terminal_absorbs}
use iicpc.Benchmark.Race.{Call, checks, inserts, move_all, race-exceeds}

abbrev up : Outage
up = record {
  counts = false;
  begins = false;
  selects = false;
  updates = false;
  inserts_run = false;
  inserts_audit = false;
  commits = false;
}

abbrev commit_fails : Outage
commit_fails = record up { commits = true }

abbrev nothing : Database
nothing = record { runs = []; audit = [] }

nothing-IsValid : IsValid nothing
unfolding replay status_of find_run count_non_terminal_runs
nothing-IsValid = record { audited = λ i. refl; keyed = tt; limited = λ c. omega arith }

abbrev ask : CreateRunRequest
ask = record { contestant_id = "ann"; submission_id = "s"; bot_count = 0 }

abbrev history : List (Outage × Request)
history =
    (up, creates ask "a" 1)
    ∷ (up, creates ask "b" 2)
    ∷ (commit_fails, creates ask "c" 3)
    ∷ (up, creates ask "c" 4)
    ∷ (up, creates ask "d" 5)
    ∷ (up, transitions "a" "builder" building "")
    ∷ (up, transitions "a" "builder" running "")
    ∷ (up, cancels "a")
    ∷ (up, creates ask "d" 6)
    ∷ []

abbrev after_history : Database
after_history = serve_all nothing history

-- The fourth run is refused until one of the three is over.
four_ids : map (λ r. r.id) after_history.runs ≡ "a" ∷ "b" ∷ "c" ∷ "d" ∷ []
unfolding serve_all
four_ids = refl

refused :
    (create_run up
      (serve_all nothing (
        map
          (λ q. q)
          ((up, creates ask "a" 1) ∷ (up, creates ask "b" 2) ∷ (up, creates ask "c" 3) ∷ [])))
      ask
      "d"
      4).1
    ≡ err (resource_exhausted 3)
unfolding serve_all
refused = refl

serve_all-IsValid_example : IsValid after_history
serve_all-IsValid_example = serve_all-IsValid nothing history nothing-IsValid

up-IsUp : IsUp up
up-IsUp = record {
  begins = refl;
  selects = refl;
  updates = refl;
  inserts_audit = refl;
  commits = refl;
}

b_advances : (transition_state up after_history "b" "builder" building "").1 ≡ ok tt
unfolding serve_all
b_advances = refl

abbrev over : BenchmarkRun
over = record {
  id = "a";
  contestant_id = "ann";
  submission_id = "s";
  status = failed;
  bot_count = 1000;
  created_at = 1;
}

a_over : find_run "a" after_history.runs ≡ some over
unfolding serve_all
a_over = refl

failed_terminal : is_terminal failed ≡ true
unfolding is_terminal
failed_terminal = refl

terminal_absorbs_example : find_run "a" (serve_all after_history history).runs ≡ some over
terminal_absorbs_example = terminal_absorbs after_history history "a" over a_over failed_terminal

two_steps : Trail queued 2 deploying
unfolding allowed_transition
two_steps = then {s = queued} {t = building} refl (then {s = building} {t = deploying} refl here)

Trail-le-remaining_example : 2 + remaining deploying ≤ remaining queued
Trail-le-remaining_example = Trail-le-remaining two_steps

abbrev four_calls : List Call
four_calls = (ask, "a", 1) ∷ (ask, "b", 2) ∷ (ask, "c", 3) ∷ (ask, "d", 4) ∷ []

race-exceeds_example :
    count_non_terminal_runs "ann"
      (move_all
        (record { db = nothing; pending = [] })
        (map (checks up) four_calls ++ map (λ q. inserts up) four_calls)).db.runs
    ≡ count_non_terminal_runs "ann" nothing.runs + length four_calls
unfolding count_non_terminal_runs find_run
race-exceeds_example =
    race-exceeds up nothing "ann" four_calls up-IsUp refl refl (omega arith)
      (refl, (refl, (refl, (refl, tt))))
      (
        refl,
        (refl, (refl, (refl, tt))),
        (refl, (refl, (refl, tt)), (refl, (refl, tt), (refl, tt, tt))),
      )
