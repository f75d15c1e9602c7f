-- ===== src/Benchmark/Limit.antt =====
-- The limit on the runs of a contestant in service.go: rows have different ids, and the count of
-- non-terminal runs never grows by a transition.
use iicpc.Prelude.{
  ◌≤◌, ◌≡◌, refl, false, not, none, some, List, [], ◌∷◌, ◌++◌, String, eq_iff, arith,
}
use iicpc.Status.{RunStatus, is_terminal}
use iicpc.Benchmark.{
  BenchmarkRun, find_run, update_status, not_in_query_list, count_non_terminal_runs,
}
use iicpc.Benchmark.Rows.{find_run-append, find_run-update_status}

-- The primary key: no two rows have one id.
abbrev pub IsKeyed : List BenchmarkRun → Type 0
IsKeyed [] = Unit {0}
IsKeyed (r ∷ rs) = (find_run r.id rs ≡ none) × IsKeyed rs

not_in_query_list-eq-not_terminal : (s : RunStatus) → not_in_query_list s ≡ not (is_terminal s)
unfolding not_in_query_list is_terminal
not_in_query_list-eq-not_terminal s = ground arith

update_status_free :
    (s : RunStatus) (i : String) (rs : List BenchmarkRun)
    → find_run i rs ≡ none
    → update_status s i rs ≡ rs
unfolding find_run update_status
update_status_free s i [] h = refl
update_status_free s i (r ∷ rs) h = ground (arith, update_status_free s i rs)

pub update_status-IsKeyed :
    (s : RunStatus) (i : String) (rs : List BenchmarkRun)
    → IsKeyed rs
    → IsKeyed (update_status s i rs)
unfolding update_status
update_status-IsKeyed s i [] k = tt
update_status-IsKeyed s i (r ∷ rs) k =
    ground (arith, find_run-update_status s i r.id rs, update_status-IsKeyed s i rs k.1)

pub append-IsKeyed :
    (rs : List BenchmarkRun) (r : BenchmarkRun)
    → find_run r.id rs ≡ none
    → IsKeyed rs
    → IsKeyed (rs ++ r ∷ [])
unfolding find_run
append-IsKeyed [] r free k = (refl, tt)
append-IsKeyed (x ∷ rs) r free k =
    ground
      (arith, eq_iff x.id r.id, eq_iff r.id x.id, find_run-append x.id rs r, append-IsKeyed rs r)

-- A transition of a run that is not terminal adds none to the count.
pub count-update_status :
    (c : String) (s : RunStatus) (i : String) (rs : List BenchmarkRun) (r : BenchmarkRun)
    → IsKeyed rs
    → find_run i rs ≡ some r
    → is_terminal r.status ≡ false
    → count_non_terminal_runs c (update_status s i rs) ≤ count_non_terminal_runs c rs
unfolding count_non_terminal_runs update_status find_run
count-update_status c s i [] r k h live = cc
count-update_status c s i (x ∷ rs) r k h live = ground (
  arith,
  eq_iff x.id i,
  update_status_free s i rs,
  count-update_status c s i rs r k.1,
  not_in_query_list-eq-not_terminal x.status,
)
