-- ===== src/Benchmark/Rows.antt =====
-- The rows of `benchmark_runs`: what a lookup by id sees after an insertion and after an update.
use iicpc.Prelude.{
  ◌≡◌, refl, none, some, List, [], ◌∷◌, ◌++◌, String, str_eq, eq_iff, arith, if◌then◌else◌,
}
use iicpc.Status.{RunStatus}
use iicpc.Benchmark.{BenchmarkRun, find_run, update_status}

pub find_run-append :
    (i : String) (rs : List BenchmarkRun) (r : BenchmarkRun)
    → find_run i (rs ++ r ∷ [])
      ≡ elim (find_run i rs) [ some x ↦ some x | none ↦ if str_eq r.id i then some r else none ]
unfolding find_run
find_run-append i [] r = refl
find_run-append i (x ∷ rs) r = ground (arith, find_run-append i rs r)

pub find_run-update_status :
    (s : RunStatus) (i j : String) (rs : List BenchmarkRun)
    → find_run j (update_status s i rs) ≡ elim (find_run j rs) [
      | none ↦ none
      | some r ↦ some (if str_eq i j then record r { status = s } else r)
    ]
unfolding find_run update_status
find_run-update_status s i j [] = refl
find_run-update_status s i j (r ∷ rs) =
    ground (arith, eq_iff i j, eq_iff r.id i, eq_iff r.id j, find_run-update_status s i j rs)
