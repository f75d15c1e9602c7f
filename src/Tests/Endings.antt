-- ===== src/Tests/Endings.antt =====
-- A sandbox at its time limit, a build job, a publication, two orders and a score (lifetime.go,
-- job_watcher.go, image.go, rest/generator.go, scorer.go).
use iicpc.Prelude.{ℕ, ◌≡◌, arith, refl, true, false, Option, none, some, List, [], ◌∷◌}
use iicpc.Artifact.{Text}
use iicpc.BuildQueue.{build_publish_failed, build_timeout}
use iicpc.Sandbox.{SandboxStatus, running}
use iicpc.Lifetime.{Answers}
use iicpc.JobWatch.{
  Turn, other, job, timer, failed, watch_build_job, has_failed, evaluate_job_status,
  evaluate_conditions,
}
use iicpc.Publish.{Command, push, World, publish_failed, publish, run_all, steps}
use iicpc.Prelude.Decimal.{decimal}
use iicpc.Rest.{RestGenerator, place_order}
use iicpc.Rest as Rest
use iicpc.Status.{complete}
use iicpc.Score.{one, terminal_statuses, compute_composite_score_for_run}
use iicpc.Score.Ranks.{Ranked, compute_composite_score_for_run-Ranked}

-- The collection takes 61 seconds, and the stop and the release fail.
abbrev slow : Answers
slow = record {
  cancelled_at = some 9000;
  takes_cancel = true;
  has_collection = true;
  collection_takes = some 61;
  stop_fails = true;
  release_fails = true;
  update_fails = true;
}

abbrev status : SandboxStatus
status = record {
  phase = running;
  internal_ip = "10.0.0.1";
  endpoints = [];
  termination_reason = "";
  exit_code = 0;
}

-- The push is refused.
abbrev refused : Command → Option Text
refused (push ref) = none
refused _ = some (32 ∷ 99 ∷ 10 ∷ [])

abbrev registry : World
registry = record { buildah = refused; update_fails = false }

push_fails :
    (publish registry (114 ∷ []) (115 ∷ []) (98 ∷ []) ((108 ∷ []) ∷ [])).1
    ≡ publish_failed build_publish_failed false
unfolding publish run_all steps
push_fails = refl

abbrev job_turns : List Turn
job_turns =
    other
    ∷ job (record { active = 0; conditions = [] })
    ∷ job (record {
      active = 0;
      conditions = record { kind = failed; status = "True"; reason = "DeadlineExceeded" } ∷ [];
    })
    ∷ timer
    ∷ []

times_out_late : watch_build_job job_turns ≡ some (has_failed build_timeout, false)
unfolding watch_build_job evaluate_job_status evaluate_conditions
times_out_late = refl

abbrev generator : RestGenerator
generator = record { benchmark_run_id = 114 ∷ []; bot_id = 45 ∷ 49 ∷ []; seq_num = 6 }

abbrev moment : Rest.World
moment = record { now = 5; random = [] }

-- "r--1-7".
seventh :
    (place_order moment "BUY" "LIMIT" 1 3 generator).1.cl_ord_id ≡ 114 ∷ 45 ∷ 45 ∷ 49 ∷ 45 ∷ 55 ∷ []
unfolding place_order Rest.cl_ord_id Rest.next_seq_num decimal
seventh = refl

-- The best run beside one of 50 ms and half a million messages.
abbrev best : ℕ
best = compute_composite_score_for_run complete 1_000_000 1_000_000 one

compute_composite_score_for_run-Ranked_example :
    Ranked
      (terminal_statuses complete)
      (compute_composite_score_for_run complete 50_000_000 500_000 9)
      best
      1_000_000
      1_000_000
      one
compute_composite_score_for_run-Ranked_example =
    compute_composite_score_for_run-Ranked complete 50_000_000 1_000_000 500_000 1_000_000 9 one
      (omega arith) (omega arith) (omega arith) (omega arith)
