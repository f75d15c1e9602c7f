-- ===== src/Tests/Jobs.antt =====
-- What `ldd` prints of an executable, and a queue of two submissions (enumerator.go, watcher.go).
use iicpc.Prelude.Sorting.{by_key}
use iicpc.Prelude.{
  ◌+◌, ◌-◌, replicate, arith, ◌≤◌, ◌≡◌, refl, true, false, some, List, [], ◌∷◌, All, count,
}
use iicpc.Artifact.{same_text}
use iicpc.Strings.{trim_space, trim_left, trim_right, cut, strip_prefix, split}
use iicpc.Deps.{
  Commands, makefile, enumerate_deps, run_ldd, parse_ldd_output, parse_lines, parse_line, path_of,
}
use iicpc.Deps.Libraries.{
  Line, linked, missing, pathless, plain, print, IsPrintable, all_given, enumerate_deps-print,
}
use iicpc.BuildQueue.Drains.{rounds, rounds-drain}
use iicpc.BuildQueue.{
  Queue, waits, Row, Outage, Action, ticks, turns, inserts, settles, uploaded, built, act_all,
}
use iicpc.BuildQueue.Counts.{is_for, waits_with, is_pending}
use iicpc.BuildQueue.Once.{empty_queue, act_all-job_once}

-- "a.so => /a (0x1)", "c.so => /c (2) (0x3)", "b.so => not found", "v =>  (0x2)" and "static".
abbrev lines : List Line
lines =
    linked (97 ∷ 46 ∷ 115 ∷ 111 ∷ []) (47 ∷ 97 ∷ []) (48 ∷ 120 ∷ 49 ∷ [])
    ∷ linked (99 ∷ 46 ∷ 115 ∷ 111 ∷ []) (47 ∷ 99 ∷ 32 ∷ 40 ∷ 50 ∷ 41 ∷ []) (48 ∷ 120 ∷ 51 ∷ [])
    ∷ missing (98 ∷ 46 ∷ 115 ∷ 111 ∷ [])
    ∷ pathless (118 ∷ []) (48 ∷ 120 ∷ 50 ∷ [])
    ∷ plain (115 ∷ 116 ∷ 97 ∷ 116 ∷ 105 ∷ 99 ∷ [])
    ∷ []

abbrev commands : Commands
commands = record { ldd = λ binary. some (print lines); go_tool_nm = λ binary. true }

lines-IsPrintable : All IsPrintable lines
unfolding trim_right same_text
lines-IsPrintable = (
  (refl, refl, refl),
  ((refl, refl, refl), ((refl, refl), ((refl, refl, refl), ((refl, refl), tt)))),
)

enumerate_deps-print_example : enumerate_deps commands [] makefile ≡ some (all_given lines)
enumerate_deps-print_example =
    enumerate_deps-print commands [] makefile lines refl refl lines-IsPrintable

-- The path of the first, that of the second without " (2)", and the address of the fourth.
finds_three :
    enumerate_deps commands [] makefile
    ≡ some ((47 ∷ 97 ∷ []) ∷ (47 ∷ 99 ∷ []) ∷ (40 ∷ 48 ∷ 120 ∷ 50 ∷ 41 ∷ []) ∷ [])
unfolding enumerate_deps run_ldd parse_ldd_output parse_lines parse_line path_of trim_space
    trim_left trim_right cut strip_prefix split same_text
finds_three = refl

abbrev no_outage : Outage
no_outage = record { mark_fails = false; create_fails = false; report_fails = false }

abbrev late : Row
late = record { id = 98 ∷ []; artifact_uri = some []; status = uploaded; created_at = 2 }

abbrev early : Row
early = record { id = 97 ∷ []; artifact_uri = some []; status = uploaded; created_at = 1 }

-- Two uploads and two polls; the mark of the first submission fails once.
abbrev actions : List Action
actions =
    inserts late
    ∷ inserts early
    ∷ ticks false
    ∷ turns (record no_outage { mark_fails = true })
    ∷ turns no_outage
    ∷ ticks false
    ∷ turns no_outage
    ∷ settles (98 ∷ []) built
    ∷ ticks false
    ∷ []

act_all-job_once_example :
    let q = act_all (by_key (λ (r : Row). r.created_at)) actions empty_queue in
    (count (is_for (97 ∷ [])) q.jobs + count (waits_with (97 ∷ [])) q.rows ≤ 1)
    × (count (is_for (97 ∷ [])) q.jobs + count (is_pending (97 ∷ [])) q.pending ≤ 1)
act_all-job_once_example =
    act_all-job_once (by_key (λ (r : Row). r.created_at)) actions (97 ∷ [])
      (tt, (tt, (tt, (tt, (tt, (tt, (tt, (refl, (tt, tt)))))))))

abbrev both_waiting : Queue
both_waiting = record { rows = late ∷ early ∷ []; jobs = []; pending = [] }

rounds-drain_example :
    let q' =
      act_all
        (by_key (λ (r : Row). r.created_at))
        (rounds (replicate 10 no_outage ∷ []))
        both_waiting in
    (count waits q'.rows ≤ 2 - 10) × (q'.pending ≡ [])
rounds-drain_example =
    rounds-drain (by_key (λ (r : Row). r.created_at)) (replicate 10 no_outage ∷ []) both_waiting
      ((omega arith, refl), tt) refl refl
