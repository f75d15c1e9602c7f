-- ===== src/Tests/Builds.antt =====
-- Builds of submissions and their logs (executor.go, log_truncator.go).
use iicpc.Prelude.Decimal.{decimal}
use iicpc.Prelude.{
  ℕ, ◌≡◌, refl, ◌≤◌, ◌<◌, ◌+◌, ◌⊎◌, true, false, none, some, List, [], ◌∷◌, ◌++◌, length, replicate,
}
use iicpc.Artifact.{Text}
use iicpc.Build.{
  max_log_bytes, sentinel, truncate_middle, go_mod_name, makefile_name, BuildCommand, Process,
  exits, World, built, build_failed, build_publish_failed, list_files, execute,
}
use iicpc.Build.Logs.{truncate_middle-keeps}
use iicpc.Build.Outcome.{statuses, runs_of, has_manifest, verdict, execute-verdict}

-- "1048577" in decimal digits.
some_digits : decimal 1_048_577 ≡ 49 ∷ 48 ∷ 52 ∷ 56 ∷ 53 ∷ 55 ∷ 55 ∷ []
unfolding decimal
some_digits = refl

-- One byte more than a log may have.
long_log : Text
long_log = replicate 10_485_761 65

truncate_middle-keeps_example :
    ((length long_log ≤ max_log_bytes) × (truncate_middle long_log ≡ long_log))
    ⊎ ((max_log_bytes < length long_log)
        × ((head : Text) × (tail : Text) × (removed : ℕ) × (truncate_middle long_log
              ≡ head ++ sentinel removed ++ tail)
            × ((rest : Text) × (long_log ≡ head ++ rest))
            × ((front : Text) × (long_log ≡ front ++ tail))
            × (length head ≡ 5_242_880)
            × (length tail ≡ 5_242_880)
            × (length long_log ≡ length head + removed + length tail)
            × (max_log_bytes < length (truncate_middle long_log))))
truncate_middle-keeps_example = truncate_middle-keeps long_log

abbrev process : Process
process = record { output = 111 ∷ 107 ∷ []; exit = exits 0; deadline_exceeded = false }

abbrev world : World
world = record {
  files = some (makefile_name ∷ go_mod_name ∷ []);
  process = λ cmd. process;
  publishes = some (record { sets = built ∷ []; digest = some "sha256:0" });
  has_log_storer = true;
  has_digest_storer = true;
  update_fails = false;
}

-- The publisher sets BUILT, and then the job does.
world_built : statuses (execute world).0 ≡ built ∷ built ∷ []
unfolding execute statuses
world_built = refl

-- A publisher that fails has set the last status.
world_unpublished :
    statuses
      (execute (record world {
        publishes = some (record { sets = build_publish_failed ∷ []; digest = none });
      })).0
    ≡ build_publish_failed ∷ []
unfolding execute statuses
world_unpublished = refl

execute-verdict_example :
    ((world.files ≡ none) × (execute world ≡ ([], some list_files)))
    ⊎ ((files : List Text) × (world.files ≡ some files)
        × (((has_manifest files ≡ false)
              × (statuses (execute world).0 ≡ build_failed ∷ [])
              × (runs_of (execute world).0 ≡ []))
            ⊎ ((has_manifest files ≡ true)
                × ((cmd : BuildCommand) × (runs_of (execute world).0 ≡ cmd ∷ [])
                    × (statuses (execute world).0 ≡ verdict world (world.process cmd))))))
execute-verdict_example = execute-verdict world
