-- ===== src/Build/Outcome.antt =====
-- What a build job reports, on every branch of executor.go.
use iicpc.Prelude.{
  ◌≡◌, refl, Bool, true, false, ◌||◌, Option, none, some, List, [], ◌∷◌, ◌++◌, ◌∙◌, map, String,
  arith, ◌==◌, if◌then◌else◌, Option-cases, Bool-cases, ◌⊎◌, ap, inl, inr,
}
use iicpc.Artifact.{Text}
use iicpc.Build.{
  makefile, cargo_toml, go_mod, unknown_manifest, makefile_name, cargo_toml_name, go_mod_name,
  has_file, detect_manifest, BuildCommand, build_command_for, Exit, exits, cannot_start, Process,
  RunResult, run_build, SubmissionStatus, built, build_failed, build_timeout, World, Effect,
  updates_status, after_publish, runs, list_files, fail, publish, conclude, prepend,
  no_manifest_log, execute,
}

-- The statuses that are set, and the commands that are run, in their order.
unfoldable pub statuses : List Effect → List SubmissionStatus
statuses [] = []
statuses (updates_status s ∷ es) = s ∷ statuses es
statuses (e ∷ es) = statuses es

unfoldable pub runs_of : List Effect → List BuildCommand
runs_of [] = []
runs_of (runs c ∷ es) = c ∷ runs_of es
runs_of (e ∷ es) = runs_of es

abbrev pub has_manifest : List Text → Bool
has_manifest files =
    has_file cargo_toml_name files || has_file go_mod_name files || has_file makefile_name files

-- The statuses of a job whose command ended well: first those that the publisher sets itself.
abbrev pub published : World → List SubmissionStatus
published w = elim w.publishes [
  | none ↦ built ∷ []
  | some p ↦ elim p.digest [ none ↦ p.sets | some d ↦ p.sets ++ built ∷ [] ]
]

-- The end of a process, as a status; `none` if it ended well.
abbrev pub failure : Process → Option SubmissionStatus
failure p = if p.deadline_exceeded then some build_timeout else elim p.exit [
  | exits code ↦ if code == 0 then none else some build_failed
  | cannot_start e ↦ some build_failed
]

-- The statuses of a build that was run.
abbrev pub verdict : World → Process → List SubmissionStatus
verdict w p = elim (failure p) [ some s ↦ s ∷ [] | none ↦ published w ]

detected :
    (files : List Text) → has_manifest files ≡ false → detect_manifest files ≡ unknown_manifest
unfolding detect_manifest
detected files h = ground (arith, h)

known :
    (files : List Text)
    → has_manifest files ≡ true
    → (detect_manifest files ≡ cargo_toml)
      ⊎ (detect_manifest files ≡ go_mod)
      ⊎ (detect_manifest files ≡ makefile)
unfolding detect_manifest
known files h = ground (arith, h)

statuses-calls :
    (ss : List SubmissionStatus) (es : List Effect)
    → statuses (map updates_status ss ++ es) ≡ ss ++ statuses es
unfolding statuses
statuses-calls [] es = refl
statuses-calls (s ∷ ss) es = ap (λ xs. s ∷ xs) (statuses-calls ss es)

runs_of-calls :
    (ss : List SubmissionStatus) (es : List Effect)
    → runs_of (map updates_status ss ++ es) ≡ runs_of es
unfolding runs_of
runs_of-calls [] es = refl
runs_of-calls (s ∷ ss) es = runs_of-calls ss es

digest_quiet :
    (w : World) (d : String)
    → (statuses (after_publish w d) ≡ built ∷ []) × (runs_of (after_publish w d) ≡ [])
unfolding statuses runs_of
digest_quiet w d = elim (Bool-cases w.has_digest_storer) [
  | inl e ↦ rw e (refl, refl)
  | inr e ↦ rw e (refl, refl)
]

publish_lem : (w : World) → (statuses (publish w).0 ≡ published w) × (runs_of (publish w).0 ≡ [])
unfolding publish statuses runs_of
publish_lem w = elim (Option-cases w.publishes) [
  | inl e ↦ rw (e, publish) (refl, refl)
  | inr (p, e) ↦ elim (Option-cases p.digest) [
    | inl n ↦ rw (e, n, publish) (alone p.sets)
    | inr (d, n) ↦
        rw (e, n, publish)
          (
            statuses-calls p.sets (after_publish w d)
                ∙ ap (λ xs. p.sets ++ xs) (digest_quiet w d).0,
            runs_of-calls p.sets (after_publish w d) ∙ (digest_quiet w d).1,
          )
  ]
]
  where
    alone :
        (ss : List SubmissionStatus)
        → (statuses (map updates_status ss) ≡ ss) × (runs_of (map updates_status ss) ≡ [])
    alone [] = (refl, refl)
    alone (s ∷ ss) = (ap (λ xs. s ∷ xs) (alone ss).0, (alone ss).1)

fail-statuses : (w : World) (log : Text) (s : SubmissionStatus) → statuses (fail w log s).0 ≡ s ∷ []
unfolding fail statuses
fail-statuses w log s = ground arith

conclude-statuses :
    (w : World) (r : RunResult)
    → statuses (conclude w r).0 ≡ (
        if r.timed_out
        then build_timeout ∷ []
        else if r.exit_code == 0
        then published w
        else build_failed ∷ [])
unfolding conclude
conclude-statuses w r =
    ground (
      arith,
      publish_lem w,
      fail-statuses w r.log build_timeout,
      fail-statuses w r.log build_failed,
    )

run_build-in_time :
    (p : Process)
    → p.deadline_exceeded ≡ false
    → ((run_build p).timed_out ≡ false)
      × (((run_build p).exit_code == 0)
          ≡ elim p.exit [ exits code ↦ code == 0 | cannot_start e ↦ false ])
unfolding run_build
run_build-in_time p h = by_exit p.exit refl
  where
    by_exit :
        (x : Exit)
        → p.exit ≡ x
        → ((run_build p).timed_out ≡ false)
          × (((run_build p).exit_code == 0)
              ≡ elim p.exit [ exits code ↦ code == 0 | cannot_start e ↦ false ])
    by_exit (exits code) e = rw (h, e, run_build) (refl, refl)
    by_exit (cannot_start text) e = rw (h, e, run_build) (refl, refl)

run_build-late : (p : Process) → p.deadline_exceeded ≡ true → (run_build p).timed_out ≡ true
unfolding run_build
run_build-late p h = rw (h, run_build) refl

verdict-statuses : (w : World) (p : Process) → statuses (conclude w (run_build p)).0 ≡ verdict w p
verdict-statuses w p = elim (Bool-cases p.deadline_exceeded) [
  | inl late ↦ ground (arith, late, conclude-statuses w (run_build p), run_build-late p late)
  | inr in_time ↦
      ground (arith, in_time, conclude-statuses w (run_build p), run_build-in_time p in_time)
]

quiet : (w : World) (r : RunResult) → runs_of (conclude w r).0 ≡ []
unfolding conclude fail runs_of
quiet w r = ground (arith, publish_lem w)

fail-quiet : (w : World) (log : Text) (s : SubmissionStatus) → runs_of (fail w log s).0 ≡ []
unfolding fail runs_of
fail-quiet w log s = ground arith

with_command :
    (w : World) (cmd : BuildCommand)
    → let o = prepend (runs cmd) (conclude w (run_build (w.process cmd))) in
      (runs_of o.0 ≡ cmd ∷ []) × (statuses o.0 ≡ verdict w (w.process cmd))
unfolding runs_of statuses
with_command w cmd =
    (ap (λ cs. cmd ∷ cs) (quiet w (run_build (w.process cmd))), verdict-statuses w (w.process cmd))

no_files : (w : World) → w.files ≡ none → execute w ≡ ([], some list_files)
unfolding execute
no_files w e = rw (e, execute) refl

without :
    (w : World) (files : List Text)
    → w.files ≡ some files
    → has_manifest files ≡ false
    → (statuses (execute w).0 ≡ build_failed ∷ []) × (runs_of (execute w).0 ≡ [])
unfolding execute
without w files e h =
    rw (e, detected files h, execute)
      (fail-statuses w no_manifest_log build_failed, fail-quiet w no_manifest_log build_failed)

abbrev make : BuildCommand
make = record { binary = "make"; args = []; env = [] }

abbrev cargo : BuildCommand
cargo = record {
  binary = "cargo";
  args = "build" ∷ "--release" ∷ [];
  env = "RUSTUP_TOOLCHAIN=1.77" ∷ [];
}

abbrev go : BuildCommand
go = record { binary = "go"; args = "build" ∷ "./..." ∷ []; env = "GOVERSION=1.22" ∷ [] }

with_manifest :
    (w : World) (files : List Text)
    → w.files ≡ some files
    → has_manifest files ≡ true
    → (cmd : BuildCommand) × (runs_of (execute w).0 ≡ cmd ∷ [])
      × (statuses (execute w).0 ≡ verdict w (w.process cmd))
unfolding execute build_command_for
with_manifest w files e h = elim (known files h) [
  | inl c ↦ (
    cargo,
    rw (e, c, execute) (with_command w cargo).0,
    rw (e, c, execute) (with_command w cargo).1,
  )
  | inr (inl g) ↦
      (go, rw (e, g, execute) (with_command w go).0, rw (e, g, execute) (with_command w go).1)
  | inr (inr m) ↦
      (make, rw (e, m, execute) (with_command w make).0, rw (e, m, execute) (with_command w make).1)
]

-- The statuses that a build job sets, in their order. Without a list of the files it sets none and
-- returns that error. Without a manifest among the files it sets BUILD_FAILED and runs nothing. With
-- one, it runs one command, and sets BUILD_TIMEOUT if the deadline passed, else BUILD_FAILED if the
-- command did not end with 0. If it ended with 0, then without a publisher BUILT is set; with one, first
-- what the publisher sets itself, and then, exactly if the publisher returned a digest, BUILT.
pub execute-verdict :
    (w : World)
    → ((w.files ≡ none) × (execute w ≡ ([], some list_files)))
      ⊎ ((files : List Text) × (w.files ≡ some files)
          × (((has_manifest files ≡ false)
                × (statuses (execute w).0 ≡ build_failed ∷ [])
                × (runs_of (execute w).0 ≡ []))
              ⊎ ((has_manifest files ≡ true)
                  × ((cmd : BuildCommand) × (runs_of (execute w).0 ≡ cmd ∷ [])
                      × (statuses (execute w).0 ≡ verdict w (w.process cmd))))))
execute-verdict w = elim (Option-cases w.files) [
  | inl e ↦ inl (e, no_files w e)
  | inr (files, e) ↦ elim (Bool-cases (has_manifest files)) [
    | inr no_m ↦ inr (files, e, inl (no_m, (without w files e no_m).0, (without w files e no_m).1))
    | inl m ↦ inr (files, e, inr (m, with_manifest w files e m))
  ]
]
