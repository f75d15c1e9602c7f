-- ===== src/Build.antt =====
-- services/build-pipeline/internal/executor: manifest.go, toolchain.go, log_truncator.go, runner.go and
-- executor.go, one build of a submission. What the shell command, the publisher, the database and the
-- file system answer is a record; the result of a build is its list of calls. Texts are lists of bytes.
pub mod Logs
pub mod Outcome
use iicpc.Prelude.Decimal.{decimal}
use iicpc.Prelude.{
  ℕ, zero, suc, ◌+◌, ◌-◌, ◌/◌, ◌%◌, Bool, true, false, not, ◌&&◌, ◌||◌, Option, none, some, List,
  [], ◌∷◌, ◌++◌, String, leb, ltb, ◌==◌, if◌then◌else◌, length, take, drop, any, map,
}
use iicpc.Artifact.{Text, same_text, is_separator}

pub data ManifestType : Type 0 where
  makefile cargo_toml go_mod unknown_manifest : ManifestType

-- The bytes of the three names.
abbrev pub makefile_name : Text
makefile_name = 77 ∷ 97 ∷ 107 ∷ 101 ∷ 102 ∷ 105 ∷ 108 ∷ 101 ∷ []

abbrev pub cargo_toml_name : Text
cargo_toml_name = 67 ∷ 97 ∷ 114 ∷ 103 ∷ 111 ∷ 46 ∷ 116 ∷ 111 ∷ 109 ∷ 108 ∷ []

abbrev pub go_mod_name : Text
go_mod_name = 103 ∷ 111 ∷ 46 ∷ 109 ∷ 111 ∷ 100 ∷ []

abbrev pub has_file : Text → List Text → Bool
has_file name files = any (λ f. not (any is_separator f) && same_text f name) files

unfoldable pub detect_manifest : List Text → ManifestType
unfolding same_text
detect_manifest files =
    if has_file cargo_toml_name files
    then cargo_toml
    else if has_file go_mod_name files
    then go_mod
    else if has_file makefile_name files
    then makefile
    else unknown_manifest

pub record BuildCommand : Type 0 where
  pub binary : String
  pub args : List String
  pub env : List String

unfoldable pub build_command_for : ManifestType → Option BuildCommand
build_command_for makefile = some (record { binary = "make"; args = []; env = [] })
build_command_for cargo_toml = some (record {
  binary = "cargo";
  args = "build" ∷ "--release" ∷ [];
  env = "RUSTUP_TOOLCHAIN=1.77" ∷ [];
})
build_command_for go_mod =
    some (record { binary = "go"; args = "build" ∷ "./..." ∷ []; env = "GOVERSION=1.22" ∷ [] })
build_command_for unknown_manifest = none

abbrev pub max_log_bytes : ℕ
max_log_bytes = 10_485_760

-- "\n... [truncated " and " bytes from middle] ...\n".
abbrev sentinel_start : Text
sentinel_start =
    10 ∷ 46 ∷ 46 ∷ 46 ∷ 32 ∷ 91 ∷ 116 ∷ 114 ∷ 117 ∷ 110 ∷ 99 ∷ 97 ∷ 116 ∷ 101 ∷ 100 ∷ 32 ∷ []

abbrev sentinel_end : Text
sentinel_end =
    32 ∷ 98 ∷ 121 ∷ 116 ∷ 101 ∷ 115 ∷ 32 ∷ 102 ∷ 114 ∷ 111 ∷ 109 ∷ 32 ∷ 109 ∷ 105 ∷ 100 ∷ 100 ∷ 108
    ∷ 101 ∷ 93 ∷ 32 ∷ 46 ∷ 46 ∷ 46 ∷ 10 ∷ []

unfoldable pub sentinel : ℕ → Text
unfolding decimal
sentinel removed = sentinel_start ++ decimal removed ++ sentinel_end

unfoldable pub truncate_middle : Text → Text
unfolding sentinel
truncate_middle log =
    let half = max_log_bytes / 2 in
    let removed = length log - max_log_bytes in
    if leb (length log) max_log_bytes
    then log
    else take half log ++ sentinel removed ++ drop (length log - half) log

-- How the command ends: `starts` is the text of the error of a command that could not be started.
pub data Exit : Type 0 where
  exits : ℕ → Exit
  cannot_start : Text → Exit

-- A process that is killed has the exit code -1 in the source; here that is a code that is not 0.
pub record Process : Type 0 where
  pub output : Text
  pub exit : Exit
  pub deadline_exceeded : Bool

pub record RunResult : Type 0 where
  pub log : Text
  pub exit_code : ℕ
  pub timed_out : Bool

unfoldable pub run_build : Process → RunResult
unfolding truncate_middle
run_build p =
    if p.deadline_exceeded
    then record { log = truncate_middle p.output; exit_code = 1; timed_out = true }
    else elim p.exit [
      | exits code ↦ record { log = truncate_middle p.output; exit_code = code; timed_out = false }
      | cannot_start e ↦ record {
        log = truncate_middle (p.output ++ 10 ∷ e);
        exit_code = 1;
        timed_out = false;
      }
    ]

-- The statuses that a build job and its publisher set.
pub data SubmissionStatus : Type 0 where
  built build_failed build_timeout build_publish_failed : SubmissionStatus

-- What a publisher does in its call: the statuses that it sets itself, and the digest that it returns,
-- `none` for an error. Its contract lets it set a status on failure and on success.
pub record Publication : Type 0 where
  pub sets : List SubmissionStatus
  pub digest : Option String

-- `publishes` is none without a publisher.
pub record World : Type 0 where
  pub files : Option (List Text)
  pub process : BuildCommand → Process
  pub publishes : Option Publication
  pub has_log_storer : Bool
  pub has_digest_storer : Bool
  pub update_fails : Bool

pub data Effect : Type 0 where
  stores_log : Text → Effect
  stores_digest : String → Effect
  updates_status : SubmissionStatus → Effect
  runs : BuildCommand → Effect
  calls_publisher : Effect

pub data Error : Type 0 where
  list_files no_command update_status : Error

abbrev pub Report : Type 0
Report = List Effect × Option Error

abbrev pub update_error : World → Option Error
update_error w = if w.update_fails then some update_status else none

-- `fail`; an error of the log's store is only logged.
unfoldable pub fail : World → Text → SubmissionStatus → Report
fail w log s = (
  (if w.has_log_storer then stores_log log ∷ [] else []) ++ updates_status s ∷ [],
  update_error w,
)

abbrev pub set_built : World → Report
set_built w = (updates_status built ∷ [], update_error w)

-- The call of the publisher.
abbrev pub calls : Publication → List Effect
calls p = calls_publisher ∷ map updates_status p.sets

-- The digest is stored, and the status set.
abbrev pub after_publish : World → String → List Effect
after_publish w digest =
    (if w.has_digest_storer then stores_digest digest ∷ [] else []) ++ (set_built w).0

-- `Execute`, after a build that succeeded.
unfoldable pub publish : World → Report
publish w = elim w.publishes [
  | none ↦ set_built w
  | some p ↦ elim p.digest [
    | none ↦ (calls p, none)
    | some digest ↦ (calls p ++ after_publish w digest, update_error w)
  ]
]

-- `Execute`, from the result of the build on.
unfoldable pub conclude : World → RunResult → Report
unfolding fail publish
conclude w r =
    if r.timed_out
    then fail w r.log build_timeout
    else if not (r.exit_code == 0)
    then fail w r.log build_failed
    else publish w

-- "error: no recognised build manifest (Makefile, Cargo.toml, or go.mod) found at the archive root\n".
abbrev pub no_manifest_log : Text
no_manifest_log =
    101 ∷ 114 ∷ 114 ∷ 111 ∷ 114 ∷ 58 ∷ 32 ∷ 110 ∷ 111 ∷ 32 ∷ 114 ∷ 101 ∷ 99 ∷ 111 ∷ 103 ∷ 110 ∷ 105
    ∷ 115 ∷ 101 ∷ 100 ∷ 32 ∷ 98 ∷ 117 ∷ 105 ∷ 108 ∷ 100 ∷ 32 ∷ 109 ∷ 97 ∷ 110 ∷ 105 ∷ 102 ∷ 101
    ∷ 115 ∷ 116 ∷ 32 ∷ 40 ∷ 77 ∷ 97 ∷ 107 ∷ 101 ∷ 102 ∷ 105 ∷ 108 ∷ 101 ∷ 44 ∷ 32 ∷ 67 ∷ 97 ∷ 114
    ∷ 103 ∷ 111 ∷ 46 ∷ 116 ∷ 111 ∷ 109 ∷ 108 ∷ 44 ∷ 32 ∷ 111 ∷ 114 ∷ 32 ∷ 103 ∷ 111 ∷ 46 ∷ 109 ∷ 111
    ∷ 100 ∷ 41 ∷ 32 ∷ 102 ∷ 111 ∷ 117 ∷ 110 ∷ 100 ∷ 32 ∷ 97 ∷ 116 ∷ 32 ∷ 116 ∷ 104 ∷ 101 ∷ 32 ∷ 97
    ∷ 114 ∷ 99 ∷ 104 ∷ 105 ∷ 118 ∷ 101 ∷ 32 ∷ 114 ∷ 111 ∷ 111 ∷ 116 ∷ 10 ∷ []

abbrev pub prepend : Effect → Report → Report
prepend e (es, x) = (e ∷ es, x)

unfoldable pub execute : World → Report
unfolding detect_manifest build_command_for run_build conclude
execute w = elim w.files [
  | none ↦ ([], some list_files)
  | some files ↦ elim (detect_manifest files) [
    | unknown_manifest ↦ fail w no_manifest_log build_failed
    | m ↦ elim (build_command_for m) [
      | none ↦ ([], some no_command)
      | some cmd ↦ prepend (runs cmd) (conclude w (run_build (w.process cmd)))
    ]
  ]
]
