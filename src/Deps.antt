-- ===== src/Deps.antt =====
-- services/build-pipeline/internal/deps/enumerator.go: which libraries an executable needs, from what
-- `ldd` prints. What the two commands answer is a parameter, `none` where one fails.
pub mod Libraries
use mathlib.Core.Option.{map as map_option}
use iicpc.Prelude.{ℕ, Bool, ◌||◌, Option, none, some, List, [], ◌∷◌, if◌then◌else◌}
use iicpc.Artifact.{Text, same_text}
use iicpc.Strings.{trim_space, cut, split}

-- "=>", " (" and "not found".
abbrev pub arrow : Text
arrow = 61 ∷ 62 ∷ []

abbrev pub paren : Text
paren = 32 ∷ 40 ∷ []

abbrev pub not_found : Text
not_found = 110 ∷ 111 ∷ 116 ∷ 32 ∷ 102 ∷ 111 ∷ 117 ∷ 110 ∷ 100 ∷ []

-- A path without the address behind it.
abbrev pub without_address : Text → Option (Text × Text) → Text
without_address after none = after
without_address after (some (before, address)) = trim_space before

abbrev pub resolved : Text → Option Text
resolved path = if same_text path [] || same_text path not_found then none else some path

-- What follows the arrow, up to the address.
unfoldable pub path_of : Text → Option Text
path_of rest = let after = trim_space rest in resolved (without_address after (cut paren after))

abbrev pub after_name : Option (Text × Text) → Option Text
after_name none = none
after_name (some (name, rest)) = path_of rest

-- One turn of the loop of `parseLddOutput`.
unfoldable pub parse_line : Text → Option Text
parse_line raw =
    let line = trim_space raw in if same_text line [] then none else after_name (cut arrow line)

abbrev pub append_some {ℓ} : {A : Type ℓ} → Option A → List A → List A
append_some none xs = xs
append_some (some x) xs = x ∷ xs

unfoldable pub parse_lines : List Text → List Text
parse_lines [] = []
parse_lines (line ∷ lines) = append_some (parse_line line) (parse_lines lines)

-- `parseLddOutput`.
unfoldable pub parse_ldd_output : Text → List Text
parse_ldd_output output = parse_lines (split 10 output)

pub data Toolchain : Type 0 where
  makefile cargo_toml go_mod unsupported : Toolchain

-- What the commands print for an executable; `go tool nm` only succeeds or fails.
pub record Commands : Type 0 where
  pub ldd : Text → Option Text
  pub go_tool_nm : Text → Bool

-- `runLdd`.
unfoldable pub run_ldd : Commands → Text → Option (List Text)
run_ldd run binary = map_option parse_ldd_output (run.ldd binary)

-- `EnumerateDeps`; `none` is an error.
unfoldable pub enumerate_deps : Commands → Text → Toolchain → Option (List Text)
enumerate_deps run binary go_mod = if run.go_tool_nm binary then some [] else none
enumerate_deps run binary makefile = run_ldd run binary
enumerate_deps run binary cargo_toml = run_ldd run binary
enumerate_deps run binary unsupported = none
