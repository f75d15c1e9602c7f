-- ===== src/Image.antt =====
-- services/build-pipeline/internal/image/builder.go: the minimal image of a submission and the manifest
-- of its build. What buildah answers to a command, what the files hold, the digest and the clock are
-- parameters; `none` is a failure. A map is a function of its keys.
pub mod Copies
pub mod Libraries
pub mod References
use iicpc.Prelude.{
  ℕ, Bool, true, false, ◌||◌, Option, none, some, List, [], ◌∷◌, ◌++◌, any, ◌==◌, if◌then◌else◌,
}
use iicpc.Artifact.{Text, same_text}
use iicpc.Strings.{trim_space}
use iicpc.Contestants.{encode_to_string}
use iicpc.Publish.{app_path}

-- The commands of buildah, with their arguments.
pub data Command : Type 0 where
  from_scratch : Command
  copy : Text → Text → Text → Command
  config_cmd : Text → Command
  commit : Text → Text → Command

pub record World : Type 0 where
  pub buildah : Command → Option Text
  pub read_file : Text → Option (List ℕ)
  pub sha256 : List ℕ → List ℕ
  pub now : ℕ
  pub mkdir_fails : Bool
  pub write_fails : Bool

-- "/submissions/", ":latest", "/lib", "sha256:" and ".json".
abbrev pub submissions : Text
submissions = 47 ∷ 115 ∷ 117 ∷ 98 ∷ 109 ∷ 105 ∷ 115 ∷ 115 ∷ 105 ∷ 111 ∷ 110 ∷ 115 ∷ 47 ∷ []

abbrev pub latest : Text
latest = 58 ∷ 108 ∷ 97 ∷ 116 ∷ 101 ∷ 115 ∷ 116 ∷ []

abbrev pub lib_path : Text
lib_path = 47 ∷ 108 ∷ 105 ∷ 98 ∷ []

abbrev pub digest_prefix : Text
digest_prefix = 115 ∷ 104 ∷ 97 ∷ 50 ∷ 53 ∷ 54 ∷ 58 ∷ []

abbrev pub json : Text
json = 46 ∷ 106 ∷ 115 ∷ 111 ∷ 110 ∷ []

unfoldable pub latest_ref : Text → Text → Text
latest_ref registry id = registry ++ submissions ++ id ++ latest

-- `filepath.Base`.
unfoldable pub without_slashes : Text → Text
without_slashes [] = []
without_slashes (x ∷ xs) =
    let rest = without_slashes xs in
    if x == 47 then (if same_text rest [] then [] else x ∷ rest) else x ∷ rest

unfoldable pub last_element : Text → Text
last_element [] = []
last_element (x ∷ xs) =
    let rest = last_element xs in
    if any (λ c. c == 47) xs then rest else if x == 47 then xs else x ∷ xs

unfoldable pub base : Text → Text
unfolding without_slashes last_element
base [] = 46 ∷ []
base (x ∷ xs) =
    let name = last_element (without_slashes (x ∷ xs)) in
    if same_text name [] then 47 ∷ [] else name

-- `filepath.Join` of "/lib" with a base: ".", ".." and "/" are cleaned away.
unfoldable pub lib_dest : Text → Text
lib_dest name =
    if same_text name (46 ∷ []) || same_text name (47 ∷ [])
    then lib_path
    else if same_text name (46 ∷ 46 ∷ [])
    then 47 ∷ []
    else lib_path ++ 47 ∷ name

-- One command after the other, up to the first that fails.
unfoldable pub run_all : World → List Command → List Command × Bool
run_all w [] = ([], true)
run_all w (c ∷ cs) =
    let rest = run_all w cs in
    elim (w.buildah c) [ none ↦ (c ∷ [], false) | some out ↦ (c ∷ rest.0, rest.1) ]

abbrev pub lib_copies : Text → List Text → List Command
lib_copies container [] = []
lib_copies container (d ∷ ds) = copy container d (lib_dest (base d)) ∷ lib_copies container ds

-- The commands from the second step on.
unfoldable pub steps : Text → Text → List Text → Text → List Command
steps ref binary deps container =
    copy container binary app_path
    ∷ (lib_copies container deps ++ config_cmd container ∷ commit container ref ∷ [])

abbrev pub reference_if : Text → List Command × Bool → List Command × Option Text
reference_if ref (cs, true) = (from_scratch ∷ cs, some ref)
reference_if ref (cs, false) = (from_scratch ∷ cs, none)

-- `BuildMinimalImage`: the commands that are run, and the reference of the image.
unfoldable pub build_minimal_image :
    World → Text → Text → Text → List Text → List Command × Option Text
build_minimal_image w registry id binary deps = elim (w.buildah from_scratch) [
  | none ↦ (from_scratch ∷ [], none)
  | some out ↦
      reference_if (latest_ref registry id)
        (run_all w (steps (latest_ref registry id) binary deps (trim_space out)))
]

pub record BuildManifest : Type 0 where
  pub submission_id : Text
  pub toolchain : Text
  pub compiler_flags : List Text
  pub dependency_hashes : Text → Option Text
  pub build_timestamp : ℕ
  pub image_digest : Text

unfoldable pub hash_file : World → Text → Option Text
hash_file w p = elim (w.read_file p) [
  | none ↦ none
  | some bytes ↦ some (encode_to_string (w.sha256 bytes))
]

abbrev pub put : (Text → Option Text) → Text → Text → Text → Option Text
put m k v = λ (j : Text). if same_text k j then some v else m j

-- `hashFiles`, from the map that is filled so far.
unfoldable pub hash_files : World → List Text → (Text → Option Text) → Option (Text → Option Text)
unfolding hash_file
hash_files w [] m = some m
hash_files w (p ∷ ps) m = elim (hash_file w p) [
  | none ↦ none
  | some h ↦ hash_files w ps (put m (base p) (digest_prefix ++ h))
]

abbrev pub no_hashes : Text → Option Text
no_hashes name = none

-- `WriteManifest`: the path, in a directory whose path is clean, and the manifest that is written.
unfoldable pub write_manifest :
    World → Text → Text → Text → List Text → List Text → Text → Option (Text × BuildManifest)
write_manifest w dir id toolchain flags deps digest = elim (hash_files w deps no_hashes) [
  | none ↦ none
  | some hashes ↦
      if w.mkdir_fails || w.write_fails
      then none
      else some (
        dir ++ 47 ∷ (id ++ json),
        record {
          submission_id = id;
          toolchain = toolchain;
          compiler_flags = flags;
          dependency_hashes = hashes;
          build_timestamp = w.now;
          image_digest = digest;
        },
      )
]
