-- ===== src/Registry.antt =====
-- services/submission-engine/internal/registry/client.go: where uploaded artifacts are kept. What a
-- registry promises to its client is an interface; the file system fills it. A file below the base
-- directory is named by the submission's directory, which is a UUID and so one piece of a path, and
-- by its own name. The registry behind HTTP is other software: of it the answers are classified.
pub mod Files
use iicpc.Prelude.{
  ℕ, ◌≡◌, Bool, true, false, ◌&&◌, ◌||◌, Option, none, some, List, String, str_eq, leb, ltb,
  if◌then◌else◌, take,
}
use iicpc.Artifact.{ArtifactType}

-- What a push returns: the URI; ErrRegistryUnavailable; or another error.
pub data Pushed {ℓ} (A : Type ℓ) : Type ℓ where
  stored : A → Pushed A
  unavailable push_error : Pushed A

-- A registry as its client sees it: a blob that was pushed is held under the URI that the push
-- returned, and a push under a new identifier leaves what is held alone.
pub record Registry : Type 1 where
  pub Store : Type 0
  pub Uri : Type 0
  pub Answer : Type 0
  pub push : Answer → String → ArtifactType → List ℕ → Store → Store × Pushed Uri
  pub Holds : Store → Uri → List ℕ → Type 0
  pub IsNew : Store → String → Type 0
  pub push-Holds :
      (a : Answer) (id : String) (t : ArtifactType) (bytes : List ℕ) (s : Store) (uri : Uri)
      → (push a id t bytes s).1 ≡ stored uri
      → Holds (push a id t bytes s).0 uri bytes
  pub push-keeps :
      (a : Answer) (id : String) (t : ArtifactType) (bytes old : List ℕ) (s : Store) (uri : Uri)
      → IsNew s id
      → Holds s uri old
      → Holds (push a id t bytes s).0 uri old

-- An answer over HTTP: `none` if there is none, by a refusal, a timeout or a failing look-up of the
-- name; otherwise a status code.
unfoldable pub classify {ℓ} : {A : Type ℓ} → A → Option ℕ → Pushed A
classify uri none = unavailable
classify uri (some code) =
    if leb 500 code
    then unavailable
    else if ltb code 200 || leb 300 code
    then push_error
    else stored uri

-- `PushArtifact` and `PushOCIImage` of the HTTP client: a request that cannot be built is an error,
-- and nothing is sent.
unfoldable pub http_push {ℓ} : {A : Type ℓ} → Bool → Option ℕ → A → Pushed A
unfolding classify
http_push buildable answer uri = if buildable then classify uri answer else push_error

pub data FileName : Type 0 where
  blob artifact_type image_ref : FileName

unfoldable pub same_name : FileName → FileName → Bool
same_name blob blob = true
same_name artifact_type artifact_type = true
same_name image_ref image_ref = true
same_name _ _ = false

-- The contents of a file are the bytes of an artifact, the type of one, or a reference.
pub data Contents : Type 0 where
  bytes_of : List ℕ → Contents
  type_of : ArtifactType → Contents
  reference : String → Contents

abbrev pub Files : Type 0
Files = String → FileName → Option Contents

unfoldable pub write : String → FileName → Contents → Files → Files
unfolding same_name
write id n c fs i m = if str_eq i id && same_name m n then some c else fs i m

-- What the file system answers: whether MkdirAll and Create fail, how many bytes were written before
-- a copy failed, and whether writing the small file fails, then with what it leaves behind.
pub record FsAnswer : Type 0 where
  pub mkdir_fails : Bool
  pub create_fails : Bool
  pub copy_fails : Option ℕ
  pub write_fails : Bool

abbrev pub FsUri : Type 0
FsUri = String × FileName

-- `PushArtifact` of the file system. That the type of the artifact cannot be written is ignored.
unfoldable pub fs_push_artifact :
    FsAnswer → String → ArtifactType → List ℕ → Files → Files × Pushed FsUri
unfolding write
fs_push_artifact a id t bytes fs =
    if a.mkdir_fails || a.create_fails then (fs, unavailable) else elim a.copy_fails [
      | some n ↦ (write id blob (bytes_of (take n bytes)) fs, unavailable)
      | none ↦ (
        let kept = write id blob (bytes_of bytes) fs in
            if a.write_fails then kept else write id artifact_type (type_of t) kept,
        stored (id, blob),
      )
    ]

-- `PushOCIImage` of the file system.
unfoldable pub fs_push_image : FsAnswer → String → String → Files → Files × Pushed FsUri
unfolding write
fs_push_image a id image fs =
    if a.mkdir_fails || a.write_fails
    then (fs, unavailable)
    else (write id image_ref (reference image) fs, stored (id, image_ref))
