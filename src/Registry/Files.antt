-- ===== src/Registry/Files.antt =====
-- The file system as a registry (client.go): what was pushed is there.
use iicpc.Prelude.{
  ℕ, ◌≡◌, sym, ◌∙◌, false, none, some, List, String, str_eq, eq_iff, eq_refl, Bool-cases, inl, inr,
  arith,
}
use iicpc.Artifact.{ArtifactType}
use iicpc.Registry.{
  Registry, stored, FileName, bytes_of, Files, FsAnswer, FsUri, write, same_name, fs_push_artifact,
  fs_push_image, reference,
}

abbrev pub FileHolds : Files → FsUri → List ℕ → Type 0
FileHolds fs uri bytes = fs uri.0 uri.1 ≡ some (bytes_of bytes)

-- No file is there yet.
abbrev pub HasNone : Files → String → Type 0
HasNone fs id = (n : FileName) → fs id n ≡ none

pub push-FileHolds :
    (a : FsAnswer) (id : String) (t : ArtifactType) (bytes : List ℕ) (fs : Files) (uri : FsUri)
    → (fs_push_artifact a id t bytes fs).1 ≡ stored uri
    → FileHolds (fs_push_artifact a id t bytes fs).0 uri bytes
unfolding fs_push_artifact write same_name
push-FileHolds a id t bytes fs uri h = ground (arith, eq_refl id)

push-elsewhere :
    (a : FsAnswer) (id : String) (t : ArtifactType) (bytes : List ℕ) (fs : Files) (uri : FsUri)
    → str_eq uri.0 id ≡ false
    → (fs_push_artifact a id t bytes fs).0 uri.0 uri.1 ≡ fs uri.0 uri.1
unfolding fs_push_artifact write
push-elsewhere a id t bytes fs uri h = ground (arith, h)

pub push-keeps_file :
    (a : FsAnswer) (id : String) (t : ArtifactType) (bytes old : List ℕ) (fs : Files) (uri : FsUri)
    → HasNone fs id
    → FileHolds fs uri old
    → FileHolds (fs_push_artifact a id t bytes fs).0 uri old
push-keeps_file a id t bytes old fs uri new h = elim (Bool-cases (str_eq uri.0 id)) [
  | inr other ↦ push-elsewhere a id t bytes fs uri other ∙ h
  | inl same ↦
      let e : fs id uri.1 ≡ some (bytes_of old) = rw (sym ((eq_iff uri.0 id).0 same)) h in
      ground (arith, e, new uri.1)
]

abbrev pub file_registry : Registry
file_registry = record {
  Store = Files;
  Uri = FsUri;
  Answer = FsAnswer;
  push = fs_push_artifact;
  Holds = FileHolds;
  IsNew = HasNone;
  push-Holds = push-FileHolds;
  push-keeps = push-keeps_file;
}

-- What was pushed is read back: after the artifact and then the image reference of a submission are
-- stored, the file of the first URI holds the bytes of the artifact and that of the second the
-- reference; a file of any other submission is as it was.
push-read :
    (a b : FsAnswer) (id image other : String) (t : ArtifactType) (bytes : List ℕ) (fs : Files)
    (uri image_uri : FsUri) (n : FileName)
    → let after = fs_push_artifact a id t bytes fs in
      let last = fs_push_image b id image after.0 in
      after.1 ≡ stored uri
      → last.1 ≡ stored image_uri
      → str_eq other id ≡ false
      → (last.0 uri.0 uri.1 ≡ some (bytes_of bytes))
        × (last.0 image_uri.0 image_uri.1 ≡ some (reference image))
        × (last.0 other n ≡ fs other n)
unfolding fs_push_artifact fs_push_image write same_name
push-read a b id image other t bytes fs uri image_uri n h k e =
    (ground (arith, eq_refl id, h, k), ground (arith, eq_refl id, k), ground (arith, e))
