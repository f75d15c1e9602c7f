-- ===== src/Artifact.antt =====
-- services/submission-engine/internal/validator/artifact.go: which uploads are accepted. Bytes are
-- numbers, a text is the list of its bytes, and a stream is what its reader would deliver, then its
-- end or an error. SHA-256 and the readers of the two archive formats are parameters.
pub mod Manifests
pub mod Texts
pub mod Verdicts
use iicpc.Prelude.{
  ℕ, ◌+◌, Bool, true, false, not, ◌&&◌, ◌||◌, Option, none, some, List, [], ◌∷◌, map, leb, ltb,
  ◌==◌, if◌then◌else◌, length, take, any,
}

abbrev pub Text : Type 0
Text = List ℕ

unfoldable pub same_text : Text → Text → Bool
same_text [] [] = true
same_text (a ∷ xs) (b ∷ ys) = a == b && same_text xs ys
same_text _ _ = false

abbrev pub max_artifact_bytes : ℕ
max_artifact_bytes = 524_288_000

pub data ArtifactType : Type 0 where
  elf archive : ArtifactType

pub data Error : Type 0 where
  too_large bad_format bad_checksum read_failed : Error

pub data Result {ℓ} (A : Type ℓ) : Type ℓ where
  ok : A → Result A
  err : Error → Result A

-- Makefile, Cargo.toml and go.mod.
abbrev pub root_manifests : List Text
root_manifests =
    (77 ∷ 97 ∷ 107 ∷ 101 ∷ 102 ∷ 105 ∷ 108 ∷ 101 ∷ [])
    ∷ (67 ∷ 97 ∷ 114 ∷ 103 ∷ 111 ∷ 46 ∷ 116 ∷ 111 ∷ 109 ∷ 108 ∷ [])
    ∷ (103 ∷ 111 ∷ 46 ∷ 109 ∷ 111 ∷ 100 ∷ [])
    ∷ []

abbrev pub is_separator : ℕ → Bool
is_separator b = b == 47 || b == 92

abbrev pub is_dot : Text → Bool
is_dot c = same_text c (46 ∷ [])

abbrev pub is_dot_dot : Text → Bool
is_dot_dot c = same_text c (46 ∷ 46 ∷ [])

abbrev pub onto_first : ℕ → List Text → List Text
onto_first b [] = (b ∷ []) ∷ []
onto_first b (c ∷ cs) = (b ∷ c) ∷ cs

-- The pieces of a path between its separators, backslashes included.
unfoldable pub components : Text → List Text
components [] = [] ∷ []
components (b ∷ bs) =
    let rest = components bs in if is_separator b then [] ∷ rest else onto_first b rest

-- `path.Clean`, with the pieces that stand so far in reverse: a ".." takes one away; without one to
-- take it stays, except at the root.
unfoldable pub clean_step : Bool → List Text → Text → List Text
clean_step rooted [] c =
    if same_text c [] || is_dot c then [] else if is_dot_dot c && rooted then [] else c ∷ []
clean_step rooted (p ∷ ps) c =
    if same_text c [] || is_dot c
    then p ∷ ps
    else if is_dot_dot c && not (is_dot_dot p)
    then ps
    else c ∷ p ∷ ps

unfoldable pub clean : Bool → List Text → List Text → List Text
unfolding clean_step
clean rooted stack [] = stack
clean rooted stack (c ∷ cs) = clean rooted (clean_step rooted stack c) cs

abbrev pub is_rooted : Text → Bool
is_rooted [] = false
is_rooted (b ∷ bs) = is_separator b

-- `isRootManifest`, with the last piece in front.
unfoldable pub is_root_manifest : Text → Bool
unfolding clean components
is_root_manifest path = elim (clean (is_rooted path) [] (components path)) [
  | [] ↦ false
  | base ∷ above ↦ any (same_text base) root_manifests && leb (length (base ∷ above)) 2
]

unfoldable pub is_elf : List ℕ → Bool
is_elf (a ∷ b ∷ c ∷ d ∷ rest) = a == 127 && b == 69 && c == 76 && d == 70
is_elf _ = false

unfoldable pub is_tar_gz : List ℕ → Bool
is_tar_gz (a ∷ b ∷ rest) = a == 31 && b == 139
is_tar_gz _ = false

unfoldable pub is_zip : List ℕ → Bool
is_zip (a ∷ b ∷ c ∷ d ∷ rest) = a == 80 && b == 75 && c == 3 && d == 4
is_zip _ = false

-- An entry of an archive.
pub record Entry : Type 0 where
  pub is_directory : Bool
  pub name : Text

pub record Stream : Type 0 where
  pub bytes : List ℕ
  pub fails : Bool

-- The libraries: the hexadecimal SHA-256, and the entries up to the end or the first error, or `none`
-- where the archive cannot be opened.
pub record Libraries : Type 0 where
  pub sha256_hex : List ℕ → Text
  pub tar_entries : List ℕ → Option (List Entry)
  pub zip_entries : List ℕ → Option (List Entry)

unfoldable pub has_root_manifest : Option (List Entry) → Bool
unfolding is_root_manifest
has_root_manifest none = false
has_root_manifest (some es) = any (λ e. not e.is_directory && is_root_manifest e.name) es

-- `io.ReadAll` of the stream cut off after one byte more than the limit; an error that comes later
-- is not seen.
unfoldable pub read_limited : Stream → Option (List ℕ)
read_limited r =
    if r.fails && leb (length r.bytes) max_artifact_bytes
    then none
    else some (take (max_artifact_bytes + 1) r.bytes)

abbrev pub lower_byte : ℕ → ℕ
lower_byte b = if leb 65 b && leb b 90 then b + 32 else b

-- `strings.EqualFold`, against a text of digits and letters.
unfoldable pub equal_fold : Text → Text → Bool
unfolding same_text
equal_fold a b = same_text (map lower_byte a) (map lower_byte b)

module _ (lib : Libraries) where
  open lib use {sha256_hex, tar_entries, zip_entries}

  -- The switch of `DetectFormat`.
  unfoldable pub detect_bytes : List ℕ → Result ArtifactType
  unfolding has_root_manifest is_elf is_tar_gz is_zip
  detect_bytes payload =
      if ltb max_artifact_bytes (length payload)
      then err too_large
      else if ltb (length payload) 4
      then err bad_format
      else if is_elf payload
      then ok elf
      else if is_tar_gz payload
      then (if has_root_manifest (tar_entries payload) then ok archive else err bad_format)
      else if is_zip payload
      then (if has_root_manifest (zip_entries payload) then ok archive else err bad_format)
      else err bad_format

  unfoldable pub detect_format : Stream → Result (ArtifactType × List ℕ)
  unfolding detect_bytes read_limited
  detect_format r = elim (read_limited r) [
    | none ↦ err read_failed
    | some payload ↦ elim (detect_bytes payload) [ err e ↦ err e | ok t ↦ ok (t, payload) ]
  ]

  unfoldable pub verify_checksum : List ℕ → Text → Bool
  unfolding equal_fold
  verify_checksum payload expected =
      length expected == 64 && equal_fold (sha256_hex payload) expected

  -- The type, the size, and the bytes.
  unfoldable pub validate_artifact : Stream → Text → Result (ArtifactType × ℕ × List ℕ)
  unfolding detect_format verify_checksum
  validate_artifact r expected = elim (detect_format r) [
    | err e ↦ err e
    | ok (t, payload) ↦
        if verify_checksum payload expected
        then ok (t, length payload, payload)
        else err bad_checksum
  ]
