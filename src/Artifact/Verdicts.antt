-- ===== src/Artifact/Verdicts.antt =====
-- The verdict of artifact.go on every stream.
use iicpc.Prelude.{
  ℕ, zero, suc, ap, ◌+◌, ◌≤◌, ◌<◌, ◌≡◌, ◌↔◌, refl, Bool, true, false, not, ◌&&◌, ◌||◌, none, some,
  List, [], ◌∷◌, arith, leb, if◌then◌else◌, length, take, Bool-cases, inl, inr, ◌⊎◌, length-take,
}
use iicpc.Artifact.{
  Text, max_artifact_bytes, ArtifactType, elf, archive, Error, too_large, bad_format, bad_checksum,
  read_failed, ok, err, Stream, Libraries, is_elf, is_tar_gz, is_zip, has_root_manifest,
  read_limited, verify_checksum, detect_bytes, detect_format, validate_artifact,
}

module _ {ℓ} {A : Type ℓ} where
  take-all : (n : ℕ) (xs : List A) → length xs ≤ n → take n xs ≡ xs
  take-all zero [] h = refl
  take-all zero (x ∷ xs) h = absurd (omega arith)
  take-all (suc n) [] h = refl
  take-all (suc n) (x ∷ xs) h = ap (λ ys. x ∷ ys) (take-all n xs (omega (arith, h)))

-- At most one of the three magics is there, so the order of the switch has no say.
magic_cases :
    (payload : List ℕ)
    → ((is_elf payload ≡ false) ⊎ (is_tar_gz payload ≡ false))
      × ((is_elf payload ≡ false) ⊎ (is_zip payload ≡ false))
      × ((is_tar_gz payload ≡ false) ⊎ (is_zip payload ≡ false))
unfolding is_elf is_tar_gz is_zip
magic_cases [] = (inl refl, inl refl, inl refl)
magic_cases (a ∷ []) = (inl refl, inl refl, inl refl)
magic_cases (a ∷ b ∷ []) = (inl refl, inl refl, inr refl)
magic_cases (a ∷ b ∷ c ∷ []) = (inl refl, inl refl, inr refl)
magic_cases (a ∷ b ∷ c ∷ d ∷ rest) = (ground arith, ground arith, ground arith)

read_limited_cases :
    (r : Stream)
    → ((length r.bytes ≤ max_artifact_bytes) × (r.fails ≡ true) × (read_limited r ≡ none))
      ⊎ ((length r.bytes ≤ max_artifact_bytes)
          × (r.fails ≡ false)
          × (read_limited r ≡ some r.bytes))
      ⊎ ((max_artifact_bytes < length r.bytes)
          × (read_limited r ≡ some (take (max_artifact_bytes + 1) r.bytes))
          × (length (take (max_artifact_bytes + 1) r.bytes) ≡ max_artifact_bytes + 1))
unfolding read_limited
read_limited_cases r = elim (Bool-cases (leb (length r.bytes) max_artifact_bytes)) [
  | inr long ↦ inr (
      inr (
        ground arith,
        rw long (ground arith),
        length-take (max_artifact_bytes + 1) r.bytes (ground arith),
      ))
  | inl short ↦ elim (Bool-cases r.fails) [
    | inl broken ↦ inl (ground arith, broken, rw (short, broken) refl)
    | inr whole ↦ inr (
        inl (
          ground arith,
          whole,
          rw whole (ap some (take-all (max_artifact_bytes + 1) r.bytes (ground arith))),
        ))
  ]
]

module _ (lib : Libraries) where
  open lib use {tar_entries, zip_entries}

  -- The bytes are in a format that is accepted, as a type of artifact.
  abbrev pub has_format : ArtifactType → List ℕ → Bool
  has_format elf payload = leb 4 (length payload) && is_elf payload
  has_format archive payload =
      leb 4 (length payload)
      && (is_tar_gz payload && has_root_manifest (tar_entries payload)
          || is_zip payload && has_root_manifest (zip_entries payload))

  detected :
      (payload : List ℕ) (t : ArtifactType)
      → length payload ≤ max_artifact_bytes
      → (detect_bytes lib payload ≡ ok t) ↔ (has_format t payload ≡ true)
  unfolding detect_bytes
  detected payload elf h = ground (arith, magic_cases payload)
  detected payload archive h = ground (arith, magic_cases payload)

  undetected :
      (payload : List ℕ)
      → length payload ≤ max_artifact_bytes
      → (detect_bytes lib payload ≡ err bad_format)
        ⊎ ((t : ArtifactType) × (detect_bytes lib payload ≡ ok t))
  unfolding detect_bytes
  undetected payload h = ground (arith)

  detect_long :
      (payload : List ℕ)
      → max_artifact_bytes < length payload
      → detect_bytes lib payload ≡ err too_large
  unfolding detect_bytes
  detect_long payload h = ground arith

  -- `ValidateArtifact` after the bytes are read.
  read_error :
      (r : Stream) (expected : Text)
      → read_limited r ≡ none
      → validate_artifact lib r expected ≡ err read_failed
  unfolding validate_artifact detect_format
  read_error r expected h = ground (arith, h)

  detect_error :
      (r : Stream) (expected : Text) (payload : List ℕ) (x : Error)
      → read_limited r ≡ some payload
      → detect_bytes lib payload ≡ err x
      → validate_artifact lib r expected ≡ err x
  unfolding validate_artifact detect_format
  detect_error r expected payload x h d = ground (arith, h, d)

  checked :
      (r : Stream) (expected : Text) (payload : List ℕ) (t : ArtifactType)
      → read_limited r ≡ some payload
      → detect_bytes lib payload ≡ ok t
      → validate_artifact lib r expected ≡ (
          if verify_checksum lib payload expected
          then ok (t, length payload, payload)
          else err bad_checksum)
  unfolding validate_artifact detect_format
  checked r expected payload t h d = ground (arith, h, d)

  -- A stream that is read whole and not too long.
  abbrev pub is_whole : Stream → Bool
  is_whole r = not r.fails && leb (length r.bytes) max_artifact_bytes

  -- What `ValidateArtifact` returns, on every stream. A stream longer than 500 MB gives ErrTooLarge,
  -- whatever it holds and whether or not it fails later; one that fails within the limit gives the
  -- read error. A stream read whole gives ErrBadFormat if its bytes are in no accepted format (ELF,
  -- gzip or zip with a root manifest, 4 bytes at least); else ErrBadChecksum if the digest is not
  -- the expected one; else the type, for which alone the format holds, with the size and the bytes
  -- of the whole stream, nothing cut off.
  pub validate_artifact-verdict :
      (r : Stream) (expected : Text)
      → ((max_artifact_bytes < length r.bytes) × (validate_artifact lib r expected ≡ err too_large))
        ⊎ ((length r.bytes ≤ max_artifact_bytes)
            × (r.fails ≡ true)
            × (validate_artifact lib r expected ≡ err read_failed))
        ⊎ ((is_whole r ≡ true)
            × ((t : ArtifactType) → has_format t r.bytes ≡ false)
            × (validate_artifact lib r expected ≡ err bad_format))
        ⊎ ((t : ArtifactType) × (is_whole r ≡ true)
            × ((u : ArtifactType) → (has_format u r.bytes ≡ true) ↔ (u ≡ t))
            × (((verify_checksum lib r.bytes expected ≡ false)
                  × (validate_artifact lib r expected ≡ err bad_checksum))
                ⊎ ((verify_checksum lib r.bytes expected ≡ true)
                    × (validate_artifact lib r expected ≡ ok (t, length r.bytes, r.bytes)))))
  validate_artifact-verdict r expected = elim (read_limited_cases r) [
    | inl (short, broken, e) ↦ inr (inl (short, broken, read_error r expected e))
    | inr (inr (long, e, n)) ↦
        inl (long, detect_error r expected _ too_large e (detect_long _ (rw n (omega arith))))
    | inr (inl (short, whole, e)) ↦ elim (undetected r.bytes short) [
      | inl bad ↦ inr (
          inr (
            inl (
              ground arith,
              (λ t. ground (arith, detected r.bytes t short)),
              detect_error r expected r.bytes bad_format e bad,
            )))
      | inr (t, good) ↦ inr (
          inr (
            inr (
              t,
              ground arith,
              (λ u. ground (arith, detected r.bytes t short, detected r.bytes u short)),
              elim (Bool-cases (verify_checksum lib r.bytes expected)) [
                | inl same ↦ inr (same, rw (checked r expected r.bytes t e good, same) refl)
                | inr other ↦ inl (other, rw (checked r expected r.bytes t e good, other) refl)
              ],
            )))
    ]
  ]
