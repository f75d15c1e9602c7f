-- ===== src/Image/Libraries.antt =====
-- That the image and the manifest agree on the libraries (builder.go).
use mathlib.Core.Option.{some_inj}
use iicpc.Prelude.{
  ◌≡◌, refl, ap, sym, ◌∙◌, Bool, true, false, not, ◌||◌, ◌&&◌, Option, none, some, List, [], ◌∷◌,
  ◌++◌, all, arith, Option-cases, inl, inr, if◌then◌else◌,
}
use iicpc.Artifact.{Text, same_text}
use iicpc.Strings.{trim_space}
use iicpc.Image.{
  Command, from_scratch, World, digest_prefix, latest_ref, base, lib_dest, run_all, steps,
  reference_if, build_minimal_image, BuildManifest, hash_file, put, hash_files, no_hashes,
  write_manifest,
}
use iicpc.Image.Copies.{
  copied_to, copied_to-steps, is_plain, last_named, later, later_identity, run_all-whole,
}

-- What the hash of a library says of a file.
abbrev pub digest_of : World → Option Text → Option Text
digest_of w none = none
digest_of w (some p) = elim (hash_file w p) [ none ↦ none | some h ↦ some (digest_prefix ++ h) ]

abbrev or_held : Option Text → Option Text → World → Option Text
or_held none held w = held
or_held (some p) held w = digest_of w (some p)

held_later :
    (w : World) (p x : Text) (l held : Option Text) (same : Bool)
    → hash_file w p ≡ some x
    → or_held l (if same then some (digest_prefix ++ x) else held) w
      ≡ or_held (later (if same then some p else none) l) held w
held_later w p x (some d) held same e = refl
held_later w p x none held true e =
    sym (ap (λ (o : Option Text). elim o [ none ↦ none | some h ↦ some (digest_prefix ++ h) ]) e)
held_later w p x none held false e = refl

-- The hashes of files, put into a map: a name keeps what it had if no file has it.
hash_files-last :
    (w : World) (ps : List Text) (m hashes : Text → Option Text) (n : Text)
    → hash_files w ps m ≡ some hashes
    → hashes n ≡ or_held (last_named n ps) (m n) w
unfolding hash_files
hash_files-last w [] m hashes n h = ap (λ (f : Text → Option Text). f n) (sym (some_inj.0 h))
hash_files-last w (p ∷ ps) m hashes n h = elim (Option-cases (hash_file w p)) [
  | inl e ↦ absurd (ground (arith, rw (e, hash_files) at h))
  | inr (x, e) ↦
      hash_files-last w ps (put m (base p) (digest_prefix ++ x)) hashes n (rw (e, hash_files) at h)
      ∙ held_later w p x (last_named n ps) (m n) (same_text (base p) n) e
]

abbrev pub is_some {ℓ} : {A : Type ℓ} → Option A → Bool
is_some none = false
is_some (some a) = true

abbrev pub is_readable : World → Text → Bool
is_readable w p = is_some (w.read_file p)

hash_files-total :
    (w : World) (ps : List Text) (m : Text → Option Text)
    → is_some (hash_files w ps m) ≡ all (is_readable w) ps
unfolding hash_files hash_file
hash_files-total w [] m = refl
hash_files-total w (p ∷ ps) m = elim (Option-cases (w.read_file p)) [
  | inl e ↦ rw (e, hash_files, is_some) refl
  | inr (bytes, e) ↦ rw (e, hash_files) (hash_files-total w ps _)
]

abbrev pub hashes_of : Option (Text × BuildManifest) → Text → Option Text
hashes_of none n = none
hashes_of (some r) n = r.1.dependency_hashes n

reference_whole :
    (ref : Text) (cs : List Command) (o : List Command × Bool)
    → (o.1 ≡ true → o.0 ≡ cs)
    → is_some (reference_if ref o).1 ≡ true
    → ((reference_if ref o).0 ≡ from_scratch ∷ cs) × ((reference_if ref o).1 ≡ some ref)
reference_whole ref cs (ds, true) h made = (ap (λ es. from_scratch ∷ es) (h refl), refl)
reference_whole ref cs (ds, false) h made = absurd (ground (arith, made))

-- Where the libraries of an image that is made stand.
image_libraries :
    (w : World) (registry id binary n : Text) (deps : List Text)
    → is_plain n ≡ true
    → is_some (build_minimal_image w registry id binary deps).1 ≡ true
    → ((build_minimal_image w registry id binary deps).1 ≡ some (latest_ref registry id))
      × (copied_to (lib_dest n) (build_minimal_image w registry id binary deps).0
          ≡ last_named n deps)
unfolding build_minimal_image
image_libraries w registry id binary n deps h made = elim (Option-cases (w.buildah from_scratch)) [
  | inl e ↦ absurd (ground (arith, rw (e, build_minimal_image) at made))
  | inr (out, e) ↦
      let cs = steps (latest_ref registry id) binary deps (trim_space out) in
      let (ran, named) =
        reference_whole (latest_ref registry id) cs (run_all w cs) (run_all-whole w cs)
          (rw (e, build_minimal_image) at made) in
      rw (e, build_minimal_image)
        (
          named,
          ap (copied_to (lib_dest n)) ran
              ∙ later_identity (copied_to (lib_dest n) cs)
              ∙ copied_to-steps (latest_ref registry id) binary (trim_space out) n deps h,
        )
]

held_none : (w : World) (l : Option Text) → or_held l none w ≡ digest_of w l
held_none w none = refl
held_none w (some p) = refl

both : (a b : Bool) → (a && not b) ≡ true → (a ≡ true) × (b ≡ false)
both a b h = (ground (arith, h), ground (arith, h))

-- A manifest is written if every library can be read and the file be written, and its hash of a name is
-- that of the library of this base.
manifest_hashes :
    (w : World) (dir id toolchain digest n : Text) (flags deps : List Text)
    → (all (is_readable w) deps && not (w.mkdir_fails || w.write_fails)) ≡ true
    → (is_some (write_manifest w dir id toolchain flags deps digest) ≡ true)
      × (hashes_of (write_manifest w dir id toolchain flags deps digest) n
          ≡ digest_of w (last_named n deps))
unfolding write_manifest
manifest_hashes w dir id toolchain digest n flags deps h =
    let (readable, writable) = both (all (is_readable w) deps) (w.mkdir_fails || w.write_fails) h in
    elim (Option-cases (hash_files w deps no_hashes)) [
      | inl e ↦ absurd (
          ground (
            arith,
            ap (λ (o : Option (Text → Option Text)). is_some o) (sym e)
                ∙ hash_files-total w deps no_hashes
                ∙ readable,
          ))
      | inr (hashes, e) ↦
          rw (e, write_manifest, writable)
            (refl, hash_files-last w deps no_hashes hashes n e ∙ held_none w (last_named n deps))
    ]

-- Let the image of a submission be made, and let every library be readable and no write fail. Then the
-- image has the reference "<registry>/submissions/<id>:latest", the manifest is written, and for every
-- name but ".", "/" and ".." its hash of the name is that of the file that was copied to /lib/<name>
-- last, and there is none if no file was; also if several libraries have the name.
pub write_manifest-image :
    (w : World) (registry id binary dir toolchain digest n : Text) (flags deps : List Text)
    → is_plain n ≡ true
    → is_some (build_minimal_image w registry id binary deps).1 ≡ true
    → (all (is_readable w) deps && not (w.mkdir_fails || w.write_fails)) ≡ true
    → let (commands, ref) = build_minimal_image w registry id binary deps in
      let written = write_manifest w dir id toolchain flags deps digest in
      (ref ≡ some (latest_ref registry id))
      × (is_some written ≡ true)
      × (hashes_of written n ≡ digest_of w (copied_to (lib_dest n) commands))
write_manifest-image w registry id binary dir toolchain digest n flags deps plain made h =
    let (named, stands) = image_libraries w registry id binary n deps plain made in
    let (written, hashed) = manifest_hashes w dir id toolchain digest n flags deps h in
    (named, written, hashed ∙ ap (digest_of w) (sym stands))
