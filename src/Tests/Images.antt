-- ===== src/Tests/Images.antt =====
-- An image with two libraries of one name, and its manifest (image/builder.go).
use iicpc.Prelude.{◌≡◌, refl, true, false, some, List, [], ◌∷◌, ◌++◌}
use iicpc.Artifact.{Text, same_text}
use iicpc.Contestants.{encode_to_string}
use iicpc.Image.{
  World, digest_prefix, latest_ref, base, without_slashes, last_element, lib_dest, run_all, steps,
  build_minimal_image, hash_file, hash_files, write_manifest,
}
use iicpc.Image.Copies.{copied_to}
use iicpc.Image.Libraries.{is_some, hashes_of, digest_of, write_manifest-image}

-- "/a/x" and "/b/x".
abbrev libraries : List Text
libraries = (47 ∷ 97 ∷ 47 ∷ 120 ∷ []) ∷ (47 ∷ 98 ∷ 47 ∷ 120 ∷ []) ∷ []

-- A file holds its path, and a digest is the file.
abbrev machine : World
machine = record {
  buildah = λ c. some (32 ∷ 99 ∷ 10 ∷ []);
  read_file = λ p. some p;
  sha256 = λ b. b;
  now = 0;
  mkdir_fails = false;
  write_fails = false;
}

write_manifest-image_example :
    let (commands, ref) =
      build_minimal_image machine (114 ∷ []) (115 ∷ []) (47 ∷ 98 ∷ []) libraries in
    let written = write_manifest machine (47 ∷ 100 ∷ []) (115 ∷ []) [] [] libraries [] in
    (ref ≡ some (latest_ref (114 ∷ []) (115 ∷ [])))
    × (is_some written ≡ true)
    × (hashes_of written (120 ∷ []) ≡ digest_of machine (copied_to (lib_dest (120 ∷ [])) commands))
unfolding same_text build_minimal_image run_all steps
write_manifest-image_example =
    write_manifest-image machine (114 ∷ []) (115 ∷ []) (47 ∷ 98 ∷ []) (47 ∷ 100 ∷ []) [] []
      (120 ∷ []) [] libraries refl refl refl

-- The second library is the one that counts.
keeps_the_second :
    hashes_of (write_manifest machine (47 ∷ 100 ∷ []) (115 ∷ []) [] [] libraries []) (120 ∷ [])
    ≡ some (digest_prefix ++ encode_to_string (47 ∷ 98 ∷ 47 ∷ 120 ∷ []))
unfolding write_manifest hash_files hash_file base without_slashes last_element same_text
keeps_the_second = refl
