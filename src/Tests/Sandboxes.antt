-- ===== src/Tests/Sandboxes.antt =====
-- Artifacts and sandboxes (artifact.go, reconciler.go).
use iicpc.Prelude.{
  ◌≡◌, refl, ◌↔◌, ◌≤◌, ◌<◌, ◌⊎◌, true, false, none, some, List, [], ◌∷◌, count, length, all,
  if◌then◌else◌, ◌==◌, replicate, arith,
}
use iicpc.Artifact.{
  same_text, Text, Libraries, Stream, ArtifactType, archive, too_large, read_failed, bad_format,
  bad_checksum, ok, err, validate_artifact, verify_checksum, max_artifact_bytes,
}
use iicpc.Artifact.Verdicts.{is_whole, has_format, validate_artifact-verdict}
use iicpc.Artifact.Manifests.{is_plain, join}
use iicpc.Sandbox.{
  connects, refuses, port_by_protocol, SandboxSpec, SandboxStatus, World, Pod, found, missing,
  pod_running, pod_pending, overlay_created, unset,
}
use iicpc.Sandbox.Probes.{is_known}

abbrev go_mod : Text
go_mod = 103 ∷ 111 ∷ 46 ∷ 109 ∷ 111 ∷ 100 ∷ []

-- A digest of 64 zeros for every input, and archives with one file, src/go.mod.
abbrev libraries : Libraries
libraries = record {
  sha256_hex = λ bs. replicate 64 48;
  tar_entries =
      λ bs. some (record { is_directory = false; name = join 47 ((115 ∷ []) ∷ go_mod ∷ []) } ∷ []);
  zip_entries = λ bs. none;
}

abbrev gzip : Stream
gzip = record { bytes = 31 ∷ 139 ∷ 8 ∷ 0 ∷ []; fails = false }

accepted : validate_artifact libraries gzip (replicate 64 48) ≡ ok (archive, 4, gzip.bytes)
unfolding validate_artifact
accepted = refl

validate_artifact-verdict_example :
    ((max_artifact_bytes < length gzip.bytes)
      × (validate_artifact libraries gzip (replicate 64 48) ≡ err too_large))
    ⊎ ((length gzip.bytes ≤ max_artifact_bytes)
        × (gzip.fails ≡ true)
        × (validate_artifact libraries gzip (replicate 64 48) ≡ err read_failed))
    ⊎ ((is_whole libraries gzip ≡ true)
        × ((t : ArtifactType) → has_format libraries t gzip.bytes ≡ false)
        × (validate_artifact libraries gzip (replicate 64 48) ≡ err bad_format))
    ⊎ ((t : ArtifactType) × (is_whole libraries gzip ≡ true)
        × ((u : ArtifactType) → (has_format libraries u gzip.bytes ≡ true) ↔ (u ≡ t))
        × (((verify_checksum libraries gzip.bytes (replicate 64 48) ≡ false)
              × (validate_artifact libraries gzip (replicate 64 48) ≡ err bad_checksum))
            ⊎ ((verify_checksum libraries gzip.bytes (replicate 64 48) ≡ true)
                × (validate_artifact libraries gzip (replicate 64 48)
                    ≡ ok (t, length gzip.bytes, gzip.bytes)))))
validate_artifact-verdict_example = validate_artifact-verdict libraries gzip (replicate 64 48)

two_plain : all is_plain ((115 ∷ []) ∷ go_mod ∷ []) ≡ true
unfolding same_text
two_plain = refl

abbrev spec : SandboxSpec
spec = record {
  submission_id = "s";
  benchmark_run_id = "r";
  protocols = "FIX" ∷ "SOAP" ∷ "WS" ∷ [];
}

abbrev fresh : SandboxStatus
fresh = record {
  phase = unset;
  internal_ip = "";
  endpoints = [];
  termination_reason = "";
  exit_code = 0;
}

abbrev up : Pod
up = record { phase = pod_running; pod_ip = "10.0.0.7"; reason = ""; terminated = none }

-- Only the WebSocket port answers.
abbrev world : World
world = record {
  pod = missing;
  overlay = overlay_created;
  create_error = none;
  has_registry = true;
  register_fails = false;
  update_fails = λ p. false;
  dials = λ ip port. if port == 8081 then connects 10 else refuses 5;
}

abbrev worlds : List World
worlds =
    world
    ∷ record world { pod = found (record up { phase = pod_pending }) }
    ∷ record world { pod = found up }
    ∷ record world { pod = missing }
    ∷ []

two_known : 0 < count is_known spec.protocols
unfolding port_by_protocol
two_known = omega arith
