-- ===== src/Upload/Verdict.antt =====
-- What 201 promises, and when an upload succeeds (upload.go).
use iicpc.Prelude.{
  ◌≤◌, ◌≡◌, ◌⊎◌, inl, inr, refl, ap, true, false, Option, some, List, ◌∷◌, String, arith, length,
}
use iicpc.Artifact.{ArtifactType, ok, Libraries, Stream, max_artifact_bytes, validate_artifact}
use iicpc.Artifact.Verdicts.{is_whole, validate_artifact-verdict}
use iicpc.UploadLimit.{SortedSet, allowed, allow}
use iicpc.Registry.{Registry, stored}
use iicpc.Upload.{
  Request, created, Accounts, authenticate, Submission, Engine, World, record_submission,
  push_artifact, receive_form, admit, upload,
}
use iicpc.Upload.Cases.{is_created, IsValid, row_of, counted, pushed, upload_cases}

module _ (redis : SortedSet) (lib : Libraries) (reg : Registry) (acc : Accounts) where
  open acc use {sha256}

  abbrev Row : Type 0
  Row = Submission redis lib reg acc

  abbrev State : Type 0
  State = Engine redis lib reg acc

  abbrev Answers : Type 0
  Answers = World redis lib reg acc

  short : (stream : Stream) → is_whole lib stream ≡ true → length stream.bytes ≤ max_artifact_bytes
  short stream h = ground (arith, h)

  valid_ok :
      (r : Request) (t : ArtifactType) (stream : Stream)
      → IsValid redis lib reg acc r t stream
      → validate_artifact lib stream r.checksum ≡ ok (t, length stream.bytes, stream.bytes)
  valid_ok r t stream v = elim (validate_artifact-verdict lib stream r.checksum) [
    | inl (long, e) ↦ absurd (ground (arith, v.whole))
    | inr (inl (fits, fails, e)) ↦ absurd (ground (arith, v.whole))
    | inr (inr (inl (whole, formless, e))) ↦ absurd (ground (arith, formless t, v.format))
    | inr (inr (inr (u, whole, only, inl (bad, e)))) ↦ absurd (ground (arith, bad, v.digest))
    | inr (inr (inr (u, whole, only, inr (good, e)))) ↦
        let same : t ≡ u = (only t).0 v.format in rw same e
  ]

  valid_pushed :
      (w : Answers) (c : String) (r : Request) (form : Option (List (Option Stream)))
      (t : ArtifactType) (stream : Stream) (uri : reg.Uri) (parts : List (Option Stream))
      (e : State)
      → IsValid redis lib reg acc r t stream
      → form ≡ some (some stream ∷ parts)
      → (pushed redis lib reg acc w t stream.bytes e).1 ≡ stored uri
      → w.insert_fails ≡ false
      → (receive_form redis lib reg acc w c r.checksum form e).1 ≡ created w.submission_id
  unfolding receive_form push_artifact record_submission
  valid_pushed w c r form t stream uri parts e v there kept good =
      rw (there, receive_form, valid_ok r t stream v, kept, good) refl

  -- Nothing stands against the upload of a stream as an artifact of a type: the token is that of a
  -- contestant whom the limiter allows, the first part of the form passes the validator, the registry
  -- stores it and the table takes the row.
  abbrev pub IsDue : Answers → Request → State → String → ArtifactType → Stream → reg.Uri → Type 0
  IsDue w r e c t stream uri =
      (authenticate acc r.authorization ≡ some c)
      × ((allow redis w.outage w.now w.member (e.keys c)).1 ≡ allowed)
      × IsValid redis lib reg acc r t stream
      × ((pushed redis lib reg acc w t stream.bytes e).1 ≡ stored uri)
      × (w.insert_fails ≡ false)

  upload-succeeds :
      (w : Answers) (r : Request) (e : State) (c : String) (t : ArtifactType) (stream : Stream)
      (uri : reg.Uri)
      → IsDue w r e c t stream uri
      → (upload redis lib reg acc w r e).1 ≡ created w.submission_id
  unfolding upload admit
  upload-succeeds w r e c t stream uri (known, may, v, kept, good) =
      rw (known, may)
        (valid_pushed w c r r.form t stream uri v.parts (counted redis lib reg acc w c e) v v.part
          kept good)

  refused_undue :
      (w : Answers) (r : Request) (e : State)
      → is_created (upload redis lib reg acc w r e).1 ≡ false
      → ¬ (
          (c : String) × (t : ArtifactType) × (stream : Stream) × (uri : reg.Uri) × IsDue w r e c t
            stream uri)
  refused_undue w r e no_row (c, t, stream, uri, due) =
      absurd (ground (arith, no_row, ap is_created (upload-succeeds w r e c t stream uri due)))

  -- An upload is answered with 201 exactly if nothing stands against it, and 201 keeps its promise.
  -- Either the bearer token is that of a contestant whom the limiter allowed, the first part of the
  -- form was read whole, is at most 500 MB, has an accepted format and the digest of the header, the
  -- registry returned a URI for exactly these bytes and the table took the row: then the response is
  -- 201 with the identifier drawn, and the one row that is new holds the contestant, the format, the
  -- size, the SHA-256 and the URI under that identifier. Or one of these is not so: then the response
  -- is another, and the table is as it was.
  pub upload-promise :
      (w : Answers) (r : Request) (e : State)
      → let o = upload redis lib reg acc w r e in
        ((is_created o.1 ≡ false)
          × (o.0.rows ≡ e.rows)
          × ¬ (
              (c : String) × (t : ArtifactType) × (stream : Stream) × (uri : reg.Uri) × IsDue w r e
                c t stream uri))
        ⊎ ((c : String) × (t : ArtifactType) × (stream : Stream) × (uri : reg.Uri) × IsDue w r e c t
              stream uri
            × (length stream.bytes ≤ max_artifact_bytes)
            × (o.1 ≡ created w.submission_id)
            × (o.0.rows ≡ row_of redis lib reg acc w c t stream.bytes uri ∷ e.rows))
  upload-promise w r e = elim (upload_cases redis lib reg acc w r e) [
    | inl (stranger, same, no_row) ↦ inl (no_row, ap (λ x. x.rows) same, refused_undue w r e no_row)
    | inr (c, known, inl (same, no_row, turned)) ↦
        inl (no_row, ap (λ x. x.rows) same, refused_undue w r e no_row)
    | inr (c, known, inr (may, inr (no_row, inl same))) ↦
        inl (no_row, ap (λ x. x.rows) same, refused_undue w r e no_row)
    | inr (c, known, inr (may, inr (no_row, inr (t, stream, server_error, v, same)))) ↦
        inl (no_row, ap (λ x. x.rows) same, refused_undue w r e no_row)
    | inr (c, known, inr (may, inl (t, stream, uri, v, kept, good, same))) ↦ inr (
      c,
      t,
      stream,
      uri,
      (known, may, v, kept, good),
      short stream v.whole,
      ap (λ o. o.1) same,
      ap (λ o. o.0.rows) same,
    )
  ]
