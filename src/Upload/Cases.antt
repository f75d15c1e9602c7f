-- ===== src/Upload/Cases.antt =====
-- The branches of an upload (upload.go), with what each leaves of the state.
use iicpc.Prelude.{
  ℕ, ◌≤◌, ◌≡◌, ◌≢◌, ◌⊎◌, inl, inr, refl, sym, Bool, true, false, Option, none, some, List, [], ◌∷◌,
  String, arith, Option-cases, Bool-cases, length,
}
use iicpc.Artifact.{
  Text, ArtifactType, Error, Result, ok, err, Libraries, Stream, verify_checksum, validate_artifact,
}
use iicpc.Artifact.Verdicts.{has_format, is_whole, validate_artifact-verdict}
use iicpc.UploadLimit.{SortedSet, Reply, allowed, limited, redis_error, unreadable_score, allow}
use iicpc.Registry.{Registry, Pushed, stored, unavailable, push_error}
use iicpc.Upload.{
  Request, Response, created, Accounts, authenticate, Submission, Engine, World, set_key,
  record_submission, push_artifact, refusal, status_code, receive_form, admit, upload,
}

-- The response is 201.
abbrev pub is_created : Response → Bool
is_created (created id) = true
is_created _ = false

Result-cases {ℓ} :
    {A : Type ℓ} (x : Result A) → ((e : Error) × (x ≡ err e)) ⊎ ((a : A) × (x ≡ ok a))
Result-cases (err e) = inl (e, refl)
Result-cases (ok a) = inr (a, refl)

module _ (redis : SortedSet) (lib : Libraries) (reg : Registry) (acc : Accounts) where
  open reg use {push}
  open acc use {sha256}

  abbrev pub Row : Type 0
  Row = Submission redis lib reg acc

  abbrev pub State : Type 0
  State = Engine redis lib reg acc

  abbrev pub Answers : Type 0
  Answers = World redis lib reg acc

  -- The first part of the form, opened, passes the validator.
  pub record IsValid (r : Request) (t : ArtifactType) (stream : Stream) : Type 0 where
    pub parts : List (Option Stream)
    pub part : r.form ≡ some (some stream ∷ parts)
    pub whole : is_whole lib stream ≡ true
    pub format : has_format lib t stream.bytes ≡ true
    pub digest : verify_checksum lib stream.bytes r.checksum ≡ true

  validated :
      (stream : Stream) (expected : Text) (t : ArtifactType) (n : ℕ) (payload : List ℕ)
      → validate_artifact lib stream expected ≡ ok (t, n, payload)
      → (is_whole lib stream ≡ true)
        × (has_format lib t stream.bytes ≡ true)
        × (verify_checksum lib stream.bytes expected ≡ true)
        × (n ≡ length stream.bytes)
        × (payload ≡ stream.bytes)
  validated stream expected t n payload h = elim (validate_artifact-verdict lib stream expected) [
    | inl (long, e) ↦ absurd (ground (arith, h, e))
    | inr (inl (short, fails, e)) ↦ absurd (ground (arith, h, e))
    | inr (inr (inl (whole, formless, e))) ↦ absurd (ground (arith, h, e))
    | inr (inr (inr (u, whole, only, inl (bad, e)))) ↦ absurd (ground (arith, h, e))
    | inr (inr (inr (u, whole, only, inr (good, e)))) ↦
        let same : u ≡ t = ground (arith, h, e) in
        (whole, (only t).1 (sym same), good, ground (arith, h, e), ground (arith, h, e))
  ]

  -- The row that an upload writes.
  abbrev pub row_of : Answers → String → ArtifactType → List ℕ → reg.Uri → Row
  row_of w c t payload uri = record {
    id = w.submission_id;
    contestant = c;
    artifact_type = t;
    artifact_size = length payload;
    checksum_sha256 = sha256 payload;
    artifact_uri = uri;
  }

  -- What the limiter leaves of the state.
  abbrev pub counted : Answers → String → State → State
  counted w c e = record e {
    keys = set_key redis lib reg acc c (allow redis w.outage w.now w.member (e.keys c)).0 e.keys;
  }

  -- What the registry leaves of it, and returns.
  abbrev pub pushed : Answers → ArtifactType → List ℕ → State → reg.Store × Pushed reg.Uri
  pushed w t payload e = push w.answer w.request_id t payload e.store

  -- A response other than 201 from `receive`: a row is not written, and the registry is at most asked
  -- to store the valid artifact.
  abbrev pub Refused : Answers → Request → State → State × Response → Type 0
  Refused w r e o =
      (is_created o.1 ≡ false)
      × ((o.0 ≡ e)
          ⊎ ((t : ArtifactType) × (stream : Stream) × (500 ≤ status_code o.1)
              × IsValid r t stream
              × (o.0 ≡ record e { store = (pushed w t stream.bytes e).0 })))

  abbrev pub Accepted : Answers → String → Request → State → State × Response → Type 0
  Accepted w c r e o =
      (t : ArtifactType) × (stream : Stream) × (uri : reg.Uri) × IsValid r t stream
      × ((pushed w t stream.bytes e).1 ≡ stored uri)
      × (w.insert_fails ≡ false)
      × (o ≡ (
        record {
          keys = e.keys;
          store = (pushed w t stream.bytes e).0;
          rows = row_of w c t stream.bytes uri ∷ e.rows;
        },
        created w.submission_id,
      ))

  pushed_cases :
      (w : Answers) (c : String) (r : Request) (t : ArtifactType) (stream : Stream) (e : State)
      → IsValid r t stream
      → (p : Pushed reg.Uri) → (pushed w t stream.bytes e).1 ≡ p
      → let o = push_artifact redis lib reg acc w c (t, length stream.bytes, stream.bytes) e in
        Accepted w c r e o ⊎ Refused w r e o
  unfolding push_artifact record_submission status_code
  pushed_cases w c r t stream e v unavailable h =
      inr (rw h (refl, inr (t, stream, omega arith, v, refl)))
  pushed_cases w c r t stream e v push_error h =
      inr (rw h (refl, inr (t, stream, omega arith, v, refl)))
  pushed_cases w c r t stream e v (stored uri) h = elim (Bool-cases w.insert_fails) [
    | inl fails ↦ inr (rw (h, fails) (refl, inr (t, stream, omega arith, v, refl)))
    | inr good ↦ inl (t, stream, uri, v, h, good, rw (h, good) refl)
  ]

  refusal-refused : (x : Error) → is_created (refusal x) ≡ false
  unfolding refusal
  refusal-refused x = ground arith

  form_cases :
      (w : Answers) (c : String) (r : Request) (form : Option (List (Option Stream))) (e : State)
      → r.form ≡ form
      → let o = receive_form redis lib reg acc w c r.checksum form e in
        Accepted w c r e o ⊎ Refused w r e o
  unfolding receive_form
  form_cases w c r none e h = inr (refl, inl refl)
  form_cases w c r (some []) e h = inr (refl, inl refl)
  form_cases w c r (some (none ∷ parts)) e h = inr (refl, inl refl)
  form_cases w c r (some (some stream ∷ parts)) e h =
      elim (Result-cases (validate_artifact lib stream r.checksum)) [
        | inl (x, bad) ↦ rw (bad, receive_form) (inr (refusal-refused x, inl refl))
        | inr ((t, n, payload), good) ↦
            let (whole, format, digest, size, bytes) =
              validated stream r.checksum t n payload good in
            let v : IsValid r t stream = record {
              parts = parts;
              part = h;
              whole = whole;
              format = format;
              digest = digest;
            } in
            rw (good, receive_form, size, bytes)
              (pushed_cases w c r t stream e v (pushed w t stream.bytes e).1 refl)
      ]

  pub admit_cases :
      (w : Answers) (c : String) (r : Request) (reply : Reply) (e : State)
      → let o = admit redis lib reg acc w c r reply e in
        ((o.0 ≡ e) × (is_created o.1 ≡ false) × (reply ≢ allowed))
        ⊎ ((reply ≡ allowed) × (Accepted w c r e o ⊎ Refused w r e o))
  unfolding admit
  admit_cases w c r allowed e = inr (refl, form_cases w c r r.form e refl)
  admit_cases w c r (limited n) e = inl (refl, refl, ground arith)
  admit_cases w c r redis_error e = inl (refl, refl, ground arith)
  admit_cases w c r unreadable_score e = inl (refl, refl, ground arith)

  -- An upload is one of three: it has no contestant, and changes nothing; the limiter does not allow
  -- it, and only the limiter's key of the contestant changes; or it is received, after that key.
  pub upload_cases :
      (w : Answers) (r : Request) (e : State)
      → let o = upload redis lib reg acc w r e in
        ((authenticate acc r.authorization ≡ none) × (o.0 ≡ e) × (is_created o.1 ≡ false))
        ⊎ ((c : String) × (authenticate acc r.authorization ≡ some c)
            × (((o.0 ≡ counted w c e)
                  × (is_created o.1 ≡ false)
                  × ((allow redis w.outage w.now w.member (e.keys c)).1 ≢ allowed))
                ⊎ (((allow redis w.outage w.now w.member (e.keys c)).1 ≡ allowed)
                    × (Accepted w c r (counted w c e) o ⊎ Refused w r (counted w c e) o))))
  unfolding upload
  upload_cases w r e = elim (Option-cases (authenticate acc r.authorization)) [
    | inl stranger ↦ inl (stranger, rw stranger refl, rw stranger refl)
    | inr (c, known) ↦ inr (
      c,
      known,
      rw known
          (admit_cases w c r (allow redis w.outage w.now w.member (e.keys c)).1 (counted w c e)),
    )
  ]
