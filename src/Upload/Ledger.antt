-- ===== src/Upload/Ledger.antt =====
-- The table of submissions against the registry (upload.go, registry/client.go).
use iicpc.Prelude.{ℕ, ◌≡◌, inl, inr, refl, sym, ap, subst, List, [], ◌∷◌, length, All}
use iicpc.Artifact.{ArtifactType, Libraries}
use iicpc.UploadLimit.{SortedSet}
use iicpc.Registry.{Registry}
use iicpc.Upload.{Request, Accounts, Submission, Engine, World, upload, upload_all}
use iicpc.Upload.Cases.{upload_cases, pushed}

module _ (redis : SortedSet) (lib : Libraries) (reg : Registry) (acc : Accounts) where
  open reg use {Holds, IsNew}
  open acc use {sha256}

  abbrev Row : Type 0
  Row = Submission redis lib reg acc

  abbrev State : Type 0
  State = Engine redis lib reg acc

  abbrev Answers : Type 0
  Answers = World redis lib reg acc

  -- The registry holds, under the URI of a row, bytes of the row's size and digest.
  abbrev pub IsBacked : reg.Store → Row → Type 0
  IsBacked s row =
      (bytes : List ℕ) × Holds s row.artifact_uri bytes
      × (row.artifact_size ≡ length bytes)
      × (row.checksum_sha256 ≡ sha256 bytes)

  -- The identifiers under which the requests push are new to the registry.
  abbrev pub DrawsNew : List (Answers × Request) → State → Type 0
  DrawsNew [] e = Unit
  DrawsNew ((w, r) ∷ rs) e =
      IsNew e.store w.request_id × DrawsNew rs (upload redis lib reg acc w r e).0

  kept :
      (w : Answers) (t : ArtifactType) (payload : List ℕ) (e : State) (rows : List Row)
      → IsNew e.store w.request_id
      → All (IsBacked e.store) rows
      → All (IsBacked (pushed redis lib reg acc w t payload e).0) rows
  kept w t payload e [] new h = tt
  kept w t payload e (row ∷ rows) new ((bytes, there, size, digest), more) = (
    (
      bytes,
      reg.push-keeps w.answer w.request_id t payload bytes e.store row.artifact_uri new there,
      size,
      digest,
    ),
    kept w t payload e rows new more,
  )

  abbrev AllBacked : State → Type 0
  AllBacked e = All (IsBacked e.store) e.rows

  upload-AllBacked :
      (w : Answers) (r : Request) (e : State)
      → IsNew e.store w.request_id
      → AllBacked e
      → AllBacked (upload redis lib reg acc w r e).0
  upload-AllBacked w r e new h = elim (upload_cases redis lib reg acc w r e) [
    | inl (stranger, same, no_row) ↦ subst AllBacked (sym same) h
    | inr (c, known, inl (same, no_row, turned)) ↦ subst AllBacked (sym same) h
    | inr (c, known, inr (may, inr (no_row, inl same))) ↦ subst AllBacked (sym same) h
    | inr (c, known, inr (may, inr (no_row, inr (t, stream, server_error, v, same)))) ↦
        subst AllBacked (sym same) (kept w t stream.bytes e e.rows new h)
    | inr (c, known, inr (may, inl (t, stream, uri, v, there, good, same))) ↦
        subst AllBacked (sym (ap (λ o. o.0) same)) (
          (
            stream.bytes,
            reg.push-Holds w.answer w.request_id t stream.bytes e.store uri there,
            refl,
            refl,
          ),
          kept w t stream.bytes e e.rows new h,
        )
  ]

  -- After any sequence of uploads, with any failures, that starts from a table whose rows are backed
  -- and draws new identifiers for its pushes, every row is backed: the registry holds under the URI of
  -- the row an artifact of the size and the SHA-256 that the row names.
  pub upload_all-AllBacked :
      (rs : List (Answers × Request)) (e : State)
      → DrawsNew rs e
      → All (IsBacked e.store) e.rows
      → let after = upload_all redis lib reg acc rs e in All (IsBacked after.store) after.rows
  unfolding upload_all
  upload_all-AllBacked [] e new h = h
  upload_all-AllBacked ((w, r) ∷ rs) e new h =
      upload_all-AllBacked rs (upload redis lib reg acc w r e).0 new.1
        (upload-AllBacked w r e new.0 h)
