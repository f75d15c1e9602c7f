-- ===== src/Upload/Traces.antt =====
-- What a refused upload leaves behind (upload.go).
use iicpc.Prelude.{
  ◌≤◌, true, ◌⊎◌, Option-cases, str_eq, eq_iff, ◌≡◌, ◌≢◌, inl, inr, refl, sym, ap, ◌∙◌, some,
  String, arith, Bool-cases,
}
use iicpc.Artifact.{Libraries}
use iicpc.UploadLimit.{SortedSet, Reply, allow}
use iicpc.Registry.{Registry}
use iicpc.Upload.{
  Request, Accounts, authenticate, Submission, Engine, World, set_key, status_code, admit, upload,
}
use iicpc.Upload.Cases.{is_created, counted, admit_cases, upload_cases}

module _ (redis : SortedSet) (lib : Libraries) (reg : Registry) (acc : Accounts) where
  open acc use {sha256}

  abbrev Row : Type 0
  Row = Submission redis lib reg acc

  abbrev State : Type 0
  State = Engine redis lib reg acc

  abbrev Answers : Type 0
  Answers = World redis lib reg acc

  leaves_store :
      (w : Answers) (r : Request) (e : State)
      → let o = upload redis lib reg acc w r e in
        (is_created o.1 ≡ true)
        ⊎ (500 ≤ status_code o.1)
        ⊎ ((o.0.store ≡ e.store) × (o.0.rows ≡ e.rows))
  leaves_store w r e = elim (upload_cases redis lib reg acc w r e) [
    | inl (stranger, same, no_row) ↦ inr (inr (ap (λ x. x.store) same, ap (λ x. x.rows) same))
    | inr (c, known, inl (same, no_row, turned)) ↦
        inr (inr (ap (λ x. x.store) same, ap (λ x. x.rows) same))
    | inr (c, known, inr (may, inr (no_row, inl same))) ↦
        inr (inr (ap (λ x. x.store) same, ap (λ x. x.rows) same))
    | inr (c, known, inr (may, inr (no_row, inr (t, stream, server_error, v, same)))) ↦
        inr (inl server_error)
    | inr (c, known, inr (may, inl (t, stream, uri, v, kept, good, same))) ↦
        inl (ap (λ o. is_created o.1) same)
  ]

  leaves_all :
      (w : Answers) (r : Request) (e : State)
      → ((upload redis lib reg acc w r e).0 ≡ e)
        ⊎ ((c : String) × (authenticate acc r.authorization ≡ some c))
  leaves_all w r e = elim (upload_cases redis lib reg acc w r e) [
    | inl (stranger, same, no_row) ↦ inl same
    | inr (c, known, what) ↦ inr (c, known)
  ]

  key_elsewhere :
      (w : Answers) (c d : String) (e : State)
      → d ≢ c
      → (counted redis lib reg acc w c e).keys d ≡ e.keys d
  unfolding set_key
  key_elsewhere w c d e other = elim (Bool-cases (str_eq d c)) [
    | inl same ↦ absurd (other ((eq_iff d c).0 same))
    | inr differ ↦ rw differ refl
  ]

  admit_keys :
      (w : Answers) (c : String) (r : Request) (reply : Reply) (e : State)
      → (admit redis lib reg acc w c r reply e).0.keys ≡ e.keys
  admit_keys w c r reply e = elim (admit_cases redis lib reg acc w c r reply e) [
    | inl (same, no_row, turned) ↦ ap (λ x. x.keys) same
    | inr (may, inr (no_row, inl same)) ↦ ap (λ x. x.keys) same
    | inr (may, inr (no_row, inr (t, stream, server_error, v, same))) ↦ ap (λ x. x.keys) same
    | inr (may, inl (t, stream, uri, v, kept, good, same)) ↦ ap (λ o. o.0.keys) same
  ]

  pub upload-keys :
      (w : Answers) (r : Request) (e : State) (c : String)
      → authenticate acc r.authorization ≡ some c
      → (upload redis lib reg acc w r e).0.keys ≡ (counted redis lib reg acc w c e).keys
  unfolding upload
  upload-keys w r e c known = rw known (
      admit_keys w c r (allow redis w.outage w.now w.member (e.keys c)).1
        (counted redis lib reg acc w c e))

  leaves_others :
      (w : Answers) (r : Request) (e : State) (d : String)
      → (authenticate acc r.authorization ≡ some d)
        ⊎ ((upload redis lib reg acc w r e).0.keys d ≡ e.keys d)
  unfolding upload
  leaves_others w r e d = elim (Option-cases (authenticate acc r.authorization)) [
    | inl stranger ↦ inr (rw stranger refl)
    | inr (c, known) ↦ elim (Bool-cases (str_eq d c)) [
      | inl same ↦ inl (known ∙ ap some (sym ((eq_iff d c).0 same)))
      | inr other ↦ inr (
          rw known (
            ap (λ keys. keys d)
              (admit_keys w c r (allow redis w.outage w.now w.member (e.keys c)).1
                (counted redis lib reg acc w c e))
            ∙ key_elsewhere w c d e (λ h. absurd (ground (arith, other, (eq_iff d c).1 h)))))
    ]
  ]

  -- What an upload leaves alone. Unless the response is 201 or at least 500, the registry and the
  -- table are as they were. Without a contestant for the token all is as it was, the limiter included.
  -- And the key of a contestant other than the one of the token is as it was.
  pub upload-leaves :
      (w : Answers) (r : Request) (e : State) (d : String)
      → let o = upload redis lib reg acc w r e in
        ((is_created o.1 ≡ true)
          ⊎ (500 ≤ status_code o.1)
          ⊎ ((o.0.store ≡ e.store) × (o.0.rows ≡ e.rows)))
        × ((o.0 ≡ e) ⊎ ((c : String) × (authenticate acc r.authorization ≡ some c)))
        × ((authenticate acc r.authorization ≡ some d) ⊎ (o.0.keys d ≡ e.keys d))
  upload-leaves w r e d = (leaves_store w r e, leaves_all w r e, leaves_others w r e d)
