-- ===== src/Queries/Answers.antt =====
-- Who is answered, and that the two services tell the same (service.go, auth.go, status.go).
use mathlib.Core.Option.{some_inj}
use iicpc.Prelude.{
  ℕ, ◌≡◌, ◌↔◌, refl, ap, sym, ◌∙◌, Bool, true, false, ◌||◌, not, Option, none, some, List, [], ◌∷◌,
  ◌++◌, all, if◌then◌else◌, arith, Bool-cases, Option-cases, inl, inr,
}
use iicpc.Artifact.{Text, same_text}
use iicpc.Artifact.Texts.{same_text_refl, same_text_eq}
use iicpc.Strings.{strip_prefix}
use iicpc.Upload.{bearer}
use iicpc.Queries.{
  coalesce, SubmissionRow, Lookup, found, not_found, query_failed, select_row, SubmissionStatus,
  get_submission_status, get_by_id, StatusResponse, submission_not_found, internal_error, ok,
  nullable, status_handler, Read, stream_chunks, token_of, intercept,
}

-- What the engine would say of the control plane's answer.
abbrev retold : Lookup SubmissionStatus → StatusResponse
retold (found s) = ok s.submission_id s.status (nullable s.build_log_url)
retold not_found = submission_not_found
retold query_failed = internal_error

selected_id :
    (rows : List SubmissionRow) (id : Text) (r : SubmissionRow)
    → select_row rows id ≡ some r
    → r.id ≡ id
unfolding select_row
selected_id [] id r h = cc
selected_id (q ∷ rows) id r h = elim (Bool-cases (same_text q.id id)) [
  | inl e ↦ ap (λ (s : SubmissionRow). s.id) (sym (some_inj.0 (rw e at h))) ∙ same_text_eq q.id id e
  | inr e ↦ selected_id rows id r (rw e at h)
]

-- For an identifier that is not empty, and with the same rows and the same failure, the submission engine
-- answers what the control plane does: the same status, the same log if there is one, or the same error.
status_handler-agrees :
    (rows : List SubmissionRow) (fails : Bool) (id : Text)
    → same_text id [] ≡ false
    → status_handler rows fails id ≡ retold (get_submission_status rows fails id)
unfolding status_handler get_by_id get_submission_status
status_handler-agrees rows true id h = rw h refl
status_handler-agrees rows false id h = elim (Option-cases (select_row rows id)) [
  | inl e ↦ rw (h, e) refl
  | inr (r, e) ↦
      rw (h, e)
        (ap (λ (t : Text). ok t r.status (nullable (coalesce r.build_log_uri)))
          (selected_id rows id r e))
]

abbrev join : List Text → Text
join [] = []
join (c ∷ cs) = c ++ join cs

-- What a log holds, up to the read that ends it.
abbrev contents : List Read → Text
contents [] = []
contents (r ∷ rs) = r.bytes ++ (if r.ends then [] else contents rs)

abbrev is_chunk : Text → Bool
is_chunk c = not (same_text c [])

chunk_step :
    (bytes : Text) (ends : Bool) (rest : List Text) (held : Text)
    → (join rest ≡ held) × (all is_chunk rest ≡ true)
    → let chunks =
        if same_text bytes []
        then (if ends then [] else rest)
        else bytes ∷ (if ends then [] else rest) in
      (join chunks ≡ bytes ++ (if ends then [] else held)) × (all is_chunk chunks ≡ true)
unfolding same_text
chunk_step [] true rest held h = (refl, refl)
chunk_step [] false rest held h = h
chunk_step (b ∷ bs) true rest held h = (refl, refl)
chunk_step (b ∷ bs) false rest held (h, k) = (ap (λ (t : Text). b ∷ bs ++ t) h, k)

-- If the context is not done while a log is read, its chunks put together are what it holds, up to the
-- read that ends it, and no chunk is empty.
stream_chunks-whole :
    (rs : List Read)
    → all (λ r. not r.is_done) rs ≡ true
    → (join (stream_chunks rs) ≡ contents rs) × (all is_chunk (stream_chunks rs) ≡ true)
unfolding stream_chunks
stream_chunks-whole [] h = (refl, refl)
stream_chunks-whole (r ∷ rs) h =
    let here : r.is_done ≡ false = ground (arith, h) in
    rw here (
      chunk_step r.bytes r.ends (stream_chunks rs) (contents rs)
        (stream_chunks-whole rs (ground (arith, h))))

strip_prefix-eq : (p v t : Text) → strip_prefix p v ≡ some t → v ≡ p ++ t
unfolding strip_prefix
strip_prefix-eq [] v t h = some_inj.0 h
strip_prefix-eq (b ∷ p) [] t h = cc
strip_prefix-eq (b ∷ p) (x ∷ v) t h =
    let same : b ≡ x = ground (arith, h) in
    let rest : v ≡ p ++ t = strip_prefix-eq p v t (ground (arith, h)) in ground (arith, same, rest)

granted :
    (token secret : Text) (handler : ℕ)
    → (if same_text token [] || not (same_text token secret) then none else some handler)
      ≡ some handler
    → token ≡ secret
granted token secret handler h = same_text_eq token secret (ground (arith, h))

-- With a shared secret that is not empty, the handler is called exactly if the first value of the header
-- is "Bearer " with the secret, nothing more and nothing less.
intercept_iff :
    (b : ℕ) (secret v : Text) (vs : List Text) (handler : ℕ)
    → (intercept (b ∷ secret) (some (v ∷ vs)) handler ≡ some handler) ↔ (v ≡ bearer ++ b ∷ secret)
unfolding intercept token_of same_text
intercept_iff b secret v vs handler = (
  λ h. elim (Option-cases (strip_prefix bearer v)) [
    | inl e ↦ absurd (ground (arith, rw (e, intercept) at h))
    | inr (t, e) ↦
        strip_prefix-eq bearer v t e
        ∙ ap (λ (s : Text). bearer ++ s) (granted t (b ∷ secret) handler (rw (e, intercept) at h))
  ],
  λ h. rw h (ground (arith, same_text_refl secret)),
)

-- Without a secret no handler is called.
intercept_empty :
    (metadata : Option (List Text)) (handler : ℕ) → intercept [] metadata handler ≡ none
unfolding intercept
intercept_empty metadata handler = elim (Bool-cases (same_text (token_of metadata) [])) [
  | inl e ↦ rw e refl
  | inr e ↦ rw e refl
]
