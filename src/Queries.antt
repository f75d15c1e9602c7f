-- ===== src/Queries.antt =====
-- services/control-plane-api/internal/submission/service.go and middleware/auth.go, and
-- services/submission-engine/internal/handler/status.go over store/submission.go: what is told of a
-- submission, and to whom. Whether a query fails, and what is read of a log, are parameters; the empty
-- text stands for a missing column, as COALESCE writes it.
pub mod Answers
use iicpc.Prelude.{
  ℕ, Bool, true, false, ◌||◌, not, Option, none, some, List, [], ◌∷◌, ◌++◌, if◌then◌else◌,
}
use iicpc.Artifact.{Text, same_text}
use iicpc.Strings.{strip_prefix}
use iicpc.Upload.{bearer}

-- A row of the table of submissions.
pub record SubmissionRow : Type 0 where
  pub id : Text
  pub contestant_id : Text
  pub status : Text
  pub build_log_uri : Option Text
  pub image_digest : Option Text

-- What a query for one row answers.
pub data Lookup {ℓ} (A : Type ℓ) : Type ℓ where
  found : A → Lookup A
  not_found : Lookup A
  query_failed : Lookup A

abbrev pub coalesce : Option Text → Text
coalesce none = []
coalesce (some t) = t

-- The row whose primary key is `id`.
unfoldable pub select_row : List SubmissionRow → Text → Option SubmissionRow
select_row [] id = none
select_row (r ∷ rs) id = let rest = select_row rs id in if same_text r.id id then some r else rest

abbrev pub answer_of {ℓ} :
    {A : Type ℓ} → Bool → (SubmissionRow → A) → Option SubmissionRow → Lookup A
answer_of true view row = query_failed
answer_of false view none = not_found
answer_of false view (some r) = found (view r)

pub record SubmissionStatus : Type 0 where
  pub submission_id : Text
  pub status : Text
  pub build_log_url : Text
  pub image_digest : Text

-- `GetSubmissionStatus`.
unfoldable pub get_submission_status : List SubmissionRow → Bool → Text → Lookup SubmissionStatus
unfolding select_row
get_submission_status rows fails id =
    answer_of fails
      (λ r. record {
        submission_id = id;
        status = r.status;
        build_log_url = coalesce r.build_log_uri;
        image_digest = coalesce r.image_digest;
      })
      (select_row rows id)

pub record StoredSubmission : Type 0 where
  pub id : Text
  pub contestant_id : Text
  pub status : Text
  pub build_log_uri : Text

-- `GetByID`.
unfoldable pub get_by_id : List SubmissionRow → Bool → Text → Lookup StoredSubmission
unfolding select_row
get_by_id rows fails id =
    answer_of fails
      (λ r. record {
        id = r.id;
        contestant_id = r.contestant_id;
        status = r.status;
        build_log_uri = coalesce r.build_log_uri;
      })
      (select_row rows id)

-- The responses 400, 404, 500 and 200.
pub data StatusResponse : Type 0 where
  bad_request submission_not_found internal_error : StatusResponse
  ok : Text → Text → Option Text → StatusResponse

abbrev pub nullable : Text → Option Text
nullable uri = if same_text uri [] then none else some uri

abbrev pub respond : Lookup StoredSubmission → StatusResponse
respond (found s) = ok s.id s.status (nullable s.build_log_uri)
respond not_found = submission_not_found
respond query_failed = internal_error

-- `Status`.
unfoldable pub status_handler : List SubmissionRow → Bool → Text → StatusResponse
status_handler rows fails id =
    if same_text id [] then bad_request else respond (get_by_id rows fails id)

-- A read of the body of a log: the bytes, whether it also ends, by EOF or by another error, and whether
-- the context is done before the chunk is taken.
pub record Read : Type 0 where
  pub bytes : Text
  pub ends : Bool
  pub is_done : Bool

-- The chunks that are sent before the channel is closed.
unfoldable pub stream_chunks : List Read → List Text
stream_chunks [] = []
stream_chunks (r ∷ rs) =
    let rest = stream_chunks rs in
    let after = if r.ends then [] else rest in
    if same_text r.bytes [] then after else if r.is_done then [] else r.bytes ∷ after

abbrev pub log_of : (Text → List Read) → Text → Lookup (List Text)
log_of fetch [] = not_found
log_of fetch (c ∷ uri) = found (stream_chunks (fetch (c ∷ uri)))

abbrev pub log_at : (Text → List Read) → Lookup Text → Lookup (List Text)
log_at fetch (found uri) = log_of fetch uri
log_at fetch not_found = not_found
log_at fetch query_failed = query_failed

-- `StreamBuildLog`; `fetch` is what is read of a URI, nothing if the request fails.
unfoldable pub stream_build_log :
    (Text → List Read) → List SubmissionRow → Bool → Text → Lookup (List Text)
unfolding select_row stream_chunks
stream_build_log fetch rows fails id =
    log_at fetch (answer_of fails (λ r. coalesce r.build_log_uri) (select_row rows id))

-- `extractBearerToken`, of the values of the header, if there is any metadata; the empty text is none.
unfoldable pub token_of : Option (List Text) → Text
unfolding strip_prefix
token_of none = []
token_of (some []) = []
token_of (some (v ∷ vs)) = elim (strip_prefix bearer v) [ none ↦ [] | some token ↦ token ]

-- The interceptors: `none` is Unauthenticated, without a call of the handler.
unfoldable pub intercept {ℓ} : {A : Type ℓ} → Text → Option (List Text) → A → Option A
unfolding token_of
intercept shared_secret metadata handler =
    if same_text (token_of metadata) [] || not (same_text (token_of metadata) shared_secret)
    then none
    else some handler
