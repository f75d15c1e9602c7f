-- ===== src/Upload.antt =====
-- services/submission-engine/internal/handler/upload.go and status.go, with middleware/auth.go: an
-- upload from its bearer token to its row in the table of submissions. The limiter, the validator and
-- the registry are those of their modules; a World holds what the other calls answer.
pub mod Cases
pub mod Ledger
pub mod Rolling
pub mod Traces
pub mod Verdict
use iicpc.Prelude.{
  ℕ, Bool, true, false, ◌||◌, ◌&&◌, Option, none, some, List, [], ◌∷◌, ◌++◌, String, str_eq, leb,
  ◌==◌, if◌then◌else◌, length,
}
use iicpc.Artifact.{
  Text, same_text, ArtifactType, Error, ok, err, too_large, bad_format, bad_checksum, read_failed,
  Libraries, Stream, validate_artifact,
}
use iicpc.UploadLimit.{
  SortedSet, Outage, Key, Reply, allowed, limited, redis_error, unreadable_score, allow,
}
use iicpc.Strings.{strip_prefix, is_space, trim_left, trim_right}
use iicpc.Registry.{Registry, Pushed, stored, unavailable, push_error}

-- "Bearer ", with its space.
abbrev pub bearer : Text
bearer = 66 ∷ 101 ∷ 97 ∷ 114 ∷ 101 ∷ 114 ∷ 32 ∷ []

-- `extractBearerToken`, with `strings.TrimSpace` for a header in ASCII.
unfoldable pub extract_bearer_token : Text → Option Text
unfolding strip_prefix trim_left trim_right
extract_bearer_token header = elim (strip_prefix bearer header) [
  | none ↦ none
  | some rest ↦
      let token = trim_right (trim_left rest) in if same_text token [] then none else some token
]

-- A part of the form in the field `artifact`: `none` if it cannot be opened.
abbrev pub Part : Type 0
Part = Option Stream

-- A request, with the header of its authorization; the form is `none` if it cannot be parsed.
pub record Request : Type 0 where
  pub authorization : Text
  pub form : Option (List Part)
  pub checksum : Text

pub data Response : Type 0 where
  created : String → Response
  invalid_token internal_error bad_request missing_artifact : Response
  rate_limited : ℕ → Response
  artifact_too_large unsupported_format checksum_mismatch registry_unavailable : Response

unfoldable pub status_code : Response → ℕ
status_code (created id) = 201
status_code invalid_token = 401
status_code internal_error = 500
status_code bad_request = 400
status_code missing_artifact = 400
status_code (rate_limited seconds) = 429
status_code artifact_too_large = 413
status_code unsupported_format = 415
status_code checksum_mismatch = 422
status_code registry_unavailable = 503

unfoldable pub refusal : Error → Response
refusal too_large = artifact_too_large
refusal bad_format = unsupported_format
refusal bad_checksum = checksum_mismatch
refusal read_failed = internal_error

-- SHA-256 as bytes, and the table of the tokens by their digest; a failing query gives `none` too.
pub record Accounts : Type 0 where
  pub sha256 : List ℕ → List ℕ
  pub contestant_of : List ℕ → Option String

-- `Auth`: who makes the request.
unfoldable pub authenticate : Accounts → Text → Option String
unfolding extract_bearer_token
authenticate acc header = elim (extract_bearer_token header) [
  | none ↦ none
  | some token ↦ acc.contestant_of (acc.sha256 token)
]

module _ (redis : SortedSet) (lib : Libraries) (reg : Registry) (acc : Accounts) where
  open reg use {Store, Uri, Answer, push}
  open acc use {sha256}

  -- A row of the table of submissions, with the status UPLOADED.
  pub record Submission : Type 0 where
    pub id : String
    pub contestant : String
    pub artifact_type : ArtifactType
    pub artifact_size : ℕ
    pub checksum_sha256 : List ℕ
    pub artifact_uri : Uri

  -- The keys of the limiter by contestant, the registry, and the table.
  pub record Engine : Type 0 where
    pub keys : String → Key redis
    pub store : Store
    pub rows : List Submission

  -- What the calls answer: the time, the member and the outage of the limiter, the two UUIDs that are
  -- drawn, the registry's answer, and whether the row cannot be inserted.
  pub record World : Type 0 where
    pub now : ℕ
    pub member : String
    pub outage : Outage
    pub request_id : String
    pub submission_id : String
    pub answer : Answer
    pub insert_fails : Bool

  unfoldable pub set_key : String → Key redis → (String → Key redis) → String → Key redis
  set_key c k keys d = if str_eq d c then k else keys d

  -- From the push on: the row is written after it, under an identifier of its own.
  unfoldable pub record_submission :
      World → String → ArtifactType → ℕ → List ℕ → Pushed Uri → Engine → Engine × Response
  record_submission w c t size payload unavailable e = (e, registry_unavailable)
  record_submission w c t size payload push_error e = (e, internal_error)
  record_submission w c t size payload (stored uri) e =
      if w.insert_fails then (e, internal_error) else (
        record e {
          rows =
              record {
                id = w.submission_id;
                contestant = c;
                artifact_type = t;
                artifact_size = size;
                checksum_sha256 = sha256 payload;
                artifact_uri = uri;
              }
              ∷ e.rows;
        },
        created w.submission_id,
      )

  unfoldable pub push_artifact :
      World → String → ArtifactType × ℕ × List ℕ → Engine → Engine × Response
  unfolding record_submission
  push_artifact w c (t, size, payload) e =
      let pushed = push w.answer w.request_id t payload e.store in
      record_submission w c t size payload pushed.1 (record e { store = pushed.0 })

  -- From the parsed form on.
  unfoldable pub receive_form :
      World → String → Text → Option (List Part) → Engine → Engine × Response
  unfolding push_artifact refusal
  receive_form w c expected none e = (e, bad_request)
  receive_form w c expected (some []) e = (e, missing_artifact)
  receive_form w c expected (some (none ∷ parts)) e = (e, internal_error)
  receive_form w c expected (some (some stream ∷ parts)) e =
      elim (validate_artifact lib stream expected) [
        | err x ↦ (e, refusal x)
        | ok v ↦ push_artifact w c v e
      ]

  unfoldable pub admit : World → String → Request → Reply → Engine → Engine × Response
  unfolding receive_form
  admit w c r allowed e = receive_form w c r.checksum r.form e
  admit w c r (limited seconds) e = (e, rate_limited seconds)
  admit w c r redis_error e = (e, internal_error)
  admit w c r unreadable_score e = (e, internal_error)

  -- `Auth` in front of `Upload`.
  unfoldable pub upload : World → Request → Engine → Engine × Response
  unfolding authenticate admit set_key
  upload w r e = elim (authenticate acc r.authorization) [
    | none ↦ (e, invalid_token)
    | some c ↦
        let (k, reply) = allow redis w.outage w.now w.member (e.keys c) in
        admit w c r reply (record e { keys = set_key c k e.keys })
  ]

  unfoldable pub upload_all : List (World × Request) → Engine → Engine
  unfolding upload
  upload_all [] e = e
  upload_all ((w, r) ∷ rs) e = upload_all rs (upload w r e).0
