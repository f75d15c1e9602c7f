-- ===== src/BuildQueue.antt =====
-- services/build-pipeline/internal: watcher/watcher.go, the status updates of db/submissions.go, and of
-- spawner/job_spawner.go what is created for a submission. A submission that waits is marked and gets a
-- job in the cluster. The outages of the database and of the cluster are parameters, and so is the
-- sorting of the database.
pub mod Counts
pub mod Drains
pub mod Hermetic
pub mod Manifest
pub mod Marks
pub mod Single
pub mod Once
use iicpc.Prelude.Sorting.{SortSlice, lower}
use iicpc.Prelude.{
  ℕ, Bool, true, false, not, ◌&&◌, ◌||◌, Option, none, some, List, [], ◌∷◌, ◌++◌, map, any, filter,
  take, if◌then◌else◌,
}
use iicpc.Artifact.{Text, same_text}
use iicpc.BuildQueue.Manifest.{Job, build_job_name, build_job_spec}

-- The statuses of a submission; BUILDING is the watcher's own.
pub data SubmissionStatus : Type 0 where
  uploaded building built build_failed build_timeout : SubmissionStatus
  build_publish_failed build_infrastructure_error : SubmissionStatus

abbrev pub is_uploaded : SubmissionStatus → Bool
is_uploaded uploaded = true
is_uploaded _ = false

-- A row of the table of submissions; its artifact can be NULL.
pub record Row : Type 0 where
  pub id : Text
  pub artifact_uri : Option Text
  pub status : SubmissionStatus
  pub created_at : ℕ

-- A submission as `fetchUploaded` reads it.
pub record Fetched : Type 0 where
  pub id : Text
  pub artifact_uri : Text

-- The table, the jobs of the cluster, and the submissions that a poll has still to dispatch.
pub record Queue : Type 0 where
  pub rows : List Row
  pub jobs : List Job
  pub pending : List Fetched

-- What fails while a submission is dispatched.
pub record Outage : Type 0 where
  pub mark_fails : Bool
  pub create_fails : Bool
  pub report_fails : Bool

abbrev pub with_status : Text → SubmissionStatus → Row → Row
with_status id status r = if same_text r.id id then record r { status = status } else r

-- `UpdateSubmissionStatus`: false is an error, and a row that is not there is one.
unfoldable pub update_submission_status :
    Bool → Text → SubmissionStatus → List Row → List Row × Bool
update_submission_status fails id status rows =
    if fails || not (any (λ r. same_text r.id id) rows)
    then (rows, false)
    else (map (with_status id status) rows, true)

abbrev pub scan_next : Option Text → Text → Option (List Fetched) → Option (List Fetched)
scan_next none id rest = none
scan_next (some uri) id none = none
scan_next (some uri) id (some rest) = some (record { id = id; artifact_uri = uri } ∷ rest)

-- The rows of a query, of which one with a NULL cannot be read into a text.
unfoldable pub scan : List Row → Option (List Fetched)
scan [] = some []
scan (r ∷ rs) = scan_next r.artifact_uri r.id (scan rs)

abbrev pub batch_size : ℕ
batch_size = 10

abbrev pub waits : Row → Bool
waits r = is_uploaded r.status

-- `fetchUploaded`: the oldest of the rows that wait; `none` is an error.
unfoldable pub fetch_uploaded :
    SortSlice (lower (λ (r : Row). r.created_at)) → Bool → List Row → Option (List Fetched)
fetch_uploaded by fails rows =
    if fails then none else scan (take batch_size (by.sort (filter waits rows)))

-- `SpawnBuildJob`: the cluster refuses a name that is taken; the error is reported on the row.
unfoldable pub spawn_build_job : Outage → Fetched → Queue → Queue
unfolding build_job_spec
spawn_build_job w f q =
    if w.create_fails || any (λ j. same_text j.name (build_job_name f.id)) q.jobs
    then (record q {
      rows = (update_submission_status w.report_fails f.id build_infrastructure_error q.rows).0;
    })
    else (record q { jobs = build_job_spec (build_job_name f.id) f.id f.artifact_uri ∷ q.jobs })

abbrev pub spawn_marked : Outage → Fetched → Queue → List Row × Bool → Queue
spawn_marked w f q (rows, false) = q
spawn_marked w f q (rows, true) = spawn_build_job w f (record q { rows = rows })

-- One turn of the loop of `poll`: the row is marked first, and skipped if that fails.
unfoldable pub dispatch : Outage → Fetched → Queue → Queue
dispatch w f q = spawn_marked w f q (update_submission_status w.mark_fails f.id building q.rows)

abbrev pub refill : Option (List Fetched) → Queue → Queue
refill none q = q
refill (some fetched) q = record q { pending = fetched }

-- A tick starts a poll, if the one before has come to its end.
unfoldable pub tick_of :
    SortSlice (lower (λ (r : Row). r.created_at)) → Bool → List Fetched → Queue → Queue
tick_of by fails [] q = refill (fetch_uploaded by fails q.rows) q
tick_of by fails (f ∷ fs) q = q

abbrev pub tick : SortSlice (lower (λ (r : Row). r.created_at)) → Bool → Queue → Queue
tick by fails q = tick_of by fails q.pending q

unfoldable pub turn_of : Outage → List Fetched → Queue → Queue
turn_of w [] q = q
turn_of w (f ∷ fs) q = dispatch w f (record q { pending = fs })

abbrev pub turn : Outage → Queue → Queue
turn w q = turn_of w q.pending q

-- What else happens to the table: an upload, under a key that is not taken, and a status that another
-- part sets.
unfoldable pub insert : Row → Queue → Queue
insert r q = if any (λ s. same_text s.id r.id) q.rows then q else record q { rows = r ∷ q.rows }

pub data Action : Type 0 where
  ticks : Bool → Action
  turns : Outage → Action
  inserts : Row → Action
  settles : Text → SubmissionStatus → Action

unfoldable pub act : SortSlice (lower (λ (r : Row). r.created_at)) → Action → Queue → Queue
act by (ticks fails) q = tick by fails q
act by (turns w) q = turn w q
act by (inserts r) q = insert r q
act by (settles id status) q = record q { rows = map (with_status id status) q.rows }

unfoldable pub act_all : SortSlice (lower (λ (r : Row). r.created_at)) → List Action → Queue → Queue
act_all by [] q = q
act_all by (a ∷ as') q = act_all by as' (act by a q)
