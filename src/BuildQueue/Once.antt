-- ===== src/BuildQueue/Once.antt =====
-- A submission gets one job at most (watcher.go, job_spawner.go).
use iicpc.Prelude.Sorting.{SortSlice, lower}
use iicpc.Prelude.{
  ◌+◌, ◌≤◌, ◌≡◌, refl, false, not, ◌||◌, List, [], ◌∷◌, map, any, count, All, arith, Bool-cases,
  inl, inr,
}
use iicpc.Artifact.{Text, same_text}
use iicpc.BuildQueue.{
  building, build_infrastructure_error, is_uploaded, Row, Fetched, Queue, Outage, with_status,
  update_submission_status, spawn_build_job, dispatch, turn_of, Action, ticks, turns, inserts,
  settles, act, act_all,
}
use iicpc.BuildQueue.Manifest.{Job, build_job_name}
use iicpc.BuildQueue.Counts.{has_id, waits_with, is_for, is_pending}
use iicpc.BuildQueue.Single.{
  AreOnce, IsOnce, insert-IsOnce, new_job-AreOnce, settle-AreOnce, tick_of-IsOnce, update-AreOnce,
}

fewer_pending :
    (id : Text) (f : Fetched) (fs : List Fetched) (rows : List Row) (jobs : List Job)
    → AreOnce id rows jobs (f ∷ fs)
    → AreOnce id rows jobs fs
fewer_pending id f fs rows jobs o = record {
  unique = o.unique;
  waiting = o.waiting;
  queued = omega (arith, o.queued);
}

spawn-IsOnce :
    (id : Text) (w : Outage) (f : Fetched) (fs : List Fetched) (rows : List Row) (jobs : List Job)
    → AreOnce id rows jobs (f ∷ fs)
    → IsOnce id (
        spawn_build_job w f
          (record { rows = map (with_status f.id building) rows; jobs = jobs; pending = fs }))
unfolding spawn_build_job
spawn-IsOnce id w f fs rows jobs o =
    elim (Bool-cases (w.create_fails || any (λ j. same_text j.name (build_job_name f.id)) jobs)) [
      | inl e ↦ rw e (
          update-AreOnce id f.id build_infrastructure_error w.report_fails
            (map (with_status f.id building) rows) jobs fs refl
            (settle-AreOnce id f.id building rows jobs fs refl (fewer_pending id f fs rows jobs o)))
      | inr e ↦ rw e (new_job-AreOnce id f _ fs rows jobs refl o)
    ]

dispatch-IsOnce :
    (id : Text) (w : Outage) (f : Fetched) (fs : List Fetched) (rows : List Row) (jobs : List Job)
    → AreOnce id rows jobs (f ∷ fs)
    → IsOnce id (dispatch w f (record { rows = rows; jobs = jobs; pending = fs }))
unfolding dispatch update_submission_status
dispatch-IsOnce id w f fs rows jobs o =
    elim (Bool-cases (w.mark_fails || not (any (has_id f.id) rows))) [
      | inl e ↦ rw e (fewer_pending id f fs rows jobs o)
      | inr e ↦ rw e (spawn-IsOnce id w f fs rows jobs o)
    ]

turn_of-IsOnce :
    (id : Text) (w : Outage) (fs : List Fetched) (q : Queue)
    → AreOnce id q.rows q.jobs fs
    → IsOnce id q
    → IsOnce id (turn_of w fs q)
unfolding turn_of
turn_of-IsOnce id w [] q o p = p
turn_of-IsOnce id w (f ∷ fs) q o p = dispatch-IsOnce id w f fs q.rows q.jobs o

-- No other part of the system sets a submission back to UPLOADED.
abbrev pub LeavesUploaded : Action → Type 0
LeavesUploaded (settles id status) = is_uploaded status ≡ false
LeavesUploaded _ = Unit {0}

act-IsOnce :
    (by : SortSlice (lower (λ (r : Row). r.created_at))) (id : Text) (a : Action) (q : Queue)
    → LeavesUploaded a
    → IsOnce id q
    → IsOnce id (act by a q)
unfolding act
act-IsOnce by id (ticks fails) q h o = tick_of-IsOnce by id fails q.pending q o
act-IsOnce by id (turns w) q h o = turn_of-IsOnce id w q.pending q o o
act-IsOnce by id (inserts r) q h o = insert-IsOnce id r q o
act-IsOnce by id (settles i s) q h o = settle-AreOnce id i s q.rows q.jobs q.pending h o

act_all-IsOnce :
    (by : SortSlice (lower (λ (r : Row). r.created_at))) (id : Text) (as' : List Action) (q : Queue)
    → All LeavesUploaded as'
    → IsOnce id q
    → IsOnce id (act_all by as' q)
unfolding act_all
act_all-IsOnce by id [] q h o = o
act_all-IsOnce by id (a ∷ as') q (h, hs) o =
    act_all-IsOnce by id as' (act by a q) hs (act-IsOnce by id a q h o)

abbrev pub empty_queue : Queue
empty_queue = record { rows = []; jobs = []; pending = [] }

-- From empty tables, in every order of uploads, ticks, turns of the loop and statuses that other parts
-- set, none of which is UPLOADED, and with any outages: no submission has more than one job, and one
-- that has a job no longer waits and is not among those that the poll will still dispatch.
pub act_all-job_once :
    (by : SortSlice (lower (λ (r : Row). r.created_at))) (actions : List Action) (id : Text)
    → All LeavesUploaded actions
    → let q = act_all by actions empty_queue in
      (count (is_for id) q.jobs + count (waits_with id) q.rows ≤ 1)
      × (count (is_for id) q.jobs + count (is_pending id) q.pending ≤ 1)
act_all-job_once by actions id h =
    let o =
      act_all-IsOnce by id actions empty_queue h
        (record { unique = omega arith; waiting = omega arith; queued = omega arith }) in
    (omega (arith, o.unique, o.waiting), omega (arith, o.unique, o.queued))
