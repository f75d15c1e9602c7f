-- ===== src/BuildQueue/Single.antt =====
-- That an identifier keeps one row and one job (watcher.go, job_spawner.go).
use iicpc.Prelude.Sorting.{SortSlice, lower}
use iicpc.Prelude.{
  ◌+◌, ◌≤◌, ◌≡◌, refl, sym, subst, Bool, false, not, ◌||◌, Option, none, some, List, [], ◌∷◌, map,
  any, count, arith, Bool-cases, inl, inr,
}
use iicpc.Artifact.{Text, same_text}
use iicpc.Artifact.Texts.{same_text_eq}
use iicpc.BuildQueue.{
  SubmissionStatus, building, is_uploaded, Row, Fetched, Queue, with_status,
  update_submission_status, fetch_uploaded, refill, tick_of, insert,
}
use iicpc.BuildQueue.Manifest.{Job}
use iicpc.BuildQueue.Counts.{
  has_id, waits_with, is_for, is_pending, count-has_id-with_status, count-waits_with-le,
  count-waits_with-zero, count-waits_with-le-has_id, any-count, count-fetched,
}

-- One identifier: its row is unique; it has a job only if the row does not wait and is not pending.
pub record AreOnce (id : Text) (rows : List Row) (jobs : List Job) (pending : List Fetched)
    : Type 0 where
  pub unique : count (has_id id) rows ≤ 1
  pub waiting : count (is_for id) jobs + count (waits_with id) rows ≤ count (has_id id) rows
  pub queued : count (is_for id) jobs + count (is_pending id) pending ≤ count (has_id id) rows

abbrev pub IsOnce : Text → Queue → Type 0
IsOnce id q = AreOnce id q.rows q.jobs q.pending

pub settle-AreOnce :
    (id i : Text) (s : SubmissionStatus) (rows : List Row) (jobs : List Job) (fs : List Fetched)
    → is_uploaded s ≡ false
    → AreOnce id rows jobs fs
    → AreOnce id (map (with_status i s) rows) jobs fs
settle-AreOnce id i s rows jobs fs h o =
    let same = count-has_id-with_status id i s rows in
    let less = count-waits_with-le id i s rows h in
    record {
      unique = omega (arith, o.unique, same);
      waiting = omega (arith, o.waiting, same, less);
      queued = omega (arith, o.queued, same);
    }

pub update-AreOnce :
    (id i : Text) (s : SubmissionStatus) (fails : Bool) (rows : List Row) (jobs : List Job)
    (fs : List Fetched)
    → is_uploaded s ≡ false
    → AreOnce id rows jobs fs
    → AreOnce id (update_submission_status fails i s rows).0 jobs fs
unfolding update_submission_status
update-AreOnce id i s fails rows jobs fs h o =
    elim (Bool-cases (fails || not (any (has_id i) rows))) [
      | inl e ↦ rw e o
      | inr e ↦ rw e (settle-AreOnce id i s rows jobs fs h o)
    ]

new_row-AreOnce :
    (id : Text) (r : Row) (rows : List Row) (jobs : List Job) (fs : List Fetched)
    → AreOnce id rows jobs fs
    → count (has_id r.id) rows ≡ 0
    → AreOnce id (r ∷ rows) jobs fs
new_row-AreOnce id r rows jobs fs o n = elim (Bool-cases (same_text r.id id)) [
  | inl e ↦
      let none_yet : count (has_id id) rows ≡ 0 =
        subst (λ (i : Text). count (has_id i) rows ≡ 0) (same_text_eq r.id id e) n in
      let low = count-waits_with-le-has_id id rows in
      record {
        unique = ground (arith, e, none_yet);
        waiting = ground (arith, e, none_yet, low, o.waiting);
        queued = ground (arith, e, none_yet, o.queued);
      }
  | inr e ↦ record {
    unique = ground (arith, e, o.unique);
    waiting = ground (arith, e, o.waiting);
    queued = ground (arith, e, o.queued);
  }
]

pub insert-IsOnce : (id : Text) (r : Row) (q : Queue) → IsOnce id q → IsOnce id (insert r q)
unfolding insert
insert-IsOnce id r q o = elim (Bool-cases (any (has_id r.id) q.rows)) [
  | inl e ↦ rw e o
  | inr e ↦ rw e (new_row-AreOnce id r q.rows q.jobs q.pending o (any-count r.id q.rows e))
]

refill-IsOnce :
    (by : SortSlice (lower (λ (r : Row). r.created_at))) (id : Text) (fails : Bool) (q : Queue)
    (o : Option (List Fetched))
    → fetch_uploaded by fails q.rows ≡ o
    → IsOnce id q
    → IsOnce id (refill o q)
refill-IsOnce by id fails q none e o = o
refill-IsOnce by id fails q (some fs) e o = record {
  unique = o.unique;
  waiting = o.waiting;
  queued = omega (arith, o.waiting, count-fetched by fails q.rows fs id e);
}

pub tick_of-IsOnce :
    (by : SortSlice (lower (λ (r : Row). r.created_at))) (id : Text) (fails : Bool)
    (fs : List Fetched) (q : Queue)
    → IsOnce id q
    → IsOnce id (tick_of by fails fs q)
unfolding tick_of
tick_of-IsOnce by id fails [] q o = refill-IsOnce by id fails q _ refl o
tick_of-IsOnce by id fails (f ∷ fs) q o = o

-- A row that has just been marked.
pub new_job-AreOnce :
    (id : Text) (f : Fetched) (j : Job) (fs : List Fetched) (rows : List Row) (jobs : List Job)
    → j.submission_id ≡ f.id
    → AreOnce id rows jobs (f ∷ fs)
    → AreOnce id (map (with_status f.id building) rows) (j ∷ jobs) fs
new_job-AreOnce id f j fs rows jobs named o =
    let same = count-has_id-with_status id f.id building rows in
    elim (Bool-cases (same_text f.id id)) [
      | inl e ↦
          let marked : count (waits_with id) (map (with_status f.id building) rows) ≡ 0 =
            subst (λ (i : Text). count (waits_with id) (map (with_status i building) rows) ≡ 0)
              (sym (same_text_eq f.id id e)) (count-waits_with-zero id building rows refl) in
          record {
            unique = omega (arith, o.unique, same);
            waiting = rw (named, e) (ground (arith, o.queued, e, same, marked));
            queued = rw (named, e) (ground (arith, o.queued, e, same));
          }
      | inr e ↦ record {
        unique = omega (arith, o.unique, same);
        waiting =
            rw (named, e)
              (omega (arith, o.waiting, same, count-waits_with-le id f.id building rows refl));
        queued = rw (named, e) (ground (arith, o.queued, e, same));
      }
    ]
