-- ===== src/BuildQueue/Marks.antt =====
-- Which rows still wait after submissions are dispatched (watcher.go).
use iicpc.Prelude.{
  ℕ, ◌≤◌, ◌≡◌, refl, ap, sym, subst, Bool, true, false, not, ◌&&◌, ◌||◌, Option, none, some, List,
  [], ◌∷◌, map, any, all, count, length, arith, Bool-cases, inl, inr,
}
use iicpc.Prelude.Sorting.{SortSlice, lower}
use iicpc.Artifact.{Text, same_text}
use iicpc.BuildQueue.{
  SubmissionStatus, building, build_infrastructure_error, is_uploaded, Row, Fetched, Queue, Outage,
  with_status, update_submission_status, spawn_build_job, dispatch, waits, turns, act, act_all,
  turn_of,
}
use iicpc.BuildQueue.Manifest.{build_job_name}
use iicpc.BuildQueue.Counts.{has_id}

-- A row that waits and is not among those fetched.
abbrev pub is_left : List Fetched → Row → Bool
is_left fs r = waits r && not (any (λ f. same_text r.id f.id) fs)

-- A row that waits and whose artifact is NULL.
abbrev pub is_null : Option Text → Bool
is_null none = true
is_null (some uri) = false

abbrev pub is_stuck : Row → Bool
is_stuck r = waits r && is_null r.artifact_uri

count-is_stuck-with_status :
    (i : Text) (s : SubmissionStatus) (rs : List Row)
    → is_uploaded s ≡ false
    → count is_stuck (map (with_status i s) rs) ≤ count is_stuck rs
count-is_stuck-with_status i s [] h = omega arith
count-is_stuck-with_status i s (r ∷ rs) h = ground (arith, count-is_stuck-with_status i s rs, h)

count-is_left-with_status :
    (fs : List Fetched) (i : Text) (s : SubmissionStatus) (rs : List Row)
    → is_uploaded s ≡ false
    → count (is_left fs) (map (with_status i s) rs) ≤ count (is_left fs) rs
count-is_left-with_status fs i s [] h = omega arith
count-is_left-with_status fs i s (r ∷ rs) h = ground (arith, count-is_left-with_status fs i s rs, h)

count-is_left-marked :
    (f : Fetched) (fs : List Fetched) (rs : List Row)
    → count (is_left fs) (map (with_status f.id building) rs) ≤ count (is_left (f ∷ fs)) rs
count-is_left-marked f fs [] = omega arith
count-is_left-marked f fs (r ∷ rs) = ground (arith, count-is_left-marked f fs rs)

count-is_left-absent :
    (f : Fetched) (fs : List Fetched) (rs : List Row)
    → any (has_id f.id) rs ≡ false
    → count (is_left fs) rs ≤ count (is_left (f ∷ fs)) rs
count-is_left-absent f fs [] h = omega arith
count-is_left-absent f fs (r ∷ rs) h = ground (arith, count-is_left-absent f fs rs)

-- What a change of a queue leaves: of the rows beside some submissions, and of those that are stuck.
abbrev pub Keeps : List Fetched → ℕ → ℕ → List Fetched → Queue → Type 0
Keeps fs left stuck pending q =
    (count (is_left fs) q.rows ≤ left) × (count is_stuck q.rows ≤ stuck) × (q.pending ≡ pending)

update-counts :
    (fs : List Fetched) (fails : Bool) (i : Text) (s : SubmissionStatus) (rs : List Row)
    → is_uploaded s ≡ false
    → (count (is_left fs) (update_submission_status fails i s rs).0 ≤ count (is_left fs) rs)
      × (count is_stuck (update_submission_status fails i s rs).0 ≤ count is_stuck rs)
unfolding update_submission_status
update-counts fs fails i s rs h = elim (Bool-cases (fails || not (any (has_id i) rs))) [
  | inl e ↦ rw e (omega arith, omega arith)
  | inr e ↦ rw e (count-is_left-with_status fs i s rs h, count-is_stuck-with_status i s rs h)
]

spawn-Keeps :
    (fs : List Fetched) (w : Outage) (f : Fetched) (q : Queue)
    → Keeps fs (count (is_left fs) q.rows) (count is_stuck q.rows) q.pending (spawn_build_job w f q)
unfolding spawn_build_job
spawn-Keeps fs w f q =
    elim (Bool-cases (w.create_fails || any (λ j. same_text j.name (build_job_name f.id)) q.jobs)) [
      | inl e ↦
          let (left, stuck) =
            update-counts fs w.report_fails f.id build_infrastructure_error q.rows refl in
          rw e (left, stuck, refl)
      | inr e ↦ rw e (omega arith, omega arith, refl)
    ]

pub dispatch-Keeps :
    (fs : List Fetched) (w : Outage) (f : Fetched) (q : Queue)
    → w.mark_fails ≡ false
    → Keeps fs (count (is_left (f ∷ fs)) q.rows) (count is_stuck q.rows) q.pending (dispatch w f q)
unfolding dispatch update_submission_status
dispatch-Keeps fs w f q works = elim (Bool-cases (w.mark_fails || not (any (has_id f.id) q.rows))) [
  | inl e ↦ rw e (count-is_left-absent f fs q.rows (ground (arith, e, works)), omega arith, refl)
  | inr e ↦
      let marked = map (with_status f.id building) q.rows in
      let (left, stuck, same) = spawn-Keeps fs w f (record q { rows = marked }) in
      rw e (
        omega (arith, left, count-is_left-marked f fs q.rows),
        omega (arith, stuck, count-is_stuck-with_status f.id building q.rows refl),
        same,
      )
]

-- The turns of a poll, as many as there are submissions or more.
pub turns-Keeps :
    (by : SortSlice (lower (λ (r : Row). r.created_at))) (ws : List Outage) (fs : List Fetched)
    (q : Queue)
    → q.pending ≡ fs
    → length fs ≤ length ws
    → all (λ w. not w.mark_fails) ws ≡ true
    → Keeps [] (count (is_left fs) q.rows) (count is_stuck q.rows) [] (act_all by (map turns ws) q)
unfolding act_all act turn_of
turns-Keeps by [] [] q p n h = (omega arith, omega arith, p)
turns-Keeps by [] (f ∷ fs) q p n h = absurd (omega (arith, n))
turns-Keeps by (w ∷ ws) [] q p n h =
    subst
      (λ (s : Queue).
        Keeps [] (count (is_left []) q.rows) (count is_stuck q.rows) []
          (act_all by (map turns ws) s))
      (sym (ap (λ (fs : List Fetched). turn_of w fs q) p))
      (turns-Keeps by ws [] q p (omega arith) (ground (arith, h)))
turns-Keeps by (w ∷ ws) (f ∷ fs) q p n h =
    let next = dispatch w f (record q { pending = fs }) in
    let (left, stuck, same) =
      dispatch-Keeps fs w f (record q { pending = fs }) (ground (arith, h)) in
    let (left', stuck', same') =
      turns-Keeps by ws fs next same (omega (arith, n)) (ground (arith, h)) in
    subst
      (λ (s : Queue).
        Keeps [] (count (is_left (f ∷ fs)) q.rows) (count is_stuck q.rows) []
          (act_all by (map turns ws) s))
      (sym (ap (λ (gs : List Fetched). turn_of w gs q) p))
      (omega (arith, left, left'), omega (arith, stuck, stuck'), same')
