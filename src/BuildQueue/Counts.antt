-- ===== src/BuildQueue/Counts.antt =====
-- How many rows, jobs and pending submissions have an identifier (watcher.go).
use iicpc.Prelude.Sorting.{SortSlice, lower, count-perm}
use iicpc.Prelude.{
  ◌+◌, ◌≤◌, ◌≡◌, refl, Bool, true, false, ◌&&◌, Option, none, some, List, [], ◌∷◌, map, any, filter,
  count, take, if◌then◌else◌, arith, count-take,
}
use iicpc.Artifact.{Text, same_text}
use iicpc.BuildQueue.{
  SubmissionStatus, is_uploaded, Row, Fetched, with_status, scan_next, scan, waits, fetch_uploaded,
  batch_size,
}
use iicpc.BuildQueue.Manifest.{Job}

abbrev pub has_id : Text → Row → Bool
has_id id r = same_text r.id id

abbrev pub waits_with : Text → Row → Bool
waits_with id r = same_text r.id id && waits r

abbrev pub is_for : Text → Job → Bool
is_for id j = same_text j.submission_id id

abbrev pub is_pending : Text → Fetched → Bool
is_pending id f = same_text f.id id

-- A status other than UPLOADED, set under an identifier.
pub count-has_id-with_status :
    (id i : Text) (s : SubmissionStatus) (rs : List Row)
    → count (has_id id) (map (with_status i s) rs) ≡ count (has_id id) rs
count-has_id-with_status id i s [] = refl
count-has_id-with_status id i s (r ∷ rs) = ground (arith, count-has_id-with_status id i s rs)

pub count-waits_with-le :
    (id i : Text) (s : SubmissionStatus) (rs : List Row)
    → is_uploaded s ≡ false
    → count (waits_with id) (map (with_status i s) rs) ≤ count (waits_with id) rs
count-waits_with-le id i s [] h = omega arith
count-waits_with-le id i s (r ∷ rs) h = ground (arith, count-waits_with-le id i s rs, h)

pub count-waits_with-zero :
    (id : Text) (s : SubmissionStatus) (rs : List Row)
    → is_uploaded s ≡ false
    → count (waits_with id) (map (with_status id s) rs) ≡ 0
count-waits_with-zero id s [] h = refl
count-waits_with-zero id s (r ∷ rs) h = ground (arith, count-waits_with-zero id s rs, h)

pub count-waits_with-le-has_id :
    (id : Text) (rs : List Row) → count (waits_with id) rs ≤ count (has_id id) rs
count-waits_with-le-has_id id [] = omega arith
count-waits_with-le-has_id id (r ∷ rs) = ground (arith, count-waits_with-le-has_id id rs)

pub any-count : (id : Text) (rs : List Row) → any (has_id id) rs ≡ false → count (has_id id) rs ≡ 0
any-count id [] h = refl
any-count id (r ∷ rs) h = ground (arith, any-count id rs)

count-filter-waits :
    (id : Text) (rs : List Row) → count (has_id id) (filter waits rs) ≡ count (waits_with id) rs
count-filter-waits id [] = refl
count-filter-waits id (r ∷ rs) = ground (arith, count-filter-waits id rs)

scan_next-some :
    (id i : Text) (o : Option Text) (t : Option (List Fetched)) (fs : List Fetched)
    → scan_next o i t ≡ some fs
    → (gs : List Fetched) × (t ≡ some gs)
      × (count (is_pending id) fs ≡ (if same_text i id then 1 else 0) + count (is_pending id) gs)
scan_next-some id i none t fs h = cc
scan_next-some id i (some uri) none fs h = cc
scan_next-some id i (some uri) (some gs) fs h = (gs, refl, ground (arith, h))

count-scan :
    (id : Text) (rs : List Row) (fs : List Fetched)
    → scan rs ≡ some fs
    → count (is_pending id) fs ≡ count (has_id id) rs
unfolding scan
count-scan id [] fs h = ground (arith, h)
count-scan id (r ∷ rs) fs h =
    let (gs, e, n) = scan_next-some id r.id r.artifact_uri (scan rs) fs h in
    omega (arith, n, count-scan id rs gs e)

-- What is fetched is pending as often, at most, as it waits.
pub count-fetched :
    (by : SortSlice (lower (λ (r : Row). r.created_at))) (fails : Bool) (rs : List Row)
    (fs : List Fetched) (id : Text)
    → fetch_uploaded by fails rs ≡ some fs
    → count (is_pending id) fs ≤ count (waits_with id) rs
unfolding fetch_uploaded
count-fetched by true rs fs id h = cc
count-fetched by false rs fs id h = omega (
  arith,
  count-scan id (take batch_size (by.sort (filter waits rs))) fs h,
  count-take (has_id id) batch_size (by.sort (filter waits rs)),
  count-perm (has_id id) (by.sort-Perm (filter waits rs)),
  count-filter-waits id rs,
)
