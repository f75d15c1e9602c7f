-- ===== src/BuildQueue/Drains.antt =====
-- That the queue runs empty (watcher.go).
use iicpc.Prelude.{
  ℕ, suc, zero, ◌-◌, ◌*◌, ◌≤◌, ◌≡◌, refl, ap, sym, subst, ◌∙◌, Bool, true, false, not, ◌||◌, Option,
  some, List, [], ◌∷◌, ◌++◌, map, any, all, All, filter, take, count, length, length-filter,
  count-le, arith, Option-cases, inl, inr, count-take, length-take-le,
}
use iicpc.Prelude.Sorting.{SortSlice, lower, count-perm, length-perm}
use iicpc.Artifact.{Text, same_text}
use iicpc.Artifact.Texts.{same_text_refl}
use iicpc.BuildQueue.{
  Row, Fetched, Queue, Outage, waits, batch_size, scan_next, scan, fetch_uploaded, refill, tick_of,
  Action, ticks, turns, act, act_all,
}
use iicpc.BuildQueue.Marks.{is_left, is_null, is_stuck, turns-Keeps}

abbrev has_null : Row → Bool
has_null r = is_null r.artifact_uri

-- A row is not among some others, by its identifier.
abbrev is_apart : List Row → Row → Bool
is_apart us r = not (any (λ u. same_text r.id u.id) us)

abbrev Scans : List Row → List Fetched → Type 0
Scans rs fs =
    (length fs ≡ length rs)
    × ((i : Text) → any (λ f. same_text i f.id) fs ≡ any (λ u. same_text i u.id) rs)

scan-Scans :
    (rs : List Row)
    → count has_null rs ≡ 0
    → (fs : List Fetched) × (scan rs ≡ some fs) × Scans rs fs
unfolding scan
scan-Scans [] h = ([], refl, (refl, λ i. refl))
scan-Scans (r ∷ rs) h =
    let (fs, e, (n, same)) = scan-Scans rs (ground (arith, h)) in
    elim (Option-cases r.artifact_uri) [
      | inl missing ↦ absurd (ground (arith, h, missing))
      | inr (uri, has) ↦ (
        record { id = r.id; artifact_uri = uri } ∷ fs,
        ap (λ (o : Option Text). scan_next o r.id (scan rs)) has ∙ ap (scan_next (some uri) r.id) e,
        (ap suc n, λ i. ap (λ b. same_text i r.id || b) (same i)),
      )
    ]

-- What passes a test stands behind the elements that do not.
count-behind {ℓ} :
    {A : Type ℓ} (p : A → Bool) (n : ℕ) (xs : List A)
    → count p (take n xs) ≡ 0
    → count p xs ≤ length xs - n
count-behind p zero xs h = omega (arith, count-le p xs)
count-behind p (suc n) [] h = omega arith
count-behind p (suc n) (x ∷ xs) h = ground (arith, h, count-behind p n xs)

apart_none :
    (rs us : List Row)
    → ((i : Text) → any (λ u. same_text i u.id) rs ≡ true → any (λ u. same_text i u.id) us ≡ true)
    → count (is_apart us) rs ≡ 0
apart_none [] us h = refl
apart_none (r ∷ rs) us h =
    let here : any (λ u. same_text r.id u.id) us ≡ true =
      h r.id (ground (arith, same_text_refl r.id)) in
    ground (arith, here, apart_none rs us (λ i e. h i (ground (arith, e))))

count-is_left :
    (fs : List Fetched) (us rows : List Row)
    → ((i : Text) → any (λ f. same_text i f.id) fs ≡ any (λ u. same_text i u.id) us)
    → count (is_left fs) rows ≡ count (is_apart us) (filter waits rows)
count-is_left fs us [] h = refl
count-is_left fs us (r ∷ rows) h = ground (arith, h r.id, count-is_left fs us rows h)

count-has_null-waits : (rows : List Row) → count has_null (filter waits rows) ≡ count is_stuck rows
count-has_null-waits [] = refl
count-has_null-waits (r ∷ rows) = ground (arith, count-has_null-waits rows)

-- What a poll fetches: some submissions, beside which as many fewer rows wait.
fetch-drains :
    (by : SortSlice (lower (λ (r : Row). r.created_at))) (rows : List Row)
    → count is_stuck rows ≡ 0
    → (fs : List Fetched) × (fetch_uploaded by false rows ≡ some fs)
      × (length fs ≤ batch_size)
      × (count (is_left fs) rows ≤ count waits rows - batch_size)
unfolding fetch_uploaded
fetch-drains by rows h =
    let sorted = by.sort (filter waits rows) in
    let rearranged = by.sort-Perm (filter waits rows) in
    let none_null : count has_null (take batch_size sorted) ≡ 0 = omega (
      arith,
      h,
      count-take has_null batch_size sorted,
      count-perm has_null rearranged,
      count-has_null-waits rows,
    ) in
    let (fs, e, (n, same)) = scan-Scans (take batch_size sorted) none_null in
    (
      fs,
      e,
      omega (arith, n, length-take-le batch_size sorted),
      omega (
        arith,
        count-is_left fs (take batch_size sorted) rows same,
        count-perm (is_apart (take batch_size sorted)) rearranged,
        count-behind (is_apart (take batch_size sorted)) batch_size sorted
            (apart_none (take batch_size sorted) (take batch_size sorted) (λ i e. e)),
        length-perm rearranged,
        length-filter waits rows,
      ),
    )

act_all-append :
    (by : SortSlice (lower (λ (r : Row). r.created_at))) (xs ys : List Action) (q : Queue)
    → act_all by (xs ++ ys) q ≡ act_all by ys (act_all by xs q)
unfolding act_all
act_all-append by [] ys q = refl
act_all-append by (x ∷ xs) ys q = act_all-append by xs ys (act by x q)

-- A round is a tick whose query works, and ten turns or more that mark their rows.
abbrev pub IsRound : List Outage → Type 0
IsRound ws = (batch_size ≤ length ws) × (all (λ w. not w.mark_fails) ws ≡ true)

abbrev pub rounds : List (List Outage) → List Action
rounds [] = []
rounds (ws ∷ wss) = ticks false ∷ (map turns ws ++ rounds wss)

count-is_left-none : (rows : List Row) → count (is_left []) rows ≡ count waits rows
count-is_left-none [] = refl
count-is_left-none (r ∷ rows) = ground (arith, count-is_left-none rows)

abbrev Drained : ℕ → Queue → Type 0
Drained n q = (count waits q.rows ≤ n) × (count is_stuck q.rows ≡ 0) × (q.pending ≡ [])

round-Drained :
    (by : SortSlice (lower (λ (r : Row). r.created_at))) (ws : List Outage) (q : Queue)
    → IsRound ws
    → count is_stuck q.rows ≡ 0
    → q.pending ≡ []
    → Drained (count waits q.rows - batch_size) (act_all by (ticks false ∷ map turns ws) q)
unfolding act_all act tick_of
round-Drained by ws q (enough, works) stuck idle =
    let (fs, fetched, few, drained) = fetch-drains by q.rows stuck in
    let filled = record q { pending = fs } in
    let (left, stuck', idle') =
      turns-Keeps by ws fs filled refl (omega (arith, few, enough)) works in
    subst (λ (s : Queue). Drained (count waits q.rows - batch_size) (act_all by (map turns ws) s))
      (sym (ap (λ (gs : List Fetched). tick_of by false gs q) idle ∙ ap (λ o. refill o q) fetched))
      (
        omega (arith, left, drained, count-is_left-none (act_all by (map turns ws) filled).rows),
        omega (arith, stuck, stuck'),
        idle',
      )

-- Let the queue stand between two polls, and let no submission that waits have a NULL for its artifact.
-- Then each poll whose query works and which marks its rows, whatever becomes of the jobs, leaves ten
-- fewer waiting, until none waits; and the queue stands between two polls again.
pub rounds-drain :
    (by : SortSlice (lower (λ (r : Row). r.created_at))) (wss : List (List Outage)) (q : Queue)
    → All IsRound wss
    → count is_stuck q.rows ≡ 0
    → q.pending ≡ []
    → let q' = act_all by (rounds wss) q in
      (count waits q'.rows ≤ count waits q.rows - batch_size * length wss) × (q'.pending ≡ [])
unfolding act_all
rounds-drain by [] q r stuck idle = (omega arith, idle)
rounds-drain by (ws ∷ wss) q (r, rs) stuck idle =
    let (drained, stuck', idle') = round-Drained by ws q r stuck idle in
    let next = act_all by (ticks false ∷ map turns ws) q in
    let (drained', idle'') = rounds-drain by wss next rs stuck' idle' in
    rw (act_all-append by (map turns ws) (rounds wss) (act by (ticks false) q))
      (omega (arith, drained, drained'), idle'')
