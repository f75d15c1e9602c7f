-- ===== src/Tps/Window.antt =====
-- What `MaxTPS` reports, in terms of the messages that were recorded.
use native.Mathlib.Nat.{zero-add}
use iicpc.Prelude.{
  ℕ, ◌+◌, ◌≤◌, ◌≡◌, refl, ◌⊎◌, inl, inr, Bool, false, List, [], ◌∷◌, ltb, ◌==◌, if◌then◌else◌, All,
  arith, count, ◌∙◌, Bool-cases, ◌||◌, not, subst, ==_iff, sym,
}
use iicpc.Tps.{
  Buckets, record_second, scan_buckets, max_tps, Event, records, reads, after_event, after_all,
}

-- The count in the bucket of a second.
pub bucket : ℕ → Buckets → ℕ
bucket sec [] = 0
bucket sec ((s, c) ∷ bs) = if s == sec then c else bucket sec bs

abbrev pub is_message : ℕ → Event → Bool
is_message sec (records s) = s == sec
is_message sec (reads now) = false

abbrev pub NotAfter : ℕ → Event → Type 0
NotAfter now (records s) = Unit
NotAfter now (reads t) = t ≤ now

-- Different keys.
abbrev pub IsMap : Buckets → Type 0
IsMap [] = Unit
IsMap ((s, c) ∷ bs) = All (λ (b : ℕ × ℕ). (b.0 == s) ≡ false) bs × IsMap bs

bucket-record_second :
    (sec s : ℕ) (bs : Buckets)
    → bucket s (record_second sec bs) ≡ bucket s bs + (if sec == s then 1 else 0)
unfolding bucket record_second
bucket-record_second sec s [] = ground arith
bucket-record_second sec s ((t, c) ∷ bs) = ground (arith, bucket-record_second sec s bs)

-- A reading keeps the buckets of the last five seconds.
bucket-scan_buckets :
    (now max s : ℕ) (bs : Buckets)
    → now ≤ s + 4
    → bucket s (scan_buckets now max bs).1 ≡ bucket s bs
unfolding bucket scan_buckets
bucket-scan_buckets now max s [] h = refl
bucket-scan_buckets now max s ((t, c) ∷ bs) h = ground (
  arith,
  bucket-scan_buckets now (if ltb (t + 4) now then max else if ltb max c then c else max) s bs,
)

bucket-after_event :
    (now s : ℕ) (bs : Buckets) (e : Event)
    → now ≤ s + 4
    → NotAfter now e
    → bucket s (after_event bs e) ≡ bucket s bs + (if is_message s e then 1 else 0)
unfolding after_event max_tps
bucket-after_event now s bs (records t) h n = bucket-record_second t s bs
bucket-after_event now s bs (reads t) h n = bucket-scan_buckets t 0 s bs (omega arith) ∙ omega arith

bucket-after_all :
    (now s : ℕ) (bs : Buckets) (es : List Event)
    → now ≤ s + 4
    → All (NotAfter now) es
    → bucket s (after_all bs es) ≡ bucket s bs + count (is_message s) es
unfolding after_all
bucket-after_all now s bs [] h n = omega arith
bucket-after_all now s bs (e ∷ es) h n =
    omega (
      arith,
      bucket-after_all now s (after_event bs e) es h n.1,
      bucket-after_event now s bs e h n.0,
    )

-- The reading is at least the start value and every recent bucket, and is one of these.
scan_buckets-ge :
    (now max s : ℕ) (bs : Buckets)
    → now ≤ s + 4
    → (max ≤ (scan_buckets now max bs).0) × (bucket s bs ≤ (scan_buckets now max bs).0)
unfolding bucket scan_buckets
scan_buckets-ge now max s [] h = (omega arith, omega arith)
scan_buckets-ge now max s ((t, c) ∷ bs) h = ground (
  arith,
  scan_buckets-ge now (if ltb (t + 4) now then max else if ltb max c then c else max) s bs h,
)

absent : (s : ℕ) (bs : Buckets) → All (λ (b : ℕ × ℕ). (b.0 == s) ≡ false) bs → bucket s bs ≡ 0
unfolding bucket
absent s [] a = refl
absent s ((t, c) ∷ bs) a = ground (arith, absent s bs a.1)

record_second-All :
    (sec s : ℕ) (bs : Buckets)
    → (sec == s) ≡ false
    → All (λ (b : ℕ × ℕ). (b.0 == s) ≡ false) bs
    → All (λ (b : ℕ × ℕ). (b.0 == s) ≡ false) (record_second sec bs)
unfolding record_second
record_second-All sec s [] h a = (h, tt)
record_second-All sec s ((t, c) ∷ bs) h a = ground (arith, record_second-All sec s bs h a.1)

record_second-IsMap : (sec : ℕ) (bs : Buckets) → IsMap bs → IsMap (record_second sec bs)
unfolding record_second
record_second-IsMap sec [] m = (tt, tt)
record_second-IsMap sec ((t, c) ∷ bs) m =
    ground (arith, record_second-IsMap sec bs m.1, record_second-All sec t bs)

scan_buckets-All :
    (P : ℕ × ℕ → Type 0) (now max : ℕ) (bs : Buckets) → All P bs → All P (scan_buckets now max bs).1
unfolding scan_buckets
scan_buckets-All P now max [] a = tt
scan_buckets-All P now max ((t, c) ∷ bs) a =
    let rest =
      scan_buckets-All P now (if ltb (t + 4) now then max else if ltb max c then c else max) bs
        a.1 in
    elim (Bool-cases (ltb (t + 4) now)) [
      | inl e ↦ rw e (rw e at rest)
      | inr e ↦ rw e (a.0, rw e at rest)
    ]

scan_buckets-IsMap : (now max : ℕ) (bs : Buckets) → IsMap bs → IsMap (scan_buckets now max bs).1
unfolding scan_buckets
scan_buckets-IsMap now max [] m = tt
scan_buckets-IsMap now max ((t, c) ∷ bs) m =
    let max' : ℕ = if ltb (t + 4) now then max else if ltb max c then c else max in
    ground (
      arith,
      scan_buckets-IsMap now max' bs m.1,
      scan_buckets-All (λ (b : ℕ × ℕ). (b.0 == t) ≡ false) now max' bs m.0,
    )

after_event-IsMap : (bs : Buckets) (e : Event) → IsMap bs → IsMap (after_event bs e)
unfolding after_event max_tps
after_event-IsMap bs (records sec) m = record_second-IsMap sec bs m
after_event-IsMap bs (reads now) m = scan_buckets-IsMap now 0 bs m

after_all-IsMap : (bs : Buckets) (es : List Event) → IsMap bs → IsMap (after_all bs es)
unfolding after_all
after_all-IsMap bs [] m = m
after_all-IsMap bs (e ∷ es) m = after_all-IsMap (after_event bs e) es (after_event-IsMap bs e m)

scan_buckets-attained :
    (now max : ℕ) (bs : Buckets)
    → IsMap bs
    → ((scan_buckets now max bs).0 ≡ max)
      ⊎ ((s : ℕ) × (now ≤ s + 4) × (bucket s bs ≡ (scan_buckets now max bs).0))
unfolding scan_buckets bucket
scan_buckets-attained now max [] m = inl refl
scan_buckets-attained now max ((t, c) ∷ bs) m =
    let max' : ℕ = if ltb (t + 4) now then max else if ltb max c then c else max in
    elim (scan_buckets-attained now max' bs m.1) [
      | inl e ↦ elim (Bool-cases (ltb (t + 4) now || not (ltb max c))) [
        | inl old ↦ inl (ground arith)
        | inr new ↦ inr (t, ground arith, ground arith)
      ]
      | inr (s, near, e) ↦ elim (Bool-cases (t == s)) [
        | inr other ↦ inr (s, near, ground arith)
        | inl same ↦ inl (
            ground (
              arith,
              absent s bs (
                  subst (λ k. All (λ (b : ℕ × ℕ). (b.0 == k) ≡ false) bs) ((==_iff t s).0 same)
                    m.0),
              scan_buckets-ge now max' s bs near,
            ))
      ]
    ]

recent_only :
    (now max : ℕ) (bs : Buckets) → All (λ (b : ℕ × ℕ). now ≤ b.0 + 4) (scan_buckets now max bs).1
unfolding scan_buckets
recent_only now max [] = tt
recent_only now max ((t, c) ∷ bs) =
    ground
      (arith, recent_only now (if ltb (t + 4) now then max else if ltb max c then c else max) bs)

-- Let the window start empty, and no reading so far be later than `now`. Then a reading at `now`
-- returns the highest number of messages recorded for one of the seconds from `now - 4` on: no such
-- second has more, and one has as many unless the result is 0. What the reading leaves are buckets
-- of these seconds only.
pub max_tps-peak :
    (now : ℕ) (es : List Event)
    → All (NotAfter now) es
    → let r = max_tps now (after_all [] es) in
      ((s : ℕ) → now ≤ s + 4 → count (is_message s) es ≤ r.0)
      × ((r.0 ≡ 0) ⊎ ((s : ℕ) × (now ≤ s + 4) × (count (is_message s) es ≡ r.0)))
      × All (λ (b : ℕ × ℕ). now ≤ b.0 + 4) r.1
unfolding max_tps bucket
max_tps-peak now es h =
    let bs : Buckets = after_all [] es in
    (
      λ s near. omega (arith, scan_buckets-ge now 0 s bs near, counted s near),
      elim (scan_buckets-attained now 0 bs (after_all-IsMap [] es tt)) [
        | inl zero_tps ↦ inl zero_tps
        | inr (s, near, e) ↦ inr (s, near, sym (counted s near) ∙ e)
      ],
      recent_only now 0 bs,
    )
  where
    counted : (s : ℕ) → now ≤ s + 4 → bucket s (after_all [] es) ≡ count (is_message s) es
    counted s near = bucket-after_all now s [] es near h ∙ zero-add (count (is_message s) es)
