-- ===== src/Tests/Uploads.antt =====
-- A sorted set made of a sorted list, and the uploads of one contestant (limiter.go).
use mathlib.Core.List.{Perm}
use iicpc.Prelude.{
  ◌==◌, count, count-le, subst, ◌∙◌, sym, ℕ, ◌+◌, ◌*◌, ◌/◌, ◌≡◌, refl, ◌≤◌, Bool, true, false, not,
  Option, none, some, List, [], ◌∷◌, length, filter, All, String, leb, Bool-cases, inl, inr, arith,
}
use iicpc.Prelude.Sorting.{SortSlice, IsSorted, by_key, lower, count-perm, length-perm}
use iicpc.UploadLimit.{SortedSet, score, Outage, Key, allow, allowed, limited, pruned}
use iicpc.UploadLimit.Window.{Call, after_calls, AreNew, fresh}
use iicpc.UploadLimit.Retry.{retry-allowed}

module _ {ℓ} {A : Type ℓ} (less : A → A → Bool) where
  pub filter-All : (P : A → Type 0) (p : A → Bool) (xs : List A) → All P xs → All P (filter p xs)
  filter-All P p [] h = tt
  filter-All P p (x ∷ xs) h = elim (Bool-cases (p x)) [
    | inl e ↦ rw e (h.0, filter-All P p xs h.1)
    | inr e ↦ rw e (filter-All P p xs h.1)
  ]

  pub filter-IsSorted :
      (p : A → Bool) (xs : List A) → IsSorted less xs → IsSorted less (filter p xs)
  filter-IsSorted p [] h = tt
  filter-IsSorted p (x ∷ xs) h = elim (Bool-cases (p x)) [
    | inl e ↦ rw e (filter-All (λ y. less y x ≡ false) p xs h.0, filter-IsSorted p xs h.1)
    | inr e ↦ rw e (filter-IsSorted p xs h.1)
  ]

abbrev pub by_score : SortSlice (lower score)
by_score = by_key score

abbrev pub first_score : List (ℕ × String) → Option ℕ
first_score [] = none
first_score (e ∷ es) = some (score e)

-- A rounding, with its laws.
abbrev pub IsRounding : (ℕ → ℕ) → Type 0
IsRounding f =
    ((x y : ℕ) → x ≤ y → f x ≤ f y)
    × ((x : ℕ) → (x ≤ f x + 512) × (f x ≤ x + 512))
    × ((x : ℕ) → f (f x) ≡ f x)

abbrev pub AreRounded : (ℕ → ℕ) → List (ℕ × String) → Type 0
AreRounded f = All (λ e. f (score e) ≡ score e)

-- A sorted list whose scores are rounded.
abbrev pub SortedList : (ℕ → ℕ) → Type 0
SortedList f = (xs : List (ℕ × String)) × IsSorted (lower score) xs × AreRounded f xs

abbrev is_whole : (ℕ → ℕ) → ℕ × String → Bool
is_whole f e = f (score e) == score e

count-AreRounded :
    (f : ℕ → ℕ) (xs : List (ℕ × String)) → AreRounded f xs → count (is_whole f) xs ≡ length xs
count-AreRounded f [] h = refl
count-AreRounded f (x ∷ xs) h = ground (arith, h.0, count-AreRounded f xs h.1)

counted-AreRounded :
    (f : ℕ → ℕ) (xs : List (ℕ × String)) → count (is_whole f) xs ≡ length xs → AreRounded f xs
counted-AreRounded f [] h = tt
counted-AreRounded f (x ∷ xs) h = (
  ground (arith, h, count-le (is_whole f) xs),
  counted-AreRounded f xs (ground (arith, h, count-le (is_whole f) xs)),
)

pub sorted-AreRounded :
    (f : ℕ → ℕ) (xs ys : List (ℕ × String)) → Perm ys xs → AreRounded f xs → AreRounded f ys
sorted-AreRounded f xs ys p h =
    counted-AreRounded f ys
      (count-perm (is_whole f) p ∙ count-AreRounded f xs h ∙ sym (length-perm p))

abbrev pub sorted_list_of : (f : ℕ → ℕ) → IsRounding f → SortedSet
sorted_list_of f (mono, near, stable) = record {
  round = f;
  round-mono = mono;
  round-near = λ x h. near x;
  Set = SortedList f;
  entries = λ s. s.0;
  ascending = λ s. s.1;
  empty = ([], tt, tt);
  entries-empty = refl;
  remove_range = λ max s. (
    filter (λ e. not (leb (score e) (f max))) s.0,
    filter-IsSorted (lower score) (λ e. not (leb (score e) (f max))) s.0 s.1,
    filter-All (lower score) (λ e. f (score e) ≡ score e) (λ e. not (leb (score e) (f max))) s.0
        s.2,
  );
  entries-remove_range = λ max s. refl;
  card = λ s. length s.0;
  card-length = λ s. refl;
  oldest = λ s. first_score s.0;
  oldest-head = λ s e es h. (score e, rw h refl, (subst (AreRounded f) h s.2).0);
  add = λ now m s. (
    by_score.sort ((f now, m) ∷ s.0),
    by_score.sort-IsSorted ((f now, m) ∷ s.0),
    sorted-AreRounded f ((f now, m) ∷ s.0) (by_score.sort ((f now, m) ∷ s.0))
        (by_score.sort-Perm ((f now, m) ∷ s.0)) (stable now, s.2),
  );
  entries-add = λ now m s h. by_score.sort-Perm ((f now, m) ∷ s.0);
}

-- Scores that need no rounding.
pub same-IsRounding : IsRounding (λ x. x)
same-IsRounding = ((λ x y h. h), (λ x. (omega arith, omega arith)), (λ x. refl))

abbrev pub sorted_list : SortedSet
sorted_list = sorted_list_of (λ x. x) same-IsRounding

-- The nearest of the multiples of 1024, as doubles between 2^62 and 2^63 are.
abbrev nearest : ℕ → ℕ
nearest x = (x + 512) / 1024 * 1024

nearest-IsRounding : IsRounding nearest
nearest-IsRounding =
    ((λ x y h. omega (arith, h)), (λ x. (omega arith, omega arith)), (λ x. omega arith))

abbrev doubles : SortedSet
doubles = sorted_list_of nearest nearest-IsRounding

abbrev pub fine : Outage
fine = record { script_fails = false; score_unreadable = false }

abbrev call : ℕ → String → Call
call now m = record { outage = fine; now = now; member = m }

-- Five uploads, one of them while the script fails, and a sixth.
abbrev calls : List Call
calls =
    call 10 "a"
    ∷ call 20 "b"
    ∷ record (call 25 "x") { outage = record fine { script_fails = true } }
    ∷ call 30 "c"
    ∷ call 40 "d"
    ∷ call 50 "e"
    ∷ call 60 "f"
    ∷ []

five_allowed :
    (after_calls sorted_list (fresh sorted_list, []) calls).1 ≡ 50 ∷ 40 ∷ 30 ∷ 20 ∷ 10 ∷ []
unfolding after_calls by_key allow
five_allowed = refl

calls-AreNew : AreNew sorted_list (fresh sorted_list) calls
unfolding pruned allow by_key
calls-AreNew = (refl, (refl, (refl, (refl, (refl, (refl, (refl, tt)))))))

abbrev left : Key sorted_list
left = (after_calls sorted_list (fresh sorted_list, []) calls).0

refused : (allow sorted_list fine 70 "g" left).1 ≡ limited 3600
unfolding allow after_calls by_key
refused = refl

retry-allowed_example :
    (1 ≤ 3600)
    × ((allow sorted_list fine 3_600_000_000_071 "g" (allow sorted_list fine 70 "g" left).0).1
        ≡ allowed)
retry-allowed_example =
    retry-allowed sorted_list calls fine fine 70 3600 3_600_000_000_071 "g" "g" calls-AreNew refused
      (omega arith) refl

-- Five uploads, and a sixth 999 nanoseconds less than 3600 seconds after the first.
abbrev early_calls : List Call
early_calls =
    call 7_372_800_000_500 "a"
    ∷ call 7_372_800_000_600 "b"
    ∷ call 7_372_800_000_600 "c"
    ∷ call 7_372_800_000_600 "d"
    ∷ call 7_372_800_000_600 "e"
    ∷ call 10_972_799_999_501 "f"
    ∷ []

six_allowed :
    (after_calls doubles (fresh doubles, []) early_calls).1
    ≡ 10_972_799_999_501 ∷ 7_372_800_000_600 ∷ 7_372_800_000_600 ∷ 7_372_800_000_600
      ∷ 7_372_800_000_600 ∷ 7_372_800_000_500 ∷ []
unfolding after_calls by_key allow
six_allowed = refl
