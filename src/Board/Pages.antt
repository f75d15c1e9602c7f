-- ===== src/Board/Pages.antt =====
-- The pages of the leaderboard, one after the other (handler/leaderboard.go).
use iicpc.Prelude.{
  ℕ, zero, suc, ◌+◌, ◌-◌, ◌*◌, ◌≤◌, ◌≡◌, refl, sym, ap, ◌∙◌, Option, List, [], ◌∷◌, ◌++◌, String,
  map, length, take, drop, arith, Option-cases, inl, inr, length-take-le,
}
use iicpc.Board.{
  Member, Standings, Numbers, uint64, LeaderboardEntry, rank_at, bare_entry, enrich, entries_from,
  fetch_from_redis,
}

-- The ranks from a first one on.
abbrev pub ranked : ℕ → List Member → List (ℕ × Member)
ranked n [] = []
ranked n (m ∷ ms) = (n, m) ∷ ranked (n + 1) ms

zero_add : (n : ℕ) → 0 + n ≡ n
zero_add n = omega arith

add_zero : (n : ℕ) → n + 0 ≡ n
add_zero n = omega arith

take-ranked : (n k : ℕ) (ms : List Member) → ranked n (take k ms) ≡ take k (ranked n ms)
take-ranked n zero ms = refl
take-ranked n (suc k) [] = refl
take-ranked n (suc k) (m ∷ ms) = ap (λ xs. (n, m) ∷ xs) (take-ranked (n + 1) k ms)

drop-ranked : (n k : ℕ) (ms : List Member) → ranked (n + k) (drop k ms) ≡ drop k (ranked n ms)
drop-ranked n zero ms = ap (λ m. ranked m ms) (add_zero n)
drop-ranked n (suc k) [] = refl
drop-ranked n (suc k) (m ∷ ms) =
    let shift : n + suc k ≡ n + 1 + k = omega arith in rw shift (drop-ranked (n + 1) k ms)

module _ {A : Type 0} where
  take-nil : (n : ℕ) → take {A = A} n [] ≡ []
  take-nil zero = refl
  take-nil (suc n) = refl

  take-split : (m k : ℕ) (xs : List A) → take m xs ++ take k (drop m xs) ≡ take (m + k) xs
  take-split zero k xs = ap (λ n. take n xs) (sym (zero_add k))
  take-split (suc m) k [] = take-nil k ∙ sym (take-nil (suc m + k))
  take-split (suc m) k (x ∷ xs) =
      let step : suc m + k ≡ suc (m + k) = omega arith in
      rw step (ap (λ ys. x ∷ ys) (take-split m k xs))

map-append : {A B : Type 0} (f : A → B) (xs ys : List A) → map f (xs ++ ys) ≡ map f xs ++ map f ys
map-append f [] ys = refl
map-append f (x ∷ xs) ys = ap (λ zs. f x ∷ zs) (map-append f xs ys)

none_yet : (z : ℕ) → 0 ≡ 0 * z
none_yet z = omega arith

back : (p : ℕ) → p + 1 - 1 ≡ p
back p = omega arith

span : (a z : ℕ) → 1 ≤ z → a + z - 1 + 1 - a ≡ z
span a z h = omega (arith, h)

one_more : (a : ℕ) → a + 0 + 1 ≡ 1 + a
one_more a = omega arith

uint64_small : (n : ℕ) → n ≤ 4_294_967_295 → uint64 n ≡ n
uint64_small n h = omega (arith, h)

module _ (redis : Standings) (numbers : Numbers) where
  open redis use {Board, ranking, rev_range}

  -- What a page shows of an entry that the order decides.
  abbrev pub place_of : LeaderboardEntry redis numbers → ℕ × Member
  place_of e = (e.rank, (e.contestant_id, e.composite_score))

  rank_at-in :
      (offset i : ℕ)
      → offset + i + 1 ≤ 4_294_967_295
      → rank_at redis numbers offset i ≡ offset + i + 1
  unfolding rank_at
  rank_at-in offset i h = ground (arith, h)

  places :
      (metas : String → Option (String → String)) (offset i : ℕ) (ms : List Member)
      → offset + i + length ms ≤ 4_294_967_295
      → map place_of (entries_from redis numbers metas offset i ms) ≡ ranked (offset + i + 1) ms
  unfolding entries_from enrich bare_entry
  places metas offset i [] h = refl
  places metas offset i ((c, v) ∷ ms) h =
      let first = rank_at-in offset i (omega (arith, h)) in
      let shift : offset + i + 1 + 1 ≡ offset + (i + 1) + 1 = omega arith in
      let later = places metas offset (i + 1) ms (omega (arith, h)) in
      elim (Option-cases (metas c)) [
        | inl missing ↦
            rw (entries_from, missing, first, shift)
              (ap (λ xs. (offset + i + 1, (c, v)) ∷ xs) later)
        | inr (meta, there) ↦
            rw (entries_from, there, first, shift) (ap (λ xs. (offset + i + 1, (c, v)) ∷ xs) later)
      ]

  -- The page after the first p pages, each of z entries.
  next_page :
      (metas : String → Option (String → String)) (p z : ℕ) (b : Board)
      → 1 ≤ z
      → p * z + z ≤ 4_294_967_295
      → map place_of (fetch_from_redis redis numbers metas (p + 1) z b).0
        ≡ take z (drop (p * z) (ranked 1 (ranking b)))
  unfolding fetch_from_redis
  next_page metas p z b some_entries fits =
      let start : uint64 ((p + 1 - 1) * z) ≡ p * z =
        ap (λ n. uint64 (n * z)) (back p) ∙ uint64_small (p * z) (omega (arith, fits)) in
      let stop : uint64 (p * z + z - 1) ≡ p * z + z - 1 =
        uint64_small (p * z + z - 1) (omega (arith, fits)) in
      let members : rev_range (p * z) (p * z + z - 1) b ≡ take z (drop (p * z) (ranking b)) =
        redis.rev_range-slice (p * z) (p * z + z - 1) b (omega (arith, some_entries))
          (omega (arith, fits))
        ∙ ap (λ n. take n (drop (p * z) (ranking b))) (span (p * z) z some_entries) in
      rw (start, stop, members)
        (places metas (p * z) 0 (take z (drop (p * z) (ranking b)))
            (omega (arith, fits, length-take-le z (drop (p * z) (ranking b))))
          ∙ ap (λ n. ranked n (take z (drop (p * z) (ranking b)))) (one_more (p * z))
          ∙ take-ranked (1 + p * z) z (drop (p * z) (ranking b))
          ∙ ap (take z) (drop-ranked 1 (p * z) (ranking b)))

  -- The entries of the first pages, one page after the other.
  abbrev pub first_pages :
      (String → Option (String → String)) → ℕ → ℕ → Board → List (LeaderboardEntry redis numbers)
  first_pages metas zero z b = []
  first_pages metas (suc p) z b =
      first_pages metas p z b ++ (fetch_from_redis redis numbers metas (p + 1) z b).0

  -- The pages are the ranking, cut: the entries of the first k pages of any size z, put one after the
  -- other, are the first k * z members of the ranking, in its order, with no gap and no repetition,
  -- ranked 1, 2, 3 and so on, as long as k * z fits an unsigned integer of 32 bits.
  pub first_pages-ranked :
      (metas : String → Option (String → String)) (k z : ℕ) (b : Board)
      → 1 ≤ z
      → k * z ≤ 4_294_967_295
      → map place_of (first_pages metas k z b) ≡ take (k * z) (ranked 1 (ranking b))
  first_pages-ranked metas zero z b some_entries fits =
      ap (λ n. take n (ranked 1 (ranking b))) (none_yet z)
  first_pages-ranked metas (suc p) z b some_entries fits =
      let grown : p * z + z ≡ suc p * z = ground arith in
      map-append place_of (first_pages metas p z b) _
      ∙ ap (λ xs. xs ++ map place_of (fetch_from_redis redis numbers metas (p + 1) z b).0)
          (first_pages-ranked metas p z b some_entries (omega (arith, fits, grown)))
      ∙ ap (λ xs. take (p * z) (ranked 1 (ranking b)) ++ xs)
          (next_page metas p z b some_entries (omega (arith, fits, grown)))
      ∙ take-split (p * z) z (ranked 1 (ranking b))
      ∙ ap (λ n. take n (ranked 1 (ranking b))) grown
