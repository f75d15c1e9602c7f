-- ===== src/Build/Logs.antt =====
-- What is kept of a build log.
use iicpc.Prelude.{
  ℕ, zero, suc, ◌+◌, ◌-◌, ◌≤◌, ◌<◌, ◌≡◌, refl, true, false, List, [], ◌∷◌, ◌++◌, arith, leb, length,
  take, drop, ap, sym, Bool-cases, inl, inr, ◌⊎◌, length-append, length-take,
}
use iicpc.Artifact.{Text}
use iicpc.Build.{max_log_bytes, sentinel, truncate_middle}

module _ {ℓ} {A : Type ℓ} where
  take-drop : (n : ℕ) (xs : List A) → take n xs ++ drop n xs ≡ xs
  take-drop zero xs = refl
  take-drop (suc n) [] = refl
  take-drop (suc n) (x ∷ xs) = ap (λ ys. x ∷ ys) (take-drop n xs)

  length-drop : (n : ℕ) (xs : List A) → length (drop n xs) ≡ length xs - n
  length-drop zero xs = omega arith
  length-drop (suc n) [] = omega arith
  length-drop (suc n) (x ∷ xs) = omega (arith, length-drop n xs)

length-three : (xs ys zs : Text) → length (xs ++ ys ++ zs) ≡ length xs + length ys + length zs
length-three xs ys zs = omega (arith, length-append (xs ++ ys) zs, length-append xs ys)

sentinel-pos : (n : ℕ) → 0 < length (sentinel n)
unfolding sentinel
sentinel-pos n = ground arith

halves :
    (log : Text)
    → leb (length log) max_log_bytes ≡ false
    → truncate_middle log
      ≡ take 5_242_880 log
        ++ sentinel (length log - max_log_bytes)
        ++ drop (length log - 5_242_880) log
unfolding truncate_middle
halves log long = rw (long, truncate_middle) refl

kept : (log : Text) → leb (length log) max_log_bytes ≡ true → truncate_middle log ≡ log
unfolding truncate_middle
kept log short = ground (arith, short)

-- A log of 10 MiB at most is kept as it is. Of a longer one the first 5 MiB and the last 5 MiB are
-- kept, with the sentinel between them that names the number of the bytes that were taken out: what
-- is kept and that number add up to the log. The result is then always longer than 10 MiB.
pub truncate_middle-keeps :
    (log : Text)
    → ((length log ≤ max_log_bytes) × (truncate_middle log ≡ log))
      ⊎ ((max_log_bytes < length log)
          × ((head : Text) × (tail : Text) × (removed : ℕ) × (truncate_middle log
                ≡ head ++ sentinel removed ++ tail)
              × ((rest : Text) × (log ≡ head ++ rest))
              × ((front : Text) × (log ≡ front ++ tail))
              × (length head ≡ 5_242_880)
              × (length tail ≡ 5_242_880)
              × (length log ≡ length head + removed + length tail)
              × (max_log_bytes < length (truncate_middle log))))
truncate_middle-keeps log = elim (Bool-cases (leb (length log) max_log_bytes)) [
  | inl short ↦ inl (ground arith, kept log short)
  | inr long ↦
      let h : max_log_bytes < length log = ground arith in
      let head : Text = take 5_242_880 log in
      let tail : Text = drop (length log - 5_242_880) log in
      let n : ℕ = length log - max_log_bytes in
      let head_long = length-take 5_242_880 log (omega (arith, h)) in
      let tail_long = length-drop (length log - 5_242_880) log in
      inr (
        h,
        (
          head,
          tail,
          n,
          halves log long,
          (drop 5_242_880 log, sym (take-drop 5_242_880 log)),
          (take (length log - 5_242_880) log, sym (take-drop (length log - 5_242_880) log)),
          head_long,
          omega (arith, tail_long, h),
          omega (arith, head_long, tail_long, h),
          rw (halves log long) (
              omega (
                arith,
                head_long,
                tail_long,
                h,
                sentinel-pos n,
                length-three head (sentinel n) tail,
              )),
        ),
      )
]
