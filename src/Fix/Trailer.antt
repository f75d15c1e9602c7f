-- ===== src/Fix/Trailer.antt =====
-- The trailer of a message, written and read (generator.go).
use iicpc.Prelude.{
  ℕ, zero, suc, ◌+◌, ◌-◌, ◌*◌, ◌/◌, ◌%◌, ◌≤◌, ◌<◌, ◌≡◌, refl, sym, subst, ap, ◌∙◌, inl, inr, Bool,
  true, false, ◌&&◌, some, List, [], ◌∷◌, ◌++◌, ltb, ◌==◌, length, take, drop, sum, arith,
  Bool-cases, length-append,
}
use iicpc.Prelude.Decimal.{decimal, digits, is_digit}
use iicpc.Artifact.{Text}
use iicpc.Fix.{
  soh, three_digits, is_prefix, last_index, scan_digits, scan_unsigned, scan_int, skip_blanks,
  trailer_tag, check_embedded, verify_checksum,
}

decimal_one : (n : ℕ) → n < 10 → decimal n ≡ (48 + n) ∷ []
unfolding decimal digits
decimal_one n h = ground (arith, h)

decimal_two : (n : ℕ) → 10 ≤ n → n < 100 → decimal n ≡ (48 + n / 10) ∷ (48 + n % 10) ∷ []
unfolding decimal digits
decimal_two zero h k = absurd (omega (arith, h))
decimal_two (suc m) h k = ground (arith, h, k)

decimal_three :
    (n : ℕ)
    → 100 ≤ n
    → n < 1000
    → decimal n ≡ (48 + n / 10 / 10) ∷ (48 + n / 10 % 10) ∷ (48 + n % 10) ∷ []
unfolding decimal digits
decimal_three zero h k = absurd (omega (arith, h))
decimal_three (suc zero) h k = absurd (omega (arith, h))
decimal_three (suc (suc m)) h k = ground (arith, h, k)

-- Three characters that are digits and stand for a number.
record AreThree (n : ℕ) (ds : Text) : Type 0 where
  first : ℕ
  second : ℕ
  third : ℕ
  are : ds ≡ first ∷ second ∷ third ∷ []
  first_digit : is_digit first ≡ true
  second_digit : is_digit second ≡ true
  third_digit : is_digit third ≡ true
  number : ((first - 48) * 10 + (second - 48)) * 10 + (third - 48) ≡ n

three_digits-AreThree : (n : ℕ) → n < 256 → AreThree n (three_digits n)
unfolding three_digits
three_digits-AreThree n h = elim (Bool-cases (ltb n 10)) [
  | inl one ↦ record {
    first = 48;
    second = 48;
    third = 48 + n;
    are = rw (decimal_one n (ground arith)) refl;
    first_digit = refl;
    second_digit = refl;
    third_digit = ground arith;
    number = omega arith;
  }
  | inr more ↦ elim (Bool-cases (ltb n 100)) [
    | inl two ↦ record {
      first = 48;
      second = 48 + n / 10;
      third = 48 + n % 10;
      are = rw (decimal_two n (ground arith) (ground arith)) refl;
      first_digit = refl;
      second_digit = ground arith;
      third_digit = ground arith;
      number = ground arith;
    }
    | inr three ↦ record {
      first = 48 + n / 10 / 10;
      second = 48 + n / 10 % 10;
      third = 48 + n % 10;
      are = rw (decimal_three n (ground arith) (ground arith)) refl;
      first_digit = ground arith;
      second_digit = ground arith;
      third_digit = ground arith;
      number = ground arith;
    }
  ]
]

pub length-three_digits : (n : ℕ) → n < 256 → length (three_digits n) ≡ 3
length-three_digits n h = ap length (three_digits-AreThree n h).are

last_index-append :
    (p xs ys : Text) (i : ℕ)
    → last_index p ys ≡ some i
    → last_index p (xs ++ ys) ≡ some (length xs + i)
unfolding last_index
last_index-append p [] ys i h = h ∙ ap some (omega arith)
last_index-append p (x ∷ xs) ys i h = rw (last_index-append p xs ys i h) (ap some (omega arith))

-- The trailer is found where it starts: no later byte is a SOH that a tag 10 follows.
last_index-trailer :
    (a b c : ℕ)
    → is_digit a ≡ true
    → is_digit b ≡ true
    → is_digit c ≡ true
    → last_index (soh ∷ trailer_tag) (soh ∷ trailer_tag ++ a ∷ b ∷ c ∷ soh ∷ []) ≡ some 0
unfolding last_index is_prefix
last_index-trailer a b c h k l = ground (arith, h, k, l)

scan_three :
    (a b c : ℕ)
    → is_digit a ≡ true
    → is_digit b ≡ true
    → is_digit c ≡ true
    → scan_int (a ∷ b ∷ c ∷ []) ≡ (false, some (((a - 48) * 10 + (b - 48)) * 10 + (c - 48)))
unfolding scan_int scan_unsigned scan_digits skip_blanks
scan_three a b c h k l = ground (arith, h, k, l)

module _ {ℓ} {A : Type ℓ} where
  take-more : (k : ℕ) (xs ys : List A) → take (length xs + k) (xs ++ ys) ≡ xs ++ take k ys
  take-more k [] ys = ap (λ n. take n ys) (omega arith)
  take-more k (x ∷ xs) ys =
      let step : suc (length xs) + k ≡ suc (length xs + k) = omega arith in
      rw step (ap (λ zs. x ∷ zs) (take-more k xs ys))

  drop-more : (k : ℕ) (xs ys : List A) → drop (length xs + k) (xs ++ ys) ≡ drop k ys
  drop-more k [] ys = ap (λ n. drop n ys) (omega arith)
  drop-more k (x ∷ xs) ys =
      let step : suc (length xs) + k ≡ suc (length xs + k) = omega arith in
      rw step (drop-more k xs ys)

-- The bytes of a trailer with three characters for the number, after the SOH before it.
abbrev pub trailer : Text → Text
trailer ds = soh ∷ 49 ∷ 48 ∷ 61 ∷ (ds ++ soh ∷ [])

-- A message in two parts: up to the SOH before the trailer, and the trailer with its number.
abbrev pub trailed : Text → ℕ → Text
trailed front n = front ++ trailer (three_digits n)

abbrev Verdict : Text → ℕ → Text → Type 0
Verdict front n ds =
    verify_checksum (front ++ trailer ds)
    ≡ (some (sum (front ++ soh ∷ []) % 256), sum (front ++ soh ∷ []) % 256 == n)

and_true : (t : Bool) → (t && true) ≡ t
and_true true = refl
and_true false = refl

check_embedded-reads :
    (payload_end start n : ℕ) (raw payload : Text)
    → take payload_end raw ≡ payload
    → scan_int (take 3 (drop start raw)) ≡ (false, some n)
    → ltb (length raw) (start + 3) ≡ false
    → check_embedded payload_end start raw ≡ (some (sum payload % 256), sum payload % 256 == n)
unfolding check_embedded
check_embedded-reads payload_end start n raw payload summed scanned fits =
    rw (fits, scanned, scanned, summed) (ap (λ t. (some (sum payload % 256), t)) (and_true _))

verify_three :
    (front : Text) (n a b c : ℕ)
    → is_digit a ≡ true
    → is_digit b ≡ true
    → is_digit c ≡ true
    → ((a - 48) * 10 + (b - 48)) * 10 + (c - 48) ≡ n
    → Verdict front n (a ∷ b ∷ c ∷ [])
unfolding verify_checksum
verify_three front n a b c h k l e =
    let bytes = trailer (a ∷ b ∷ c ∷ []) in
    let there : last_index (soh ∷ trailer_tag) (front ++ bytes) ≡ some (length front) =
      last_index-append (soh ∷ trailer_tag) front bytes 0 (last_index-trailer a b c h k l)
      ∙ ap some (omega arith) in
    let fits : ltb (length (front ++ bytes)) (length front + 4 + 3) ≡ false =
      ground (arith, length-append front bytes) in
    let summed : take (length front + 1) (front ++ bytes) ≡ front ++ soh ∷ [] =
      take-more 1 front bytes in
    let scanned : scan_int (take 3 (drop (length front + 4) (front ++ bytes))) ≡ (false, some n) =
      rw (drop-more 4 front bytes) (scan_three a b c h k l ∙ ap (λ m. (false, some m)) e) in
    rw (verify_checksum, there)
      (check_embedded-reads (length front + 1) (length front + 4) n (front ++ bytes)
        (front ++ soh ∷ []) summed scanned fits)

-- `verifyChecksum` sums what stands before the trailer, and compares it with the trailer's number.
pub verify_checksum-trailed : (front : Text) (n : ℕ) → n < 256 → Verdict front n (three_digits n)
verify_checksum-trailed front n h =
    let d = three_digits-AreThree n h in
    subst (Verdict front n) (sym d.are) (
      verify_three front n d.first d.second d.third d.first_digit d.second_digit d.third_digit
        d.number)
