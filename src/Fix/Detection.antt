-- ===== src/Fix/Detection.antt =====
-- A byte that changes on the way is detected (generator.go).
use mathlib.Core.List.{append_assoc}
use iicpc.Prelude.{
  ℕ, ◌+◌, ◌%◌, ◌≤◌, ◌<◌, ◌≡◌, ◌≢◌, sym, ap, ◌∙◌, false, [], ◌∷◌, ◌++◌, ◌==◌, length, sum, arith,
  length-append,
}
use iicpc.Artifact.{Text}
use iicpc.Fix.{soh, three_digits, verify_checksum, Order, Generator, generate}
use iicpc.Fix.Trailer.{trailer, trailed, verify_checksum-trailed, length-three_digits}
use iicpc.Fix.Orders.{payload_of, payload_of-EndsInSoh, generated}

sum-append : (xs ys : Text) → sum (xs ++ ys) ≡ sum xs + sum ys
sum-append [] ys = omega arith
sum-append (x ∷ xs) ys = omega (arith, sum-append xs ys)

-- A byte that stands before the last part of a text stands in the first part.
split_before :
    (front last pre post : Text) (x : ℕ)
    → front ++ last ≡ pre ++ x ∷ post
    → length last ≤ length post
    → (mid : Text) × (front ≡ pre ++ x ∷ mid) × (post ≡ mid ++ last)
split_before [] last pre post x e h =
    absurd (omega (arith, ap length e, length-append pre (x ∷ post), h))
split_before (a ∷ front) last [] post x e h = (front, ground (arith, e), ground (arith, e))
split_before (a ∷ front) last (b ∷ pre) post x e h =
    let (mid, f, g) = split_before front last pre post x (ground (arith, e)) h in
    (mid, ground (arith, e, f), g)

sum-changed :
    (pre mid : Text) (x y : ℕ)
    → x < 256
    → y < 256
    → sum ((pre ++ x ∷ mid) ++ soh ∷ []) % 256 ≡ sum ((pre ++ y ∷ mid) ++ soh ∷ []) % 256
    → x ≡ y
sum-changed pre mid x y h k e = omega (
  arith,
  h,
  k,
  e,
  sum-append (pre ++ x ∷ mid) (soh ∷ []),
  sum-append (pre ++ y ∷ mid) (soh ∷ []),
  sum-append pre (x ∷ mid),
  sum-append pre (y ∷ mid),
)

unequal : (m n : ℕ) → m ≢ n → (m == n) ≡ false
unequal m n h = ground (arith, h)

module _ {ℓ} {Price : Type ℓ} (format_g : Price → Text) where
  -- A changed byte is noticed: if one byte of a generated message, any but the last eight, which are
  -- the trailer with the SOH before it, becomes another byte, verifyChecksum refuses the message.
  pub verify_checksum-changed :
      (now : ℕ) (o : Order Price) (g : Generator) (pre post : Text) (x y : ℕ)
      → (generate format_g now o g).1.raw ≡ pre ++ x ∷ post
      → 8 ≤ length post
      → x < 256
      → y < 256
      → x ≢ y
      → (verify_checksum (pre ++ y ∷ post)).1 ≡ false
  verify_checksum-changed now o g pre post x y e long h k differ =
      let (front, f) = payload_of-EndsInSoh format_g now o g in
      let n = sum (payload_of format_g now o g) % 256 in
      let (mid, at_front, at_end) =
        split_before front (trailer (three_digits n)) pre post x
          (sym (generated format_g now o g) ∙ e)
          (omega (
            arith,
            long,
            length-append (three_digits n) (soh ∷ []),
            length-three_digits n (omega arith),
          )) in
      let changed : pre ++ y ∷ post ≡ trailed (pre ++ y ∷ mid) n =
        ap (λ ts. pre ++ y ∷ ts) at_end
        ∙ sym (append_assoc pre (y ∷ mid) (trailer (three_digits n))) in
      let held : n ≡ sum ((pre ++ x ∷ mid) ++ soh ∷ []) % 256 =
        ap (λ ts. sum ts % 256) (f ∙ ap (λ ts. ts ++ soh ∷ []) at_front) in
      ap (λ ts. (verify_checksum ts).1) changed
      ∙ ap (λ v. v.1) (verify_checksum-trailed (pre ++ y ∷ mid) n (omega arith))
      ∙ unequal _ n (λ same. differ (sum-changed pre mid x y h k (sym (same ∙ held))))
