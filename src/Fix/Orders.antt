-- ===== src/Fix/Orders.antt =====
-- Every message that is generated passes its own check (generator.go).
use mathlib.Core.List.{append_assoc}
use iicpc.Prelude.{
  ℕ, ◌%◌, ◌≡◌, refl, sym, ap, ◌∙◌, true, some, [], ◌∷◌, ◌++◌, ◌==◌, length, sum, arith, ==_iff,
}
use iicpc.Prelude.Decimal.{decimal}
use iicpc.Artifact.{Text}
use iicpc.Fix.{
  soh, field, fix_version, three_digits, body_of, with_trailer, build_message, verify_checksum,
  Order, limit_order, market_order, cancel_replace, Generator, body_tags, msg_type_of, generate,
  cl_ord_id_of, next_seq_num,
}
use iicpc.Fix.Trailer.{trailed, verify_checksum-trailed}

abbrev pub EndsInSoh : Text → Type 0
EndsInSoh xs = (front : Text) × (xs ≡ front ++ soh ∷ [])

field-EndsInSoh : (tag : ℕ) (v : Text) → EndsInSoh (field tag v)
unfolding field
field-EndsInSoh tag v = (decimal tag ++ 61 ∷ v, refl)

append-EndsInSoh : (xs ys : Text) → EndsInSoh ys → EndsInSoh (xs ++ ys)
append-EndsInSoh xs ys (front, e) =
    (xs ++ front, ap (λ ts. xs ++ ts) e ∙ sym (append_assoc xs front (soh ∷ [])))

with_trailer-trailed :
    (payload : Text) (e : EndsInSoh payload)
    → with_trailer payload ≡ trailed e.0 (sum payload % 256)
unfolding with_trailer field decimal
with_trailer-trailed payload (front, e) =
    ap (λ ts. ts ++ field 10 (three_digits (sum payload % 256))) e
    ∙ append_assoc front (soh ∷ []) (field 10 (three_digits (sum payload % 256)))

module _ {ℓ} {Price : Type ℓ} (format_g : Price → Text) where
  -- What stands before the trailer.
  unfoldable pub payload_of : ℕ → Order Price → Generator → Text
  payload_of now o g =
      let seq = next_seq_num g in
      let body =
        body_of (msg_type_of format_g o) seq now (cl_ord_id_of g seq) (body_tags format_g o) in
      field 8 fix_version ++ field 9 (decimal (length body)) ++ body

  generate-with_trailer :
      (now : ℕ) (o : Order Price) (g : Generator)
      → (generate format_g now o g).1.raw ≡ with_trailer (payload_of now o g)
  unfolding generate build_message payload_of
  generate-with_trailer now o g = refl

  body_tags-EndsInSoh : (o : Order Price) → EndsInSoh (body_tags format_g o)
  unfolding body_tags
  body_tags-EndsInSoh (limit_order side qty price) =
      append-EndsInSoh _ (field 59 (48 ∷ [])) (field-EndsInSoh 59 (48 ∷ []))
  body_tags-EndsInSoh (market_order side qty) =
      append-EndsInSoh _ (field 40 (49 ∷ [])) (field-EndsInSoh 40 (49 ∷ []))
  body_tags-EndsInSoh (cancel_replace orig side qty price) =
      append-EndsInSoh _ (field 44 (format_g price)) (field-EndsInSoh 44 (format_g price))

  pub payload_of-EndsInSoh :
      (now : ℕ) (o : Order Price) (g : Generator) → EndsInSoh (payload_of now o g)
  unfolding payload_of body_of
  payload_of-EndsInSoh now o g =
      append-EndsInSoh _ _ (append-EndsInSoh _ (body_tags format_g o) (body_tags-EndsInSoh o))

  pub generated :
      (now : ℕ) (o : Order Price) (g : Generator)
      → (generate format_g now o g).1.raw
        ≡ trailed (payload_of-EndsInSoh now o g).0 (sum (payload_of now o g) % 256)
  generated now o g =
      generate-with_trailer now o g
      ∙ with_trailer-trailed (payload_of now o g) (payload_of-EndsInSoh now o g)

  -- Every message that the generator makes, of each of the three kinds and with whatever texts and
  -- numbers, passes verifyChecksum: the checksum that is computed again is the sum of the bytes before
  -- the trailer modulo 256, and is the one that the trailer holds.
  pub verify_checksum-generate :
      (now : ℕ) (o : Order Price) (g : Generator)
      → verify_checksum (generate format_g now o g).1.raw
        ≡ (some (sum (payload_of now o g) % 256), true)
  verify_checksum-generate now o g =
      let (front, e) = payload_of-EndsInSoh now o g in
      let n = sum (payload_of now o g) % 256 in
      ap verify_checksum (generated now o g)
      ∙ verify_checksum-trailed front n (omega arith)
      ∙ ap (λ ts. (some (sum ts % 256), sum ts % 256 == n)) (sym e)
      ∙ ap (λ t. (some n, t)) ((==_iff n n).1 refl)
