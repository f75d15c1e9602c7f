-- ===== src/Rest/Identity.antt =====
-- Which orders share an identifier (generator.go).
use iicpc.Prelude.Decimal.{decimal, is_digit, decimal-are_digits, decimal-injective}
use iicpc.Prelude.{ℕ, ◌<◌, ◌≡◌, refl, sym, subst, true, [], ◌∷◌, ◌++◌, String, length, all, arith}
use iicpc.Artifact.{Text}
use iicpc.Rest.{RestGenerator, World, next_seq_num, dash, cl_ord_id, place_order}

head-eq : (x y : ℕ) (xs ys : Text) → x ∷ xs ≡ y ∷ ys → (x ≡ y) × (xs ≡ ys)
head-eq x y xs ys h = (ground (arith, h), ground (arith, h))

no_dash : (a ds : Text) → all is_digit (a ++ 45 ∷ ds) ≡ true → ⊥
no_dash [] ds h = ground (arith, h)
no_dash (x ∷ a) ds h = no_dash a ds (ground (arith, h))

-- Texts that are joined by a last dash to digits.
last_dash :
    (a b ds es : Text)
    → all is_digit ds ≡ true
    → all is_digit es ≡ true
    → dash a ds ≡ dash b es
    → (a ≡ b) × (ds ≡ es)
last_dash [] [] ds es h k e = (refl, (head-eq 45 45 ds es e).1)
last_dash [] (y ∷ b) ds es h k e =
    absurd (no_dash b es (subst (λ (t : Text). all is_digit t ≡ true) (head-eq 45 y ds _ e).1 h))
last_dash (x ∷ a) [] ds es h k e =
    absurd
      (no_dash a ds (subst (λ (t : Text). all is_digit t ≡ true) (sym (head-eq x 45 _ es e).1) k))
last_dash (x ∷ a) (y ∷ b) ds es h k e =
    let (p, q) = head-eq x y _ _ e in
    let (r, s) = last_dash a b ds es h k q in (ground (arith, p, r), s)

same_length : (a b xs ys : Text) → length a ≡ length b → dash a xs ≡ dash b ys → (a ≡ b) × (xs ≡ ys)
same_length [] [] xs ys n e = (refl, (head-eq 45 45 xs ys e).1)
same_length [] (y ∷ b) xs ys n e = absurd (omega (arith, n))
same_length (x ∷ a) [] xs ys n e = absurd (omega (arith, n))
same_length (x ∷ a) (y ∷ b) xs ys n e =
    let (p, q) = head-eq x y _ _ e in
    let (r, s) = same_length a b xs ys (omega (arith, n)) q in (ground (arith, p, r), s)

next_seq_num-injective :
    (g h : RestGenerator)
    → g.seq_num < 18_446_744_073_709_551_615
    → h.seq_num < 18_446_744_073_709_551_615
    → next_seq_num g ≡ next_seq_num h
    → g.seq_num ≡ h.seq_num
unfolding next_seq_num
next_seq_num-injective g h m n e = omega (arith, m, n, e)

cl_ord_id-injective :
    (g h : RestGenerator) (m n : ℕ)
    → length g.benchmark_run_id ≡ length h.benchmark_run_id
    → cl_ord_id g m ≡ cl_ord_id h n
    → (g.benchmark_run_id ≡ h.benchmark_run_id) × (g.bot_id ≡ h.bot_id) × (m ≡ n)
unfolding cl_ord_id
cl_ord_id-injective g h m n k e =
    let (run, rest) = same_length g.benchmark_run_id h.benchmark_run_id _ _ k e in
    let (bot, seq) =
      last_dash g.bot_id h.bot_id (decimal m) (decimal n) (decimal-are_digits m)
        (decimal-are_digits n) rest in
    (run, bot, decimal-injective m n seq)

-- Two orders of one identifier are of the same run, the same bot and the same number, if the
-- identifiers of the runs have the same length (UUIDs do) and no counter has reached its end.
place_order-identity :
    (w v : World) (side side' ord_type ord_type' : String) (qty qty' price price' : ℕ)
    (g h : RestGenerator)
    → length g.benchmark_run_id ≡ length h.benchmark_run_id
    → g.seq_num < 18_446_744_073_709_551_615
    → h.seq_num < 18_446_744_073_709_551_615
    → (place_order w side ord_type qty price g).1.cl_ord_id
      ≡ (place_order v side' ord_type' qty' price' h).1.cl_ord_id
    → (g.benchmark_run_id ≡ h.benchmark_run_id) × (g.bot_id ≡ h.bot_id) × (g.seq_num ≡ h.seq_num)
unfolding place_order
place_order-identity w v side side' ord_type ord_type' qty qty' price price' g h k m n e =
    let (run, bot, seq) = cl_ord_id-injective g h (next_seq_num g) (next_seq_num h) k e in
    (run, bot, next_seq_num-injective g h m n seq)
