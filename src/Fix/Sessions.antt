-- ===== src/Fix/Sessions.antt =====
-- The numbers and identifiers of the messages of one session (generator.go).
use iicpc.Prelude.{
  ℕ, zero, suc, ◌+◌, ◌≤◌, ◌<◌, ◌≡◌, ◌≢◌, refl, ap, List, [], ◌∷◌, ◌++◌, map, length, All, arith,
}
use iicpc.Prelude.Decimal.{decimal, decimal-injective}
use iicpc.Artifact.{Text}
use iicpc.Fix.{Order, Generator, next_seq_num, cl_ord_id_of, generate, generate_all}

append-cancel : (xs ys zs : Text) → xs ++ ys ≡ xs ++ zs → ys ≡ zs
append-cancel [] ys zs h = h
append-cancel (x ∷ xs) ys zs h = append-cancel xs ys zs (ground (arith, h))

cl_ord_id_of-injective : (g : Generator) (m n : ℕ) → cl_ord_id_of g m ≡ cl_ord_id_of g n → m ≡ n
unfolding cl_ord_id_of
cl_ord_id_of-injective g m n h = decimal-injective m n (
    append-cancel (45 ∷ []) (decimal m) (decimal n)
      (append-cancel (g.benchmark_run_id ++ 45 ∷ g.bot_id) (45 ∷ decimal m) (45 ∷ decimal n) h))

-- The numbers that follow one another from a first one.
abbrev pub count_up : ℕ → ℕ → List ℕ
count_up zero k = []
count_up (suc n) k = k ∷ count_up n (k + 1)

abbrev pub AllDistinct : List Text → Type 0
AllDistinct [] = Unit
AllDistinct (x ∷ xs) = All (λ y. x ≢ y) xs × AllDistinct xs

abbrev pub max_uint64 : ℕ
max_uint64 = 18_446_744_073_709_551_615

module _ {ℓ} {Price : Type ℓ} (format_g : Price → Text) where
  next : (g : Generator) → g.seq_num < max_uint64 → next_seq_num g ≡ g.seq_num + 1
  unfolding next_seq_num
  next g h = omega (arith, h)

  numbered :
      (os : List (ℕ × Order Price)) (g : Generator)
      → g.seq_num + length os ≤ max_uint64
      → map (λ m. m.number) (generate_all format_g os g) ≡ count_up (length os) (g.seq_num + 1)
  unfolding generate_all generate
  numbered [] g h = refl
  numbered ((now, o) ∷ os) g h = rw (next g (omega (arith, h))) (
      ap (λ ns. (g.seq_num + 1) ∷ ns)
        (numbered os (record g { seq_num = g.seq_num + 1 }) (omega (arith, h))))

  -- An identifier that was used does not come again.
  never_again :
      (os : List (ℕ × Order Price)) (g : Generator) (k : ℕ)
      → g.seq_num + length os ≤ max_uint64
      → k ≤ g.seq_num
      → All (λ x. cl_ord_id_of g k ≢ x) (map (λ m. m.cl_ord_id) (generate_all format_g os g))
  unfolding generate_all generate cl_ord_id_of
  never_again [] g k h l = tt
  never_again ((now, o) ∷ os) g k h l = rw (next g (omega (arith, h))) (
    λ e. absurd (omega (arith, l, cl_ord_id_of-injective g k (g.seq_num + 1) e)),
    never_again os (record g { seq_num = g.seq_num + 1 }) k (omega (arith, h)) (omega (arith, l)),
  )

  distinct :
      (os : List (ℕ × Order Price)) (g : Generator)
      → g.seq_num + length os ≤ max_uint64
      → AllDistinct (map (λ m. m.cl_ord_id) (generate_all format_g os g))
  unfolding generate_all generate cl_ord_id_of
  distinct [] g h = tt
  distinct ((now, o) ∷ os) g h = rw (next g (omega (arith, h))) (
    never_again os (record g { seq_num = g.seq_num + 1 }) (g.seq_num + 1) (omega (arith, h))
        (omega arith),
    distinct os (record g { seq_num = g.seq_num + 1 }) (omega (arith, h)),
  )

  -- The messages of a session, of whatever kinds, are numbered one after the other from the counter
  -- on, and no two have the same ClOrdID, as long as the counter does not pass the greatest unsigned
  -- integer of 64 bits.
  generate_all-session :
      (os : List (ℕ × Order Price)) (g : Generator)
      → g.seq_num + length os ≤ max_uint64
      → (map (λ m. m.number) (generate_all format_g os g) ≡ count_up (length os) (g.seq_num + 1))
        × AllDistinct (map (λ m. m.cl_ord_id) (generate_all format_g os g))
  generate_all-session os g h = (numbered os g h, distinct os g h)
