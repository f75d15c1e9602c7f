-- ===== src/Scheduler/Rounds.antt =====
-- The interleaving of scheduler.go: how often each scenario comes out.
use iicpc.Prelude.{
  ℕ, zero, suc, ◌+◌, ◌-◌, ◌≤◌, ◌<◌, ◌≡◌, refl, inl, inr, Bool, true, List, [], ◌∷◌, ltb,
  if◌then◌else◌, arith, count, count-append, List-cases, Bool-cases, ◌∙◌,
}
use iicpc.Scheduler.{one_round, rounds}

module _ {ℓ} {A : Type ℓ} where
  -- What the rounds from `r` on still owe to the elements that pass a test.
  unfoldable pub owed : (A → Bool) → ℕ → List A → List ℕ → ℕ
  owed p r [] cs = 0
  owed p r (x ∷ xs) [] = 0
  owed p r (x ∷ xs) (c ∷ cs) = (if p x then c - r else 0) + owed p r xs cs

  one_round-owed :
      (p : A → Bool) (r : ℕ) (xs : List A) (cs : List ℕ)
      → count p (one_round r xs cs) + owed p (r + 1) xs cs ≡ owed p r xs cs
  unfolding one_round owed
  one_round-owed p r [] cs = omega arith
  one_round-owed p r (x ∷ xs) [] = omega arith
  one_round-owed p r (x ∷ xs) (c ∷ cs) = ground (arith, one_round-owed p r xs cs)

  owed_mono :
      (p : A → Bool) (r : ℕ) (xs : List A) (cs : List ℕ) → owed p r xs cs ≤ owed (λ x. true) r xs cs
  unfolding owed
  owed_mono p r [] cs = omega arith
  owed_mono p r (x ∷ xs) [] = omega arith
  owed_mono p r (x ∷ xs) (c ∷ cs) = ground (arith, owed_mono p r xs cs)

  owed_done :
      (p : A → Bool) (r : ℕ) (xs : List A) (cs : List ℕ)
      → one_round r xs cs ≡ []
      → owed p r xs cs ≡ 0
  unfolding owed one_round
  owed_done p r [] cs h = refl
  owed_done p r (x ∷ xs) [] h = refl
  owed_done p r (x ∷ xs) (c ∷ cs) h = elim (Bool-cases (ltb r c)) [
    | inl e ↦ absurd (cc (h, e))
    | inr e ↦ ground (arith, owed_done p r xs cs)
  ]

  -- With fuel for every element that is owed, the rounds bring out just what is owed.
  pub rounds-owed :
      (p : A → Bool) (fuel r : ℕ) (xs : List A) (cs : List ℕ)
      → owed (λ x. true) r xs cs < fuel
      → count p (rounds fuel r xs cs) ≡ owed p r xs cs
  unfolding rounds
  rounds-owed p zero r xs cs h = absurd (omega arith)
  rounds-owed p (suc fuel) r xs cs h = elim (List-cases (one_round r xs cs)) [
    | inl done ↦ rw (done, rounds) (omega (arith, owed_done p r xs cs done))
    | inr (y, ys, more) ↦
        let once : count p (y ∷ ys) + owed p (r + 1) xs cs ≡ owed p r xs cs =
          rw more at (one_round-owed p r xs cs) in
        let less : count (λ x. true) (y ∷ ys) + owed (λ x. true) (r + 1) xs cs
            ≡ owed (λ x. true) r xs cs =
          rw more at (one_round-owed (λ x. true) r xs cs) in
        rw (more, rounds)
          (count-append p (y ∷ ys) (rounds fuel (r + 1) xs cs)
            ∙ omega (arith, once, rounds-owed p fuel (r + 1) xs cs (omega arith)))
  ]
