-- ===== src/Score/Ranks.antt =====
-- How the score of a run ranks it (scorer.go).
use iicpc.Prelude.{ℕ, ◌≤◌, ◌≡◌, ◌↔◌, refl, Bool, true, false, ◌⊎◌, inl, inr, arith, Bool-cases}
use iicpc.Status.{RunStatus}
use iicpc.Score.{
  one, full, terminal_statuses, clamp, compute_speed_score, compute_stability_score,
  compute_composite_score, compute_composite_score_for_run,
}

speed_ends :
    (p : ℕ)
    → (compute_speed_score p ≤ one)
      × (compute_speed_score p ≡ one ↔ p ≤ 1_000_000)
      × (compute_speed_score p ≡ 0 ↔ 100_000_000 ≤ p)
unfolding compute_speed_score clamp
speed_ends p = (
  ground arith,
  (λ h. ground (arith, h), λ h. ground (arith, h)),
  (λ h. ground (arith, h), λ h. ground (arith, h)),
)

speed_mono : (p q : ℕ) → q ≤ p → compute_speed_score p ≤ compute_speed_score q
unfolding compute_speed_score clamp
speed_mono p q h = ground (arith, h)

stability_ends :
    (t : ℕ)
    → (compute_stability_score t ≤ one)
      × (compute_stability_score t ≡ one ↔ 1_000_000 ≤ t)
      × (compute_stability_score t ≡ 0 ↔ t ≡ 0)
unfolding compute_stability_score clamp
stability_ends t = (
  ground arith,
  (λ h. ground (arith, h), λ h. ground (arith, h)),
  (λ h. ground (arith, h), λ h. ground (arith, h)),
)

stability_mono : (t u : ℕ) → t ≤ u → compute_stability_score t ≤ compute_stability_score u
unfolding compute_stability_score clamp
stability_mono t u h = ground (arith, h)

-- The composite of three parts.
composite_mono :
    (s s' t t' a a' : ℕ)
    → s ≤ s'
    → t ≤ t'
    → a ≤ a'
    → compute_composite_score s t a ≤ compute_composite_score s' t' a'
unfolding compute_composite_score
composite_mono s s' t t' a a' h k l = omega (arith, h, k, l)

composite_full :
    (s t a : ℕ)
    → s ≤ one
    → t ≤ one
    → a ≤ one
    → (compute_composite_score s t a ≤ full)
      × (compute_composite_score s t a ≡ full ↔ (s ≡ one) × (t ≡ one) × (a ≡ one))
      × (compute_composite_score s t a ≡ 0 ↔ (s ≡ 0) × (t ≡ 0) × (a ≡ 0))
unfolding compute_composite_score
composite_full s t a h k l = (
  omega (arith, h, k, l),
  (
    λ e. (omega (arith, h, k, l, e), omega (arith, h, k, l, e), omega (arith, h, k, l, e)),
    λ e. omega (arith, e.0, e.1, e.2),
  ),
  (λ e. (omega (arith, e), omega (arith, e), omega (arith, e)), λ e. omega (arith, e.0, e.1, e.2)),
)

-- The composite of a run that did not fail.
abbrev composite : ℕ → ℕ → ℕ → ℕ
composite p t a = compute_composite_score (compute_speed_score p) (compute_stability_score t) a

-- What is said of the score of a run, beside the score of a run that is nowhere better.
abbrev pub Ranked : Bool → ℕ → ℕ → ℕ → ℕ → ℕ → Type 0
Ranked failed lower score q u b =
    (lower ≤ score)
    × (score ≤ full)
    × (score ≡ full ↔ (failed ≡ false) × (q ≤ 1_000_000) × (1_000_000 ≤ u) × (b ≡ one))
    × (score ≡ 0 ↔ (failed ≡ true) ⊎ ((100_000_000 ≤ q) × (u ≡ 0) × (b ≡ 0)))

failed-Ranked : (q u b : ℕ) → Ranked true 0 0 q u b
failed-Ranked q u b = (
  omega arith,
  omega arith,
  (λ e. absurd (omega (arith, e)), λ e. cc),
  (λ e. inl refl, λ e. refl),
)

composite-Ranked :
    (p q t u a b : ℕ)
    → q ≤ p
    → t ≤ u
    → a ≤ b
    → b ≤ one
    → Ranked false (composite p t a) (composite q u b) q u b
composite-Ranked p q t u a b h k l m =
    let (speed_le, (fast, fast'), (slow, slow')) = speed_ends q in
    let (stability_le, (many, many'), (idle, idle')) = stability_ends u in
    let (le, (all_one, all_one'), (all_zero, all_zero')) =
      composite_full (compute_speed_score q) (compute_stability_score u) b speed_le stability_le
        m in
    (
      composite_mono _ _ _ _ a b (speed_mono p q h) (stability_mono t u k) l,
      le,
      (
        λ e. (refl, fast (all_one e).0, many (all_one e).1, (all_one e).2),
        λ e. all_one' (fast' e.1, many' e.2, e.3),
      ),
      (
        λ e. inr (slow (all_zero e).0, idle (all_zero e).1, (all_zero e).2),
        λ e. elim e [ inl f ↦ absurd cc | inr z ↦ all_zero' (slow' z.0, idle' z.1, z.2) ],
      ),
    )

-- A run is never scored below one of the same status that is at most as fast, handles at most as many
-- messages and is at most as accurate, with an accuracy of at most 1. No score is above 1; it is 1
-- exactly if the status is none of the six that score nothing, the percentile is 1 ms at most, there are
-- a million messages per second at least, and the accuracy is 1. It is 0 exactly if the status is one of
-- the six, or the percentile is 100 ms at least, there are no messages and the accuracy is 0.
pub compute_composite_score_for_run-Ranked :
    (status : RunStatus) (p q t u a b : ℕ)
    → q ≤ p
    → t ≤ u
    → a ≤ b
    → b ≤ one
    → Ranked
        (terminal_statuses status)
        (compute_composite_score_for_run status p t a)
        (compute_composite_score_for_run status q u b)
        q
        u
        b
unfolding compute_composite_score_for_run
compute_composite_score_for_run-Ranked status p q t u a b h k l m =
    elim (Bool-cases (terminal_statuses status)) [
      | inl e ↦ rw e (failed-Ranked q u b)
      | inr e ↦ rw e (composite-Ranked p q t u a b h k l m)
    ]
