-- ===== src/Board/Standing.antt =====
-- The standing of a contestant against the scores that were published (leaderboard/store.go).
use iicpc.Prelude.{
  ℕ, ◌≡◌, refl, sym, ap, ◌∙◌, subst, false, List, [], ◌∷◌, String, map, filter, str_eq, eq_iff, ltb,
  if◌then◌else◌, arith, Bool-cases, Option-cases, inl, inr,
}
use iicpc.Board.{Member, Standings, Numbers, raised, update_standing, get_standing, update_all}

-- The scores of a contestant among the updates.
abbrev pub scores_of : String → List Member → List ℕ
scores_of c us = map (λ u. u.1) (filter (λ u. str_eq c u.0) us)

abbrev pub greatest : ℕ → List ℕ → ℕ
greatest a [] = a
greatest a (v ∷ vs) = let rest = greatest a vs in if ltb rest v then v else rest

greatest_max :
    (a v : ℕ) (vs : List ℕ) → greatest (if ltb a v then v else a) vs ≡ greatest a (v ∷ vs)
greatest_max a v [] = refl
greatest_max a v (w ∷ vs) = ground (arith, greatest_max a v vs)

module _ (redis : Standings) (numbers : Numbers) where
  open redis use {Board, score, add_gt}

  raised_once :
      (c : String) (v : ℕ) (b : Board)
      → get_standing redis numbers c (add_gt c v b)
        ≡ (if ltb (get_standing redis numbers c b) v then v else get_standing redis numbers c b)
  unfolding get_standing raised
  raised_once c v b = elim (Option-cases (score c b)) [
    | inl absent ↦ rw (get_standing, redis.score-add_gt c v b, absent) (ground arith)
    | inr (old, there) ↦ rw (get_standing, redis.score-add_gt c v b, there) refl
  ]

  unraised :
      (c d : String) (v : ℕ) (b : Board)
      → str_eq c d ≡ false
      → get_standing redis numbers c (add_gt d v b) ≡ get_standing redis numbers c b
  unfolding get_standing
  unraised c d v b other = rw (get_standing, redis.score-add_gt_other d c v b other) refl

  -- After any sequence of updates, the standing of a contestant is the greatest of the scores that
  -- were published for this contestant and of the standing before, whatever the order of the updates
  -- and whoever else was updated between them; without any, it is what it was.
  pub update_all-greatest :
      (us : List Member) (b : Board) (c : String)
      → get_standing redis numbers c (update_all redis numbers us b)
        ≡ greatest (get_standing redis numbers c b) (scores_of c us)
  unfolding update_all update_standing
  update_all-greatest [] b c = refl
  update_all-greatest ((d, v) ∷ us) b c = elim (Bool-cases (str_eq c d)) [
    | inl same ↦ rw same (
        update_all-greatest us (add_gt d v b) c
        ∙ ap (λ a. greatest a (scores_of c us))
            (subst
              (λ x. get_standing redis numbers x (add_gt d v b) ≡ (
                if ltb (get_standing redis numbers x b) v
                then v
                else get_standing redis numbers x b))
              (sym ((eq_iff c d).0 same)) (raised_once d v b))
        ∙ greatest_max (get_standing redis numbers c b) v (scores_of c us))
    | inr other ↦ rw other (
        update_all-greatest us (add_gt d v b) c
        ∙ ap (λ a. greatest a (scores_of c us)) (unraised c d v b other))
  ]
