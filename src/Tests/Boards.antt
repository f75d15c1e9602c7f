-- ===== src/Tests/Boards.antt =====
-- A leaderboard kept as a list of members, sorted when it is read (store.go, leaderboard.go).
use iicpc.Prelude.{
  ℕ, ◌+◌, ◌-◌, ◌≡◌, refl, sym, false, Option, none, some, List, [], ◌∷◌, String, map, length, take,
  drop, str_eq, eq_iff, eq_refl, if◌then◌else◌, arith, Bool-cases, inl, inr, ap, ◌∙◌,
}
use iicpc.Prelude.Sorting.{SortSlice, higher, by_key_down, length-perm}
use iicpc.Board.{Member, raised, Standings, Numbers, update_all, get_standing, fetch_from_redis}
use iicpc.Board.Pages.{ranked, place_of, first_pages, first_pages-ranked}
use iicpc.Board.Standing.{scores_of, greatest, update_all-greatest}

abbrev pub score_of : Member → ℕ
score_of m = m.1

abbrev pub by_score : SortSlice (higher score_of)
by_score = by_key_down score_of

abbrev pub look_up : String → List Member → Option ℕ
look_up c [] = none
look_up c (m ∷ ms) = if str_eq c m.0 then some m.1 else look_up c ms

abbrev pub raise : String → ℕ → List Member → List Member
raise c v [] = (c, v) ∷ []
raise c v (m ∷ ms) = if str_eq c m.0 then (c, raised (some m.1) v) ∷ ms else m ∷ raise c v ms

pub look_up-raise :
    (c : String) (v : ℕ) (b : List Member) → look_up c (raise c v b) ≡ some (raised (look_up c b) v)
unfolding raised
look_up-raise c v [] = rw (eq_refl c) refl
look_up-raise c v (m ∷ ms) = elim (Bool-cases (str_eq c m.0)) [
  | inl same ↦ rw (same, eq_refl c) refl
  | inr other ↦ rw (other, other) (look_up-raise c v ms)
]

pub look_up-other :
    (c d : String) (v : ℕ) (b : List Member)
    → str_eq d c ≡ false
    → look_up d (raise c v b) ≡ look_up d b
look_up-other c d v [] h = rw h refl
look_up-other c d v (m ∷ ms) h = elim (Bool-cases (str_eq c m.0)) [
  | inl same ↦
      let other : str_eq d m.0 ≡ false = ap (str_eq d) (sym ((eq_iff c m.0).0 same)) ∙ h in
      rw (same, h, other) refl
  | inr differ ↦ elim (Bool-cases (str_eq d m.0)) [
    | inl found ↦ rw (differ, found) refl
    | inr missed ↦ rw (differ, missed) (look_up-other c d v ms h)
  ]
]

abbrev pub list_board : Standings
list_board = record {
  Board = List Member;
  ranking = by_score.sort;
  card = length;
  card-length = λ b. sym (length-perm (by_score.sort-Perm b));
  rev_range = λ start stop b. take (stop + 1 - start) (drop start (by_score.sort b));
  rev_range-slice = λ start stop b h k. refl;
  score = look_up;
  add_gt = raise;
  score-add_gt = look_up-raise;
  score-add_gt_other = look_up-other;
}

abbrev pub numbers : Numbers
numbers = record { Float = String; unset = "0"; parse_float = λ s. s; parse_int = λ s. 0 }

abbrev board : List Member
board = ("ann", 70) ∷ ("bob", 90) ∷ ("cyd", 80) ∷ []

abbrev metas : String → Option (String → String)
metas c = if str_eq c "bob" then some (λ column. "1") else none

best_first :
    map (place_of list_board numbers) (first_pages list_board numbers metas 2 2 board)
    ≡ (1, ("bob", 90)) ∷ (2, ("cyd", 80)) ∷ (3, ("ann", 70)) ∷ []
unfolding fetch_from_redis by_key_down
best_first = refl

first_pages-ranked_example :
    map (place_of list_board numbers) (first_pages list_board numbers metas 2 2 board)
    ≡ take 4 (ranked 1 (by_score.sort board))
first_pages-ranked_example =
    first_pages-ranked list_board numbers metas 2 2 board (omega arith) (omega arith)

abbrev updates : List Member
updates = ("ann", 75) ∷ ("bob", 60) ∷ ("ann", 85) ∷ ("ann", 80) ∷ []

update_all-greatest_example :
    get_standing list_board numbers "ann" (update_all list_board numbers updates board)
    ≡ greatest (get_standing list_board numbers "ann" board) (scores_of "ann" updates)
update_all-greatest_example = update_all-greatest list_board numbers updates board "ann"
