-- ===== src/Board/Publication.antt =====
-- The attempts of a publication (leaderboard/store.go).
use iicpc.Prelude.{ℕ, ◌≤◌, ◌≡◌, ◌↔◌, Bool, true, not, ◌&&◌, [], ◌∷◌, take, length, arith}
use iicpc.Board.{exhausted, attempts, publish_score_with_backoff}

-- A publication makes three attempts at most and waits twice at most: the waits are the first ones of
-- 100 and 200 milliseconds, and there is none of 400. It gives up exactly if all three attempts fail
-- and neither wait is cancelled.
pub publish-attempts :
    (fails cancels : ℕ → Bool)
    → let o = publish_score_with_backoff fails cancels in
      (length o.0 ≤ 2)
      × (o.0 ≡ take (length o.0) (100 ∷ 200 ∷ []))
      × ((o.1 ≡ exhausted)
          ↔ ((fails 0 && not (cancels 1) && fails 1 && not (cancels 2) && fails 2) ≡ true))
unfolding publish_score_with_backoff attempts
publish-attempts fails cancels = (ground arith, ground arith, ground arith)
