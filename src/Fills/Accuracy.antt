-- ===== src/Fills/Accuracy.antt =====
-- Which violations a fill has, and what a full score means (fill_validator.go).
use iicpc.Prelude.{
  ℕ, ◌≤◌, ◌<◌, ◌≡◌, ◌↔◌, Bool, true, false, [], str_eq, eq_iff, ◌==◌, if◌then◌else◌, count, arith,
}
use iicpc.Fills.{
  ViolationType, price_priority, time_priority, quantity_mismatch, Fill, validate_fill,
  compute_accuracy_score,
}

abbrev pub is_price : ViolationType → Bool
is_price price_priority = true
is_price _ = false

abbrev pub is_time : ViolationType → Bool
is_time time_priority = true
is_time _ = false

abbrev pub is_quantity : ViolationType → Bool
is_quantity quantity_mismatch = true
is_quantity _ = false

-- Each kind of violation is reported at most once, and exactly if the field of its kind differs from
-- the expected one: the price, the resting order, the quantity. So a fill has no violation exactly if
-- all three agree.
validate_fill-flags :
    (f e : Fill)
    → let vs = validate_fill f e in
      (count is_price vs ≡ (if str_eq f.price e.price then 0 else 1))
      × (count is_time vs ≡ (if str_eq f.resting_order_id e.resting_order_id then 0 else 1))
      × (count is_quantity vs ≡ (if f.qty == e.qty then 0 else 1))
      × ((vs ≡ [])
          ↔ ((f.price ≡ e.price) × (f.resting_order_id ≡ e.resting_order_id) × (f.qty ≡ e.qty)))
unfolding validate_fill
validate_fill-flags f e = (
  ground arith,
  ground arith,
  ground arith,
  ground (arith, eq_iff f.price e.price, eq_iff f.resting_order_id e.resting_order_id),
)

-- A score is a fraction between 0 and 1.
score-le :
    (total correct : ℕ) → let s = compute_accuracy_score total correct in (0 < s.1) × (s.0 ≤ s.1)
unfolding compute_accuracy_score
score-le total correct = (ground arith, ground arith)
