-- ===== src/Fills.antt =====
-- services/telemetry-ingester/internal/validator/fill_validator.go: a fill against the expected one,
-- and the share of the fills that are correct. A score is a fraction, its counts not negative.
pub mod Accuracy
use iicpc.Prelude.{
  ℕ, suc, ◌+◌, Bool, true, false, not, List, [], ◌∷◌, ◌++◌, String, str_eq, ltb, leb, ◌==◌,
  if◌then◌else◌, length, filter,
}

pub data ViolationType : Type 0 where
  price_priority time_priority quantity_mismatch : ViolationType

-- `SandboxFill` and `ExpectedFill`, which have the same fields.
pub record Fill : Type 0 where
  pub order_id : String
  pub price : String
  pub qty : ℕ
  pub resting_order_id : String

abbrev flag : Bool → ViolationType → List ViolationType
flag raised v = if raised then v ∷ [] else []

unfoldable pub validate_fill : Fill → Fill → List ViolationType
validate_fill sandbox_fill expected =
    flag (not (str_eq sandbox_fill.price expected.price)) price_priority
    ++ flag (not (str_eq sandbox_fill.resting_order_id expected.resting_order_id)) time_priority
    ++ flag (not (sandbox_fill.qty == expected.qty)) quantity_mismatch

-- The numerator and the denominator of the score; 0 is the fraction 0 / 1.
unfoldable pub compute_accuracy_score : ℕ → ℕ → ℕ × ℕ
compute_accuracy_score total_fills correct_fills =
    if leb total_fills 0
    then (0, 1)
    else (if ltb total_fills correct_fills then total_fills else correct_fills, total_fills)
