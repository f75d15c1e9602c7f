-- ===== src/Prelude/Texts.antt =====
-- Decidable equality of texts.
use Prim.Native.String.{String}
use mathlib.Core.Path.{◌≡◌}
use mathlib.Core.Bool.{Bool, true, false}
use text.Mathlib.Text.{◌==◌}
use text.Mathlib.TextEquality.{eq_iff}

decide_by : (s t : String) (b : Bool) → (s == t) ≡ b → Dec (s ≡ t)
decide_by s t true h = yes ((eq_iff s t).0 h)
decide_by s t false h = no (λ e. cc (h, (eq_iff s t).1 e))

unfoldable pub String_discrete : Discrete String
unfolding decide_by
String_discrete s t = decide_by s t (s == t) (λ i. s == t)
