-- ===== src/Prelude/Map.antt =====
-- A Go map with string keys as a list of its entries, in some order of no meaning.
use Prim.Native.String.{String}
use mathlib.Core.Path.{◌≡◌, refl, subst}
use mathlib.Core.List.{List, [], ◌∷◌}
use mathlib.Core.Option.{Option, none, some}
use native.Mathlib.Omega.{arith}
use text.Mathlib.Text.{◌==◌}
use text.Mathlib.TextEquality.{eq_iff}
use iicpc.Prelude.Tests.{if◌then◌else◌, Bool-cases}
use iicpc.Prelude.Lists.{any}
use mathlib.Core.Logic.{inl, inr}

module _ {ℓ} {V : Type ℓ} where
  -- The value of a key, `m[k] = v`, and `delete(m, k)` for each of some keys.
  unfoldable pub get : List (String × V) → String → Option V
  get [] k = none
  get (e ∷ m) k = if e.0 == k then some e.1 else get m k

  unfoldable pub put : List (String × V) → String → V → List (String × V)
  put [] k v = (k, v) ∷ []
  put (e ∷ m) k v = let rest = put m k v in if e.0 == k then (k, v) ∷ m else e ∷ rest

  unfoldable pub remove : List (String × V) → String → List (String × V)
  remove [] k = []
  remove (e ∷ m) k = let rest = remove m k in if e.0 == k then rest else e ∷ rest

  unfoldable pub remove_all : List (String × V) → List String → List (String × V)
  unfolding remove
  remove_all m [] = m
  remove_all m (k ∷ ks) = remove_all (remove m k) ks

  -- Every key has one entry.
  abbrev pub IsMap : List (String × V) → Type ℓ
  IsMap [] = Unit {ℓ}
  IsMap (e ∷ m) = (get m e.0 ≡ none) × IsMap m

  pub get-put :
      (m : List (String × V)) (k j : String) (v : V)
      → get (put m k v) j ≡ (if k == j then some v else get m j)
  unfolding get put
  get-put [] k j v = refl
  get-put (e ∷ m) k j v = ground (arith, get-put m k j v, eq_iff e.0 k, eq_iff e.0 j, eq_iff k j)

  get-remove :
      (m : List (String × V)) (k j : String)
      → get (remove m k) j ≡ (if k == j then none else get m j)
  unfolding get remove
  get-remove [] k j = ground arith
  get-remove (e ∷ m) k j = ground (arith, get-remove m k j, eq_iff e.0 k, eq_iff e.0 j, eq_iff k j)

  pub get-remove_all :
      (m : List (String × V)) (ks : List String) (j : String)
      → get (remove_all m ks) j ≡ (if any (λ k. k == j) ks then none else get m j)
  unfolding remove_all
  get-remove_all m [] j = refl
  get-remove_all m (k ∷ ks) j = ground (arith, get-remove_all (remove m k) ks j, get-remove m k j)

  pub put-IsMap : (m : List (String × V)) (k : String) (v : V) → IsMap m → IsMap (put m k v)
  unfolding get put
  put-IsMap [] k v h = (refl, tt)
  put-IsMap (e ∷ m) k v h = elim (Bool-cases (e.0 == k)) [
    | inl same ↦ rw same (subst (λ j. get m j ≡ none) ((eq_iff e.0 k).0 same) h.0, h.1)
    | inr other ↦
        rw other
          (ground (arith, get-put m k e.0 v, h.0, eq_iff e.0 k, eq_iff k e.0), put-IsMap m k v h.1)
  ]

  remove-IsMap : (m : List (String × V)) (k : String) → IsMap m → IsMap (remove m k)
  unfolding remove
  remove-IsMap [] k h = tt
  remove-IsMap (e ∷ m) k h = elim (Bool-cases (e.0 == k)) [
    | inl same ↦ rw same (remove-IsMap m k h.1)
    | inr other ↦ rw other (ground (arith, get-remove m k e.0, h.0), remove-IsMap m k h.1)
  ]

  pub remove_all-IsMap :
      (m : List (String × V)) (ks : List String) → IsMap m → IsMap (remove_all m ks)
  unfolding remove_all
  remove_all-IsMap m [] h = h
  remove_all-IsMap m (k ∷ ks) h = remove_all-IsMap (remove m k) ks (remove-IsMap m k h)
