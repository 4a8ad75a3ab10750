-- ===== src/Prelude/Table.antt =====
-- Python dictionaries with text keys, as lists of their items in the order of insertion.
use Prim.Native.String.{String}
use mathlib.Core.Path.{◌≡◌, refl}
use mathlib.Core.Option.{Option, none, some}
use mathlib.Core.List.{List, [], ◌∷◌}
use native.Mathlib.Omega.{arith}
use text.Mathlib.Text.{◌==◌}
use text.Mathlib.TextEquality.{eq_iff}
use text.Mathlib.TextPositions.{eq_refl}
use mathlib.Core.Logic.{inl, inr}
use merita.Prelude.Tests.{if◌then◌else◌, String-cases, Bool-cases}

module _ {ℓ} {A : Type ℓ} where
  -- `d.get(k)`
  unfoldable pub value_at : String → List (String × A) → Option A
  value_at k [] = none
  value_at k ((j, a) ∷ rest) = if j == k then some a else value_at k rest

  -- `d[k] = f(d.get(k))`
  unfoldable pub update_at : (Option A → A) → String → List (String × A) → List (String × A)
  update_at f k [] = (k, f none) ∷ []
  update_at f k ((j, a) ∷ rest) =
      if j == k then (j, f (some a)) ∷ rest else (j, a) ∷ update_at f k rest

  pub value_at-update_at :
      (f : Option A → A) (k t : String) (d : List (String × A))
      → value_at t (update_at f k d) ≡ (if k == t then some (f (value_at k d)) else value_at t d)
  unfolding value_at update_at
  value_at-update_at f k t [] = refl
  value_at-update_at f k t ((j, a) ∷ rest) = elim (String-cases j k) [
    | inl same ↦ elim (Bool-cases (k == t)) [
      | inl asked ↦ rw (same, eq_refl k, asked) (ground (arith, same, asked))
      | inr other ↦ rw (same, eq_refl k, other) (ground (arith, same, other))
    ]
    | inr differ ↦
        ground (arith, value_at-update_at f k t rest, eq_iff j k, eq_iff j t, eq_iff k t, differ)
  ]
