-- ===== src/Base/Lists.antt =====
-- Lists of texts as Python's sets and tuples: membership tests, and predicates by recursion.
use Prim.Native.Nat.{ℕ, suc}
use Prim.Native.String.{String}
use mathlib.Core.Bool.{Bool, false, ◌||◌}
use mathlib.Core.List.{List, [], ◌∷◌}
use text.Mathlib.Text.{◌==◌}
use text.Mathlib.TextEquality.{eq_iff}
use mathlib.Core.Path.{◌≡◌}
use mathlib.Core.Logic.{inl, inr}
use nlboot.Base.Tests.{Bool-cases}

pub eq_of_differ : (a b : String) → (a ≡ b → ⊥) → (a == b) ≡ false
eq_of_differ a b h = elim (Bool-cases (a == b)) [
  | inl e ↦ absurd (h ((eq_iff a b).0 e))
  | inr e ↦ e
]

-- `x in xs`
abbrev pub contains : String → List String → Bool
contains x [] = false
contains x (y ∷ ys) = x == y || contains x ys

module _ {ℓ} {A : Type ℓ} where
  abbrev pub length : List A → ℕ
  length [] = 0
  length (x ∷ xs) = suc (length xs)

module _ {ℓ κ} {A : Type ℓ} (P : A → Type κ) where
  abbrev pub All : List A → Type κ
  All [] = Unit
  All (x ∷ xs) = P x × All xs
