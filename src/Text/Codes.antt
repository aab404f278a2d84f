-- ===== src/Text/Codes.antt =====
-- Which numbers the characters have.
use Prim.Native.Nat.compare as compare_nat
use Prim.Native.Nat.{Ordering, compare as compare_nat}
use Prim.Native.Char.{Char, char, code, IsLt}
use mathlib.Core.Path.{subst}
use nlboot.Base.{ℕ, zero, suc, ◌<◌, ◌⊎◌, inl, inr, arith}

abbrev Both : Ordering → Ordering → Type 0
Both Ordering.lt o = IsLt o
Both _ o = ⊥

-- `IsScalar` by its three comparisons
abbrev Scalar : Ordering → Ordering → Ordering → Type 0
Scalar Ordering.lt _ _ = Unit
Scalar _ o p = Both o p

Scalar-cases : (o p q : Ordering) → Scalar o p q → IsLt o ⊎ (IsLt p × IsLt q)
Scalar-cases Ordering.lt p q h = inl tt
Scalar-cases Ordering.eq Ordering.lt q h = inr (tt, h)
Scalar-cases Ordering.gt Ordering.lt q h = inr (tt, h)
Scalar-cases _ _ q h = absurd h

IsLt-compare : (m n : ℕ) → IsLt (compare_nat m n) → m < n
IsLt-compare zero zero h = absurd (subst IsLt compare_nat.zero-zero h)
IsLt-compare zero (suc n) h = omega arith
IsLt-compare (suc m) zero h = absurd (subst IsLt (compare_nat.suc-zero m) h)
IsLt-compare (suc m) (suc n) h =
    let smaller = IsLt-compare m n (subst IsLt (compare_nat.suc-suc m n) h) in omega arith

-- What numbers the characters have: all below 1114112 but the surrogates.
pub code_cases : (c : Char) → (code c < 55296) ⊎ ((57343 < code c) × (code c < 1114112))
code_cases (char n p) =
    elim (Scalar-cases (compare_nat n 55296) (compare_nat 57343 n) (compare_nat n 1114112) p) [
      | inl h ↦ inl (IsLt-compare n 55296 h)
      | inr (g, h) ↦ inr (IsLt-compare 57343 n g, IsLt-compare n 1114112 h)
    ]
