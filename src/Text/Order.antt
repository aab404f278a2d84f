-- ===== src/Text/Order.antt =====
-- The order of texts by which `sorted` and `sort_keys` sort, as the comparison of native texts.
use Prim.Native.Nat.compare as compare_nat
use Prim.Native.Nat.{Ordering, compare as compare_nat}
use Prim.Native.Char.{code}
use Prim.Native.String.compare
use Prim.Native.String.{[] as empty, ◌∷◌ as cons_char, compare, then}
use text.Mathlib.Text.{is_le}
use text.Mathlib.TextEquality.{Char-path}
use nlboot.Base.{
  ℕ, zero, suc, String, ◌≡◌, refl, ap, ◌∙◌, Bool, true, false, ◌&&◌, ◌||◌, ltb, eqb, arith,
  Bool-cases, inl, inr,
}

-- the order of texts by their characters' codes
pub before : String → String → Bool
before empty t = true
before (cons_char c s) empty = false
before (cons_char c s) (cons_char d t) =
    ltb (code c) (code d) || eqb (code c) (code d) && before s t

below :
    (m n : ℕ) (o : Ordering) → is_le (then (compare_nat m n) o) ≡ (ltb m n || eqb m n && is_le o)
below zero zero o = ap (λ x. is_le (then x o)) compare_nat.zero-zero ∙ ground arith
below zero (suc n) o = ap (λ x. is_le (then x o)) (compare_nat.zero-suc n) ∙ ground arith
below (suc m) zero o = ap (λ x. is_le (then x o)) (compare_nat.suc-zero m) ∙ ground arith
below (suc m) (suc n) o =
    ap (λ x. is_le (then x o)) (compare_nat.suc-suc m n) ∙ below m n o ∙ ground arith

pub is_le-compare : (s t : String) → is_le (compare s t) ≡ before s t
unfolding before
is_le-compare empty empty = ap is_le compare.nil-nil
is_le-compare empty (cons_char d t) = ap is_le (compare.nil-cons d t)
is_le-compare (cons_char c s) empty = ap is_le (compare.cons-nil c s)
is_le-compare (cons_char c s) (cons_char d t) =
    ap is_le (compare.cons-cons c d s t)
    ∙ below (code c) (code d) (compare s t)
    ∙ ap (λ b. ltb (code c) (code d) || eqb (code c) (code d) && b) (is_le-compare s t)

pub before_total : (s t : String) → before s t ≡ false → before t s ≡ true
unfolding before
before_total empty t h = cc
before_total (cons_char c s) empty h = refl
before_total (cons_char c s) (cons_char d t) h = ground (arith, before_total s t)

pub before_trans : (s t u : String) → before s t ≡ true → before t u ≡ true → before s u ≡ true
unfolding before
before_trans empty t u h k = refl
before_trans (cons_char c s) empty u h k = cc
before_trans (cons_char c s) (cons_char d t) empty h k = cc
before_trans (cons_char c s) (cons_char d t) (cons_char e u) h k =
    ground (arith, before_trans s t u)

pub before_antisym : (s t : String) → before s t ≡ true → before t s ≡ true → s ≡ t
unfolding before
before_antisym empty empty h k = refl
before_antisym empty (cons_char d t) h k = cc
before_antisym (cons_char c s) empty h k = cc
before_antisym (cons_char c s) (cons_char d t) h k =
    let same : c ≡ d = Char-path c d (ground arith) in
    ap (λ x. cons_char x s) same
    ∙ ap (cons_char d) (before_antisym s t (ground arith) (ground arith))

pub before_strict : (s t : String) → (s ≡ t → ⊥) → before s t ≡ true → before t s ≡ false
before_strict s t differ h = elim (Bool-cases (before t s)) [
  | inl k ↦ absurd (differ (before_antisym s t h k))
  | inr k ↦ k
]
