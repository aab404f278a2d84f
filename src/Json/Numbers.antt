-- ===== src/Json/Numbers.antt =====
-- The texts of numbers in JSON values, and where they end.
use Prim.Native.Char.{code}
use Prim.Native.String.{[] as empty, ◌∷◌ as cons_char, ◌++◌ as append}
use text.Mathlib.TextLemmas.{nil-append, cons-append, head-eq_of_cons-eq, tail-eq_of_cons-eq}
use nlboot.Base.{ℕ, String, ◌≡◌, refl, sym, ap, ◌∙◌, Bool, true, false, ◌&&◌, ◌||◌, leb, eqb, arith}
use nlboot.Json.{Value, Items, Fields, num, arr, obj, nil, cons, end, field}

-- the characters that a number can begin with: digits, `-`, and those of NaN and Infinity
unfoldable pub number_start : ℕ → Bool
number_start n = leb 48 n && leb n 57 || eqb n 45 || eqb n 73 || eqb n 78

-- the characters of numbers: digits, letters, `+`, `-` and `.`
number_char : ℕ → Bool
number_char n =
    leb 48 n && leb n 57
    || eqb n 43
    || eqb n 45
    || eqb n 46
    || leb 65 n && leb n 90
    || leb 97 n && leb n 122

pub number_chars : String → Bool
unfolding number_char
number_chars empty = true
number_chars (cons_char c s) = number_char (code c) && number_chars s

-- a text that Python can print for a number
unfoldable pub number_text : String → Bool
unfolding number_start number_chars
number_text empty = false
number_text (cons_char c s) = number_start (code c) && number_chars (cons_char c s)

unfoldable mutual
  unfolding number_text

  -- every number in the value is kept as such a text
  pub numbers : Value → Bool
  numbers (num n) = number_text n
  numbers (arr xs) = numbers_items xs
  numbers (obj fs) = numbers_fields fs
  numbers _ = true

  pub numbers_items : Items → Bool
  numbers_items nil = true
  numbers_items (cons v vs) = numbers v && numbers_items vs

  pub numbers_fields : Fields → Bool
  numbers_fields end = true
  numbers_fields (field k v fs) = numbers v && numbers_fields fs

-- the end of the text or one of `,` `]` `}`
unfoldable pub follows : String → Bool
follows empty = true
follows (cons_char c s) = eqb (code c) 44 || eqb (code c) 93 || eqb (code c) 125

pub append_number-injective :
    (s t x y : String)
    → number_chars s ≡ true
    → number_chars t ≡ true
    → follows x ≡ true
    → follows y ≡ true
    → append s x ≡ append t y
    → (s ≡ t) × (x ≡ y)
unfolding number_chars follows
append_number-injective empty empty x y p q f g h = (refl, sym (nil-append x) ∙ h ∙ nil-append y)
append_number-injective empty (cons_char d t) x y p q f g h =
    let e : follows x ≡ follows (cons_char d (append t y)) =
      ap follows (sym (nil-append x) ∙ h ∙ cons-append d t y) in
    absurd (ground arith)
append_number-injective (cons_char c s) empty x y p q f g h =
    let e : follows y ≡ follows (cons_char c (append s x)) =
      ap follows (sym (nil-append y) ∙ sym h ∙ cons-append c s x) in
    absurd (ground arith)
append_number-injective (cons_char c s) (cons_char d t) x y p q f g h =
    let e = sym (cons-append c s x) ∙ h ∙ cons-append d t y in
    let (numbers, after) =
      append_number-injective s t x y (ground arith) (ground arith) f g (tail-eq_of_cons-eq e) in
    (ap (λ b. cons_char b s) (head-eq_of_cons-eq e) ∙ ap (cons_char d) numbers, after)

pub number_text-chars : (s : String) → number_text s ≡ true → number_chars s ≡ true
unfolding number_text
number_text-chars empty h = cc
number_text-chars (cons_char c s) h = ground arith
