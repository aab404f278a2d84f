-- ===== src/Json/Units.antt =====
-- The four digits of a `\uXXXX` of `json.dumps`, and how they are read.
use Prim.Native.Nat.{◌/◌, ◌%◌}
use Prim.Native.Char.{Char, code}
use Prim.Native.String.{[] as empty, ◌∷◌ as cons_char, ◌++◌ as append}
use text.Mathlib.TextLemmas.{nil-append, cons-append, append_assoc}
use nlboot.Base.{ℕ, ◌+◌, ◌*◌, ◌<◌, String, ◌≡◌, ap, ◌∙◌, none, some, arith}
use nlboot.Hex.{hex_digit, hex_value}
use nlboot.Hex.Laws.{hex_value-hex_digit}
use nlboot.Json.Dump.{unicode_escape}

-- The four digits of a `\uXXXX`, and what follows them.
digit : Char → ℕ
digit c = elim (hex_value (code c)) [ none ↦ 0 | some n ↦ n ]

unfoldable pub read_unit : String → ℕ × String
unfolding digit
read_unit (cons_char p (cons_char q (cons_char r (cons_char s rest)))) =
    (digit p * 4096 + digit q * 256 + digit r * 16 + digit s, rest)
read_unit rest = (0, rest)

two :
    (c d : Char) (x : String)
    → append (cons_char c (cons_char d empty)) x ≡ cons_char c (cons_char d x)
two c d x =
    cons-append c _ x ∙ ap (cons_char c) (cons-append d empty x ∙ ap (cons_char d) (nil-append x))

unfoldable pub digits : ℕ → String → String
digits n x = cons_char (hex_digit (n / 4096 % 16)) (
    cons_char (hex_digit (n / 256 % 16))
      (cons_char (hex_digit (n / 16 % 16)) (cons_char (hex_digit (n % 16)) x)))

digit-hex_digit : (n : ℕ) → digit (hex_digit (n % 16)) ≡ n % 16
unfolding digit
digit-hex_digit n = rw (digit, hex_value-hex_digit (n % 16) (omega arith))

pub read_unit-digits : (n : ℕ) (x : String) → n < 65536 → read_unit (digits n x) ≡ (n, x)
unfolding digits read_unit
read_unit-digits n x h =
    rw
      (
        digit-hex_digit (n / 4096),
        digit-hex_digit (n / 256),
        digit-hex_digit (n / 16),
        digit-hex_digit n,
      )
      (ap (λ m. (m, x)) (omega arith))

pub append-unicode_escape :
    (n : ℕ) (x : String) → append (unicode_escape n) x ≡ cons_char "\\" (cons_char "u" (digits n x))
unfolding digits
append-unicode_escape n x =
    append_assoc "\\u" _ x
    ∙ two "\\" "u" _
    ∙ ap (λ s. cons_char "\\" (cons_char "u" s)) (simp (cons-append, nil-append))
