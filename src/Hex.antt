-- ===== src/Hex.antt =====
-- `bytes.hex` and `bytes.fromhex`.
pub mod Laws
use Prim.Native.Char.{Char, code}
use Prim.Native.String.{[] as nil, ◌∷◌ as cons}
use mathlib.Core.Option
use nlboot.Base.{
  ℕ, zero, suc, ◌+◌, ◌*◌, String, Bool, ◌&&◌, ◌||◌, Option, none, some, List, [], ◌∷◌, leb, eqb,
  if◌then◌else◌,
}
use Prim.Native.Nat.{◌-◌, ◌/◌, ◌%◌}

abbrev pub Bytes : Type 0
Bytes = List ℕ

nth : String → ℕ → Char
nth nil n = "0"
nth (cons c s) zero = c
nth (cons c s) (suc n) = nth s n

-- the lower-case digit of a number below 16
unfoldable pub hex_digit : ℕ → Char
unfolding nth
hex_digit n = nth "0123456789abcdef" n

-- `signature.hex()`
unfoldable pub to_hex : Bytes → String
unfolding hex_digit
to_hex [] = nil
to_hex (b ∷ bs) = cons (hex_digit (b / 16)) (cons (hex_digit (b % 16)) (to_hex bs))

unfoldable pub hex_value : ℕ → Option ℕ
hex_value c =
    if leb b'0' c && leb c b'9'
    then some (c - 48)
    else if leb b'a' c && leb c b'f'
    then some (c - 87)
    else if leb b'A' c && leb c b'F'
    then some (c - 55)
    else none

abbrev pub is_ascii_space : ℕ → Bool
is_ascii_space c = leb 9 c && leb c 13 || eqb c 32

-- `bytes.fromhex`: pairs of digits, with white space between the pairs; `none` is the `ValueError`.
-- The first argument is the first digit of a pair, once that has been read.
pub from_hex_after : Option ℕ → String → Option Bytes
from_hex_after none nil = some []
from_hex_after (some high) nil = none
from_hex_after none (cons c s) =
    if is_ascii_space (code c)
    then from_hex_after none s
    else elim (hex_value (code c)) [ none ↦ none | some high ↦ from_hex_after (some high) s ]
from_hex_after (some high) (cons c s) = elim (hex_value (code c)) [
  | none ↦ none
  | some low ↦ Option.map (λ bs. (high * 16 + low) ∷ bs) (from_hex_after none s)
]

unfoldable pub from_hex : String → Option Bytes
unfolding from_hex_after
from_hex s = from_hex_after none s
