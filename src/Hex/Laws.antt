-- ===== src/Hex/Laws.antt =====
-- `bytes.fromhex` on what `bytes.hex` writes.
use Prim.Native.Nat.{◌/◌, ◌%◌}
use Prim.Native.Char.{Char, code}
use Prim.Native.String.{◌∷◌ as cons}
use nlboot.Base.{
  ℕ, zero, suc, ◌+◌, ◌*◌, ◌<◌, String, ◌≡◌, refl, ap, ◌∙◌, Bool, true, false, not, ◌&&◌, Option,
  none, some, [], ◌∷◌, arith, eqb, All,
}
use nlboot.Hex.{Bytes, hex_digit, to_hex, hex_value, is_ascii_space, from_hex_after, from_hex}

abbrev is_value : Option ℕ → ℕ → Bool
is_value none n = false
is_value (some m) n = eqb m n

is_value_sound : (o : Option ℕ) (n : ℕ) → is_value o n ≡ true → o ≡ some n
is_value_sound none n h = cc
is_value_sound (some m) n h = ground arith

-- the digit of `n` is read as `n`, and is no white space
reads_back : ℕ → Bool
reads_back n =
    is_value (hex_value (code (hex_digit n))) n && not (is_ascii_space (code (hex_digit n)))

-- the test passes on every number under the bound
unfoldable pub passes_below : (ℕ → Bool) → ℕ → Bool
passes_below test (suc bound) = passes_below test bound && test bound
passes_below test zero = true

pub passed :
    (test : ℕ → Bool) (bound i : ℕ) → i < bound → passes_below test bound ≡ true → test i ≡ true
unfolding passes_below
passed test zero i small all = absurd (omega arith)
passed test (suc bound) i small all = ground (arith, passed test bound i)

digit_table : passes_below reads_back 16 ≡ true
unfolding passes_below reads_back hex_value hex_digit
digit_table = refl

pub hex_value-hex_digit : (n : ℕ) → n < 16 → hex_value (code (hex_digit n)) ≡ some n
unfolding reads_back
hex_value-hex_digit n h =
    let t = passed reads_back 16 n h digit_table in is_value_sound _ n (ground arith)

digit_not_space : (n : ℕ) → n < 16 → is_ascii_space (code (hex_digit n)) ≡ false
unfolding reads_back
digit_not_space n h = let t = passed reads_back 16 n h digit_table in ground arith

after_high :
    (c : Char) (s : String) {high : ℕ}
    → is_ascii_space (code c) ≡ false
    → hex_value (code c) ≡ some high
    → from_hex_after none (cons c s) ≡ from_hex_after (some high) s
unfolding from_hex_after
after_high c s p e = rw (p, e)

after_low :
    (high : ℕ) (c : Char) (s : String) {low : ℕ} {bs : Bytes}
    → hex_value (code c) ≡ some low
    → from_hex_after none s ≡ some bs
    → from_hex_after (some high) (cons c s) ≡ some ((high * 16 + low) ∷ bs)
unfolding from_hex_after
after_low high c s e h = ground arith

read_back : (bs : Bytes) → All (λ b. b < 256) bs → from_hex_after none (to_hex bs) ≡ some bs
unfolding to_hex
read_back [] h = unfold from_hex_after in refl
read_back (b ∷ bs) (lt, h) =
    after_high _ _ (digit_not_space (b / 16) (omega arith))
      (hex_value-hex_digit (b / 16) (omega arith))
    ∙ after_low (b / 16) _ _ (hex_value-hex_digit (b % 16) (omega arith)) (read_back bs h)
    ∙ ap (λ n. some (n ∷ bs)) (omega arith)

-- `bytes.fromhex` reads back the bytes that `bytes.hex` writes, for bytes below 256.
pub from_hex-to_hex : (bs : Bytes) → All (λ b. b < 256) bs → from_hex (to_hex bs) ≡ some bs
unfolding from_hex
from_hex-to_hex bs h = read_back bs h
