-- ===== src/Text.antt =====
-- What the source uses of Python's `str`: `strip()` as a test, `startswith`, `in`.
pub mod Order
pub mod Codes
use Prim.Native.Char.{code}
use Prim.Native.String.{[], ◌∷◌}
use text.Mathlib.Text.{find?}
use nlboot.Base.{ℕ, String, Bool, true, false, none, some, not, ◌&&◌, ◌||◌, leb, eqb}

-- The characters that `str.strip()` removes, Unicode white space as `str.isspace` has it.
pub is_space : ℕ → Bool
is_space c =
    leb 9 c && leb c 13
    || leb 28 c && leb c 32
    || eqb c 133
    || eqb c 160
    || eqb c 5760
    || leb 8192 c && leb c 8202
    || eqb c 8232
    || eqb c 8233
    || eqb c 8239
    || eqb c 8287
    || eqb c 12288

-- `bool(value.strip())`
unfoldable pub has_text : String → Bool
unfolding is_space
has_text [] = false
has_text (c ∷ s) = not (is_space (code c)) || has_text s

-- `bool(value)`
abbrev pub non_empty : String → Bool
non_empty [] = false
non_empty (_ ∷ _) = true

-- `part in value`
abbrev pub has_part : String → String → Bool
has_part value part = elim (find? value part) [ none ↦ false | some _ ↦ true ]
