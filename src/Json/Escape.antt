-- ===== src/Json/Escape.antt =====
-- `json.dumps` on texts, read back: what the escape of a character is the escape of.
use Prim.Native.Nat.{◌/◌, ◌%◌, ◌-◌}
use Prim.Native.Char.{Char, code}
use Prim.Native.String.{[] as empty, ◌∷◌ as cons_char, ◌++◌ as append}
use text.Mathlib.TextEquality.{Char-path}
use text.Mathlib.TextLemmas.{nil-append, cons-append, append_assoc}
use nlboot.Base.{
  ℕ, ◌+◌, ◌*◌, ◌<◌, inl, inr, String, ◌≡◌, refl, sym, ap, ◌∙◌, Bool, true, false, ◌&&◌, Option,
  none, some, arith, ltb, leb, eqb, if◌then◌else◌, Bool-cases,
}
use nlboot.Json.Dump.{unicode_escape, escape_char}
use nlboot.Text.Codes.{code_cases}
use nlboot.Json.Units.{read_unit, digits, read_unit-digits, append-unicode_escape}

-- The rest of a surrogate pair.
read_low : ℕ → String → ℕ × String
unfolding read_unit
read_low high (cons_char _ (cons_char _ rest)) =
    let (low, after) = read_unit rest in ((high - 55296) * 1024 + (low - 56320) + 65536, after)
read_low high rest = (0, rest)

is_high : ℕ → Bool
is_high n = leb 55296 n && ltb n 56320

read_units : String → ℕ × String
unfolding read_unit read_low is_high
read_units s = let (n, rest) = read_unit s in if is_high n then read_low n rest else (n, rest)

-- What a letter after a backslash stands for.
short : ℕ → ℕ
short n =
    if eqb n 110
    then 10
    else if eqb n 114
    then 13
    else if eqb n 116
    then 9
    else if eqb n 102
    then 12
    else if eqb n 98
    then 8
    else n

read_escape : String → ℕ × String
unfolding read_units short
read_escape empty = (0, empty)
read_escape (cons_char c s) = if eqb (code c) 117 then read_units s else (short (code c), s)

-- The number of the character that is written first, and what follows; none at a quote.
read_char : String → Option (ℕ × String)
unfolding read_escape
read_char empty = none
read_char (cons_char c s) =
    if eqb (code c) 34 then none else some (if eqb (code c) 92 then read_escape s else (code c, s))

-- The escape `s` is read as `c`.
Reads : String → Char → Type 0
Reads s c = (x : String) → read_char (append s x) ≡ some (code c, x)

choose :
    (c : Char) (b : Bool) (s t : String)
    → (b ≡ true → Reads s c)
    → (b ≡ false → Reads t c)
    → Reads (if b then s else t) c
choose c b s t so otherwise = elim (Bool-cases b) [
  | inl e ↦ rw e (so e)
  | inr e ↦ rw e (otherwise e)
]

-- a character that is written as itself
itself :
    (c : Char) → eqb (code c) 34 ≡ false → eqb (code c) 92 ≡ false → Reads (cons_char c empty) c
unfolding Reads read_char
itself c g h x = rw (cons-append c empty x, nil-append x, g, h)

-- a backslash with one character
short_escape :
    (c d : Char)
    → eqb (code d) 117 ≡ false
    → short (code d) ≡ code c
    → Reads (cons_char "\\" (cons_char d empty)) c
unfolding Reads read_char read_escape
short_escape c d h e x =
    rw (cons-append "\\" (cons_char d empty) x, cons-append d empty x, nil-append x, h, e)

unit_escape :
    (c : Char) → code c < 65536 → is_high (code c) ≡ false → Reads (unicode_escape (code c)) c
unfolding Reads read_char read_escape read_units
unit_escape c h e x =
    ap read_char (append-unicode_escape (code c) x) ∙ rw (read_unit-digits (code c) x h, e)

read_low-unicode_escape :
    (high low : ℕ) (x : String)
    → low < 65536
    → read_low high (append (unicode_escape low) x)
      ≡ ((high - 55296) * 1024 + (low - 56320) + 65536, x)
unfolding read_low
read_low-unicode_escape high low x h =
    ap (read_low high) (append-unicode_escape low x) ∙ rw (read_unit-digits low x h)

read_units-high :
    (high low : ℕ) (x : String)
    → 55295 < high
    → high < 56320
    → low < 65536
    → read_units (digits high (append (unicode_escape low) x))
      ≡ ((high - 55296) * 1024 + (low - 56320) + 65536, x)
unfolding read_units is_high
read_units-high high low x h g l =
    let is : is_high high ≡ true = ground arith in
    rw (read_unit-digits high (append (unicode_escape low) x) (omega arith), is)
      (read_low-unicode_escape high low x l)

pair_escape :
    (c : Char)
    → 65535 < code c
    → code c < 1114112
    → Reads
        (append
          (unicode_escape (55296 + (code c - 65536) / 1024 % 1024))
          (unicode_escape (56320 + (code c - 65536) % 1024)))
        c
unfolding Reads read_char read_escape
pair_escape c h g x =
    let high : ℕ = 55296 + (code c - 65536) / 1024 % 1024 in
    let low : ℕ = 56320 + (code c - 65536) % 1024 in
    ap read_char
      (append_assoc (unicode_escape high) (unicode_escape low) x ∙ append-unicode_escape high _)
    ∙ ap some (
        read_units-high high low x (omega arith) (omega arith) (omega arith)
        ∙ ap (λ n. (n, x)) (omega arith))

read_char-escape_char : (c : Char) → Reads (escape_char c) c
unfolding escape_char short is_high
read_char-escape_char c =
    choose c (eqb (code c) 34) _ _ (λ h. short_escape c "\"" refl (ground arith))
      λ quoted.
        choose c (eqb (code c) 92) _ _ (λ h. short_escape c "\\" refl (ground arith))
          λ slash.
            choose c (eqb (code c) 10) _ _ (λ h. short_escape c "n" refl (ground arith))
              λ _.
                choose c (eqb (code c) 13) _ _ (λ h. short_escape c "r" refl (ground arith))
                  λ _.
                    choose c (eqb (code c) 9) _ _ (λ h. short_escape c "t" refl (ground arith))
                      λ _.
                        choose c (eqb (code c) 12) _ _ (λ h. short_escape c "f" refl (ground arith))
                          λ _.
                            choose c (eqb (code c) 8) _ _
                              (λ h. short_escape c "b" refl (ground arith))
                              λ _.
                                choose c (leb 32 (code c) && leb (code c) 126) _ _
                                  (λ h. itself c quoted slash)
                                  λ _.
                                    choose c (ltb (code c) 65536) _ _
                                      (λ h. unit_escape c (ground arith) (elim (code_cases c) [
                                        | inl g ↦ ground arith
                                        | inr g ↦ ground arith
                                      ]))
                                      λ h. pair_escape c (ground arith) (elim (code_cases c) [
                                        | inl g ↦ ground arith
                                        | inr (_, g) ↦ ground arith
                                      ])

-- Two escapes that begin one text are escapes of the same character.
pub escape_char-injective :
    (c d : Char) (x y : String)
    → append (escape_char c) x ≡ append (escape_char d) y
    → (c ≡ d) × (x ≡ y)
unfolding Reads
escape_char-injective c d x y h =
    let read : some (code c, x) ≡ some (code d, y) =
      sym (read_char-escape_char c x) ∙ ap read_char h ∙ read_char-escape_char d y in
    (Char-path c d (cc read), cc read)

-- No escape begins as the end of a text does.
pub escape_char-ne-quote :
    (c : Char) (x y : String) → append (escape_char c) x ≡ cons_char "\"" y → ⊥
unfolding read_char Reads
escape_char-ne-quote c x y h = cc (sym (read_char-escape_char c x) ∙ ap read_char h)
