-- ===== src/Tools/Sbom/Values.antt =====
-- What cargo_metadata_to_spdx.py does with values of any type, and the exceptions that it ends with.
use Prim.Native.Char.{Char, code}
use Prim.Native.String.{[] as empty_text, ◌∷◌ as cons_char}
use nlboot.Base.{
  String, Bool, true, false, not, [], ◌∷◌, eqb, Result, ok, err, contains, if◌then◌else◌, or_raise,
}
use nlboot.Json.{
  Value, Fields, Items, null, bool, num, str, arr, obj, nil, cons, end, field, get_or, text_of,
}
use nlboot.Json.Paths.{member}

pub data Raised : Type 0 where
  key_error : String → Raised
  attribute_error type_error : Raised
  -- the exceptions of `read_text`, of its decoding and of `json.loads`
  read_error : Raised

-- `value[key]`: only an object has texts as keys.
abbrev pub subscript : Value → String → Result Raised Value
subscript (obj fields) key = or_raise (member key fields) (key_error key)
subscript _ key = err type_error

-- `value.get(key, default)` on a value of any type
abbrev pub get_from : Value → String → Value → Result Raised Value
get_from (obj fields) key default = ok (get_or fields key default)
get_from _ key default = err attribute_error

-- `for item in value`
abbrev pub keys : Fields → Items
keys end = nil
keys (field key value rest) = cons (str key) (keys rest)

abbrev pub characters : String → Items
characters empty_text = nil
characters (cons_char c s) = cons (str (cons_char c empty_text)) (characters s)

abbrev pub iterate : Value → Result Raised Items
iterate (arr items) = ok items
iterate (obj fields) = ok (keys fields)
iterate (str text) = ok (characters text)
iterate _ = err type_error

-- `bool(value)`; Python prints the numbers that are zero as `0`, `0.0` and `-0.0`
abbrev pub is_true : Value → Bool
is_true null = false
is_true (bool b) = b
is_true (num text) = not (contains text ("0" ∷ "0.0" ∷ "-0.0" ∷ []))
is_true (str empty_text) = false
is_true (arr nil) = false
is_true (obj end) = false
is_true _ = true

-- `value or default`
abbrev pub or_else : Value → Value → Value
or_else value default = if is_true value then value else default

-- `text.replace(old, new)` for one character by another
unfoldable pub replace : Char → Char → String → String
replace old new empty_text = empty_text
replace old new (cons_char c s) =
    let rest = replace old new s in
    if eqb (code c) (code old) then cons_char new rest else cons_char c rest

-- `value.replace`, which only a text has
abbrev pub replaceable : Value → Result Raised String
replaceable value = or_raise (text_of value) attribute_error
