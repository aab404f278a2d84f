-- ===== src/Json.antt =====
-- Values of parsed JSON documents: Python's `Any` under `json.loads`. A number is kept as the text
-- that Python prints for it, since the source never computes with one. An object is a `dict` in
-- insertion order; `json.loads` keeps each key once.
pub mod Dump
pub mod Units
pub mod Escape
pub mod Numbers
pub mod Write
pub mod Shown
pub mod Injective
pub mod Faithful
pub mod Canonical
pub mod Paths
pub mod Pretty
use nlboot.Base.{String, Bool, false, Option, none, some, List, [], ◌∷◌, ◌==◌, if◌then◌else◌}

mutual
  pub data Value : Type 0 where
    null : Value
    bool : Bool → Value
    num : String → Value
    str : String → Value
    arr : Items → Value
    obj : Fields → Value

  pub data Fields : Type 0 where
    end : Fields
    field : String → Value → Fields → Fields

  pub data Items : Type 0 where
    nil : Items
    cons : Value → Items → Items

-- `data.get(key, default)`
abbrev pub get_or : Fields → String → Value → Value
get_or end key default = default
get_or (field k v rest) key default = if k == key then v else get_or rest key default

-- `data.get(key)`; `None` is `null`
abbrev pub get : Fields → String → Value
get fields key = get_or fields key null

-- `isinstance(value, str)`, with the text
abbrev pub text_of : Value → Option String
text_of (str s) = some s
text_of _ = none

-- `isinstance(value, dict)`, with the object
abbrev pub object_of : Value → Option Fields
object_of (obj fs) = some fs
object_of _ = none

-- `isinstance(value, bool)`, with the truth value
abbrev pub bool_of : Value → Option Bool
bool_of (bool b) = some b
bool_of _ = none

-- `isinstance(value, list)`, with the elements
abbrev pub array_of : Value → Option Items
array_of (arr xs) = some xs
array_of _ = none

-- `value == text`
abbrev pub is_text : Value → String → Bool
is_text (str s) text = s == text
is_text _ text = false

-- `list(map(str, texts))` as a JSON array
abbrev pub strings : List String → Items
strings [] = nil
strings (s ∷ ss) = cons (str s) (strings ss)
