-- ===== src/Json/Paths.antt =====
-- Values below the members of an object, and the source's chains of `get` with defaults.
use nlboot.Base.{
  String, ◌≡◌, refl, sym, ap, ◌∙◌, ◌⊎◌, inl, inr, true, Option, none, some, List, [], ◌∷◌, ◌==◌,
  if◌then◌else◌, Bool-cases, Option-cases, ◌↔◌, eq_iff, eq_refl,
}
use nlboot.Json.{Value, Fields, str, null, obj, end, field, get, get_or, is_text}

-- The value that the object holds under the key, if it holds one.
abbrev pub member : String → Fields → Option Value
member key end = none
member key (field k v rest) = if k == key then some v else member key rest

-- The object holds the value below these keys, one inside the other.
abbrev pub HoldsAt : Fields → List String → Value → Type 0
HoldsAt fields [] value = ⊥
HoldsAt fields (key ∷ []) value = member key fields ≡ some value
HoldsAt fields (key ∷ next ∷ keys) value =
    (inner : Fields) × (member key fields ≡ some (obj inner)) × HoldsAt inner (next ∷ keys) value

abbrev pub or_default : Option Value → Value → Value
or_default none default = default
or_default (some value) default = value

pub get_or-member :
    (fields : Fields) (key : String) (default : Value)
    → get_or fields key default ≡ or_default (member key fields) default
get_or-member end key default = refl
get_or-member (field k v rest) key default = elim (Bool-cases (k == key)) [
  | inl e ↦ rw e
  | inr e ↦ rw e (get_or-member rest key default)
]

-- What `get` returns is the member, or the default where there is none.
pub get_or-cases :
    (fields : Fields) (key : String) (default : Value)
    → (get_or fields key default ≡ default) ⊎ (member key fields ≡ some (get_or fields key default))
get_or-cases fields key default = elim (Option-cases (member key fields)) [
  | inl e ↦ inl (get_or-member fields key default ∙ ap (λ o. or_default o default) e)
  | inr (v, e) ↦
      inr (e ∙ ap some (sym (get_or-member fields key default ∙ ap (λ o. or_default o default) e)))
]

pub get_or_of_member :
    (fields : Fields) (key : String) (default value : Value)
    → member key fields ≡ some value
    → get_or fields key default ≡ value
get_or_of_member fields key default value e =
    get_or-member fields key default ∙ ap (λ o. or_default o default) e

pub is_text_sound : (v : Value) (text : String) → is_text v text ≡ true → v ≡ str text
is_text_sound (str t) text h = ap str ((eq_iff t text).0 h)
is_text_sound _ text h = cc

-- `get(key) == text`, and `get(key, "")` as a text with a test that the empty text does not pass.
pub is_text-get_iff :
    (fields : Fields) (key text : String)
    → (is_text (get fields key) text ≡ true) ↔ HoldsAt fields (key ∷ []) (str text)
is_text-get_iff fields key text = (sound, complete)
  where
    sound : is_text (get fields key) text ≡ true → HoldsAt fields (key ∷ []) (str text)
    sound h = elim (get_or-cases fields key null) [
      | inl e ↦ cc (is_text_sound _ text h ∙ refl)
      | inr e ↦ e ∙ ap some (is_text_sound _ text h)
    ]

    complete : HoldsAt fields (key ∷ []) (str text) → is_text (get fields key) text ≡ true
    complete e = rw (get_or_of_member fields key null (str text) e) (eq_refl text)
