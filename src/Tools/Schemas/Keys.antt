-- ===== src/Tools/Schemas/Keys.antt =====
-- validate_contract_schemas.py: the tests on the keys of the schema and of the fixture.
use nlboot.Base.{
  String, ◌≡◌, refl, sym, ◌∙◌, inl, inr, Bool, true, Option, none, some, List, [], ◌∷◌, ◌==◌, ok,
  guard, contains, All, Bool-cases, eq_iff, eq_refl, true_of_guard, >>=-eq-ok,
}
use nlboot.Json.{Value, Fields, Items, str, obj, nil, cons, end, field}
use nlboot.Json.Paths.{member}
use nlboot.Tools.Schemas.{return_1, keys, without, is_empty, is_some, check_keys}

-- The object has the key.
abbrev pub Has : Fields → String → Type 0
Has fields key = (value : Value) × (member key fields ≡ some value)

-- The items are texts, each of them a key of the object.
abbrev pub AllKeys : Fields → Items → Type 0
AllKeys fields nil = Unit
AllKeys fields (cons value rest) =
    ((key : String) × (value ≡ str key) × Has fields key) × AllKeys fields rest

contains-keys :
    (name : String) (fields : Fields) → contains name (keys fields) ≡ is_some (member name fields)
contains-keys name end = refl
contains-keys name (field key value rest) = elim (Bool-cases (key == name)) [
  | inl e ↦ rw (e, (eq_iff name key).1 (sym ((eq_iff key name).0 e)))
  | inr e ↦ elim (Bool-cases (name == key)) [
    | inl f ↦ absurd (cc (e, eq_refl name, (eq_iff name key).0 f))
    | inr f ↦ rw (e, f) (contains-keys name rest)
  ]
]

Has-of_is_some :
    (fields : Fields) (key : String) → is_some (member key fields) ≡ true → Has fields key
Has-of_is_some fields key h = some_of (member key fields) h
  where
    some_of : (o : Option Value) → is_some o ≡ true → (value : Value) × (o ≡ some value)
    some_of none h = cc
    some_of (some value) h = (value, refl)

pub without_sound :
    (names : List String) (fields : Fields)
    → is_empty (without names (keys fields)) ≡ true
    → All (Has fields) names
without_sound [] fields h = tt
without_sound (name ∷ names) fields h = elim (Bool-cases (contains name (keys fields))) [
  | inl e ↦ (
    Has-of_is_some fields name (sym (contains-keys name fields) ∙ e),
    without_sound names fields (rw e at h),
  )
  | inr e ↦ cc (e, h)
]

pub without_complete :
    (names : List String) (fields : Fields)
    → All (Has fields) names
    → is_empty (without names (keys fields)) ≡ true
without_complete [] fields h = refl
without_complete (name ∷ names) fields ((value, e), rest) =
    rw (contains-keys name fields, e) (without_complete names fields rest)

module _ (in_list : Items → Value → Bool) where
  pub check_keys_sound :
      (fixture : Fields) (items : Items)
      → check_keys in_list (obj fixture) items ≡ ok tt
      → AllKeys fixture items
  unfolding check_keys
  check_keys_sound fixture nil h = tt
  check_keys_sound fixture (cons (str key) rest) h =
      let (u, test, held) =
        >>=-eq-ok (guard (is_some (member key fixture)) return_1)
          (λ _. check_keys in_list (obj fixture) rest) h in
      (
        (key, refl, Has-of_is_some fixture key (true_of_guard _ _ test)),
        check_keys_sound fixture rest held,
      )
  check_keys_sound fixture (cons _ rest) h = cc

  pub check_keys_complete :
      (fixture : Fields) (items : Items)
      → AllKeys fixture items
      → check_keys in_list (obj fixture) items ≡ ok tt
  unfolding check_keys
  check_keys_complete fixture nil h = refl
  check_keys_complete fixture (cons value rest) ((key, e, (v, f)), held) =
      rw (e, f) (check_keys_complete fixture rest held)
