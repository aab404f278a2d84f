-- ===== src/Tools/Lifecycle/Documents.antt =====
-- What validate_lifecycle_contracts.py asks of the schemas and the examples, as predicates on the
-- documents, and the rule for each kind of requirement.
use text.Mathlib.Text.{starts_with}
use nlboot.Base.{
  String, ◌≡◌, refl, sym, ap, ◌∙◌, ◌↔◌, inl, inr, Bool, true, false, some, List, [], ◌∷◌, ok, ◌>>=◌,
  arith, bind_ok, true_of_guard, ok-injective, >>=-eq-ok, guard_iff,
}
use nlboot.Json.{Value, Fields, null, bool, str, obj, end, get_or}
use nlboot.Json.Paths.{member, HoldsAt, get_or-cases, get_or_of_member, is_text-get_iff}
use nlboot.Tools.Lifecycle.{
  require, require_flag, require_start, require_inner_start, require_text, get_from, starts,
  str_starts, is_bool, empty,
}

-- The object holds a text with that beginning below these keys.
abbrev pub StartsAt : Fields → List String → String → Type 0
StartsAt fields keys prefix =
    (text : String) × HoldsAt fields keys (str text) × (starts_with text prefix ≡ true)

-- A schema of the draft 2020-12, of objects of that kind.
abbrev pub IsSchema : String → Fields → Type 0
IsSchema kind schema =
    HoldsAt schema ("$schema" ∷ []) (str "https://json-schema.org/draft/2020-12/schema")
    × (HoldsAt schema ("type" ∷ []) (str "object")
        × HoldsAt schema ("properties" ∷ "kind" ∷ "const" ∷ []) (str kind))

abbrev pub HasHeader : String → Fields → Type 0
HasHeader kind example =
    HoldsAt example ("schemaVersion" ∷ []) (str "v0.1") × HoldsAt example ("kind" ∷ []) (str kind)

-- A release set is signed, rolls back to the last known good one, and leaves evidence.
abbrev pub IsReleaseSet : Fields → Type 0
IsReleaseSet example =
    StartsAt example ("releaseSetId" ∷ []) "urn:srcos:release-set:"
    × (StartsAt example ("signing" ∷ "signatureRef" ∷ []) "urn:srcos:signature:"
        × (HoldsAt example ("rollback" ∷ "lastKnownGoodRequired" ∷ []) (bool true)
            × HoldsAt example ("evidence" ∷ "emitFingerprint" ∷ []) (bool true)))

-- A boot release set asks for one-time use and a device claim, denies the unsigned fallback, and
-- leaves evidence.
abbrev pub IsBootReleaseSet : Fields → Type 0
IsBootReleaseSet example =
    StartsAt example ("bootReleaseSetId" ∷ []) "urn:srcos:boot-release-set:"
    × (HoldsAt example ("authorization" ∷ "oneTimeUseRequired" ∷ []) (bool true)
        × (HoldsAt example ("authorization" ∷ "deviceClaimRequired" ∷ []) (bool true)
            × (HoldsAt example ("offlineFallback" ∷ "allowUnsignedFallback" ∷ []) (bool false)
                × HoldsAt example ("proofs" ∷ "emitAdapterRecord" ∷ []) (bool true))))

-- A record of a life-cycle step: an allowed transition, approved, that leaves the host alone.
abbrev pub IsLifecycleRecord : Fields → Type 0
IsLifecycleRecord example =
    StartsAt example ("recordId" ∷ []) "urn:srcos:lifecycle-state-record:"
    × (HoldsAt example ("transition" ∷ "allowed" ∷ []) (bool true)
        × (HoldsAt example ("policy" ∷ "approvalRequired" ∷ []) (bool true)
            × HoldsAt example ("sideEffects" ∷ "hostMutation" ∷ []) (bool false)))

abbrev pub fields_of : Value → Fields
fields_of (obj fields) = fields
fields_of _ = end

pub get_from_sound :
    (v : Value) (key : String) (default value : Value)
    → get_from v key default ≡ ok value
    → (v ≡ obj (fields_of v)) × (get_or (fields_of v) key default ≡ value)
get_from_sound (obj fields) key default value h = (refl, ok-injective _ value h)
get_from_sound _ key default value h = cc

-- `get(outer, {}).get(key, default)` finds the value below the two keys, or the default.
pub nested_sound :
    (fields : Fields) (outer key : String) (default value : Value)
    → get_from (get_or fields outer empty) key default ≡ ok value
    → (value ≡ default → ⊥)
    → HoldsAt fields (outer ∷ key ∷ []) value
nested_sound fields outer key default value h other =
    let found = get_or fields outer empty in
    let (object, inside) = get_from_sound found key default value h in
    let listed : member key (fields_of found) ≡ some value =
      elim (get_or-cases (fields_of found) key default) [
        | inl e ↦ absurd (other (sym inside ∙ e))
        | inr e ↦ e ∙ ap some inside
      ] in
    elim (get_or-cases fields outer empty) [
      | inl e ↦ absurd (other (sym inside ∙ ap (λ v. get_or (fields_of v) key default) e))
      | inr e ↦ (fields_of found, e ∙ ap some object, listed)
    ]

pub nested_complete :
    (fields : Fields) (outer key : String) (default value : Value)
    → HoldsAt fields (outer ∷ key ∷ []) value
    → get_from (get_or fields outer empty) key default ≡ ok value
nested_complete fields outer key default value (inner, e, listed) =
    ap (λ v. get_from v key default) (get_or_of_member fields outer empty (obj inner) e)
    ∙ ap ok (get_or_of_member inner key default value listed)

-- The test of a flag below two keys.
is_bool_sound : (v : Value) (b : Bool) → is_bool v b ≡ true → v ≡ bool b
is_bool_sound (bool true) b h = ap bool (sym h)
is_bool_sound (bool false) b h = ground arith
is_bool_sound _ b h = cc

is_bool_refl : (b : Bool) → is_bool (bool b) b ≡ true
is_bool_refl true = refl
is_bool_refl false = refl

flag_at :
    (fields : Fields) (outer key : String) (want : Bool) (value : Value)
    → get_from (get_or fields outer empty) key null ≡ ok value
    → is_bool value want ≡ true
    → HoldsAt fields (outer ∷ key ∷ []) (bool want)
flag_at fields outer key want value h test =
    let same = is_bool_sound value want test in
    nested_sound fields outer key null (bool want) (h ∙ ap ok same) (λ e. cc)

pub require_flag_iff :
    (fields : Fields) (outer key : String) (want : Bool) (rel message : String)
    → (require_flag fields outer key want rel message ≡ ok tt)
      ↔ HoldsAt fields (outer ∷ key ∷ []) (bool want)
unfolding require_flag
require_flag_iff fields outer key want rel message = (
  λ h.
      let (v, e, test) =
        >>=-eq-ok (get_from (get_or fields outer empty) key null)
          (λ v. require (is_bool v want) rel message) h in
      flag_at fields outer key want v e (true_of_guard _ _ test),
  λ held.
      bind_ok _ (nested_complete fields outer key null (bool want) held)
        (ap (λ b. require b rel message) (is_bool_refl want)),
)

text_of_start :
    (v : Value) (prefix : String)
    → str_starts v prefix ≡ true
    → (text : String) × (v ≡ str text) × (starts_with text prefix ≡ true)
text_of_start (str text) prefix h = (text, refl, h)
text_of_start _ prefix h = cc

module _ (fields : Fields) (key prefix : String) (empty_fails : starts_with "" prefix ≡ false) where
  start_sound :
      str_starts (get_or fields key (str "")) prefix ≡ true → StartsAt fields (key ∷ []) prefix
  start_sound h =
      let (text, e, begins) = text_of_start (get_or fields key (str "")) prefix h in
      elim (get_or-cases fields key (str "")) [
        | inl f ↦ cc (ap (λ v. str_starts v prefix) f, h, empty_fails)
        | inr f ↦ (text, f ∙ ap some e, begins)
      ]

  start_complete :
      StartsAt fields (key ∷ []) prefix → str_starts (get_or fields key (str "")) prefix ≡ true
  start_complete (text, e, begins) =
      ap (λ v. str_starts v prefix) (get_or_of_member fields key (str "") (str text) e) ∙ begins

  pub require_start_iff :
      (rel message : String)
      → (require_start fields key prefix rel message ≡ ok tt) ↔ StartsAt fields (key ∷ []) prefix
  unfolding require_start
  require_start_iff rel message =
      (λ h. start_sound ((guard_iff _ _).0 h), λ s. (guard_iff _ _).1 (start_complete s))

starts_sound :
    (v : Value) (prefix : String)
    → starts v prefix ≡ ok true
    → (text : String) × (v ≡ str text) × (starts_with text prefix ≡ true)
starts_sound (str text) prefix h = (text, refl, ok-injective _ _ h)
starts_sound _ prefix h = cc

module _ (fields : Fields) (outer key prefix : String)
    (empty_fails : starts_with "" prefix ≡ false) where
  inner_start_sound :
      (v : Value)
      → get_from (get_or fields outer empty) key (str "") ≡ ok v
      → starts v prefix ≡ ok true
      → StartsAt fields (outer ∷ key ∷ []) prefix
  inner_start_sound v e h =
      let (text, same, begins) = starts_sound v prefix h in
      (
        text,
        nested_sound fields outer key (str "") (str text) (e ∙ ap ok same)
            (λ blank. cc (ap (λ w. str_starts w prefix) blank, begins, empty_fails)),
        begins,
      )

  pub require_inner_start_iff :
      (rel message : String)
      → (require_inner_start fields outer key prefix rel message ≡ ok tt)
        ↔ StartsAt fields (outer ∷ key ∷ []) prefix
  unfolding require_inner_start
  require_inner_start_iff rel message = (
    λ h.
        let (v, e, rest) =
          >>=-eq-ok (get_from (get_or fields outer empty) key (str ""))
            (λ v. starts v prefix >>= λ b. require b rel message) h in
        let (b, s, test) = >>=-eq-ok (starts v prefix) (λ b. require b rel message) rest in
        inner_start_sound v e (s ∙ ap ok (true_of_guard b _ test)),
    λ (text, held, begins).
        bind_ok _ (nested_complete fields outer key (str "") (str text) held)
          (ap (λ b. require b rel message) begins),
  )

pub require_text_iff :
    (fields : Fields) (key text rel message : String)
    → (require_text fields key text rel message ≡ ok tt) ↔ HoldsAt fields (key ∷ []) (str text)
unfolding require_text
require_text_iff fields key text rel message = (
  λ h. (is_text-get_iff fields key text).0 ((guard_iff _ _).0 h),
  λ held. (guard_iff _ _).1 ((is_text-get_iff fields key text).1 held),
)
