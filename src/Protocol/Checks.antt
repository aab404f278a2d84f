-- ===== src/Protocol/Checks.antt =====
-- `_require_string` of protocol.py, and its counterpart in device.py, which differs in the
-- exception class only.
use nlboot.Base.{String, ◌≡◌, ◌↔◌, true, arith, if◌then◌else◌, Result, ok, err}
use nlboot.Text.{has_text}
use nlboot.Json.{Value, Fields, str, get}
use nlboot.Protocol.Errors.{NlbootError, must_be_text}

module _ {ℓ} {E : Type ℓ} where
  unfoldable pub non_blank : E → Value → Result E String
  non_blank e (str s) = if has_text s then ok s else err e
  non_blank e _ = err e

  -- over the exception to raise
  unfoldable pub require_text : E → Fields → String → Result E String
  unfolding non_blank
  require_text e fields key = non_blank e (get fields key)

  non_blank_iff :
      (e : E) (v : Value) {s : String}
      → (non_blank e v ≡ ok s) ↔ ((v ≡ str s) × (has_text s ≡ true))
  unfolding non_blank
  non_blank_iff e (str t) = ground arith
  non_blank_iff e _ = ground arith

  -- The check passes exactly on a text that is not blank.
  pub require_text_iff :
      (e : E) (fields : Fields) (key : String) {s : String}
      → (require_text e fields key ≡ ok s) ↔ ((get fields key ≡ str s) × (has_text s ≡ true))
  unfolding require_text
  require_text_iff e fields key = non_blank_iff e (get fields key)

-- The object holds the text `s` under `key`, and `s` is not blank.
abbrev pub TextAt : Fields → String → String → Type 0
TextAt fields key s = (get fields key ≡ str s) × (has_text s ≡ true)

unfoldable pub require_string : Fields → String → Result NlbootError String
unfolding require_text
require_string fields key = require_text (must_be_text key) fields key

pub require_string_iff :
    (fields : Fields) (key : String) {s : String}
    → (require_string fields key ≡ ok s) ↔ ((get fields key ≡ str s) × (has_text s ≡ true))
unfolding require_string
require_string_iff fields key = require_text_iff (must_be_text key) fields key

-- The two halves, in the form that a search over facts reads.
pub text_of_require_string :
    (fields : Fields) (key : String) {s : String}
    → require_string fields key ≡ ok s
    → TextAt fields key s
text_of_require_string fields key = (require_string_iff fields key).0

pub require_string_of_text :
    (fields : Fields) (key : String) {s : String}
    → get fields key ≡ str s
    → has_text s ≡ true
    → require_string fields key ≡ ok s
require_string_of_text fields key e h = (require_string_iff fields key).1 (e, h)

pub require_string_of_TextAt :
    (fields : Fields) (key : String) {s : String}
    → TextAt fields key s
    → require_string fields key ≡ ok s
require_string_of_TextAt fields key = (require_string_iff fields key).1
