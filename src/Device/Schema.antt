-- ===== src/Device/Schema.antt =====
-- schemas/device-claim.schema.v0.1.json: its required keys, the keys that it admits and what it asks
-- of each value, its format included, as a test of a document.
use Prim.Native.Char.{code}
use Prim.Native.String.{[] as empty, ◌∷◌ as cons_char}
use nlboot.Base.{
  ℕ, suc, zero, String, Bool, true, false, ◌&&◌, ◌||◌, List, [], ◌∷◌, ◌==◌, leb, eqb, if◌then◌else◌,
  Option, none, some,
}
use nlboot.Text.{has_part, non_empty}
use nlboot.Time.Rfc3339.{is_date_time}
use nlboot.Json.{Value, str, Fields, end, field}
use nlboot.Json.Paths.{member}

-- `[0-9a-f]`
abbrev pub is_digit : ℕ → Bool
is_digit n = leb 48 n && leb n 57 || leb 97 n && leb n 102

-- `[0-9a-f]` for the rest of the text, a number of times
unfoldable pub digits : ℕ → String → Bool
digits zero empty = true
digits (suc n) (cons_char c s) = is_digit (code c) && digits n s
digits _ _ = false

unfoldable pub all_digits : String → Bool
all_digits empty = true
all_digits (cons_char c s) = is_digit (code c) && all_digits s

-- what follows `part`, if the text begins with it
unfoldable pub after : String → String → Option String
after empty s = some s
after (cons_char c part) empty = none
after (cons_char c part) (cons_char d s) = if eqb (code c) (code d) then after part s else none

-- the rest of the pattern of "device_id"
abbrev pub is_digest : Option String → Bool
is_digest none = false
is_digest (some rest) = digits 64 rest

-- the pattern of "device_id"
abbrev pub is_device_id : String → Bool
is_device_id s = is_digest (after "urn:srcos:device:sha256:" s)

-- "type": "string", with the test of the text
abbrev pub is_string : (String → Bool) → Value → Bool
is_string test (str s) = test s
is_string test _ = false

-- "properties": what is asked of the value under the key; other keys are not admitted
unfoldable pub admits : String → Value → Bool
unfolding digits all_digits after
admits key v =
    if key == "schemaVersion"
    then is_string (λ s. s == "v0.1") v
    else if key == "kind"
    then is_string (λ s. s == "DeviceClaim") v
    else if key == "device_id"
    then is_string is_device_id v
    else if key == "public_key_pem"
    then is_string (λ s. has_part s "BEGIN PUBLIC KEY") v
    else if key == "nonce"
    then is_string non_empty v
    else if key == "claimed_at"
    then is_string is_date_time v
    else if key == "signature_algorithm"
    then is_string (λ s. s == "rsa-pss-sha256") v
    else if key == "crypto_profile"
    then is_string (λ s. s == "fips-140-3-compatible") v
    else if key == "signature_hex"
    then is_string (λ s. non_empty s && all_digits s) v
    else false

unfoldable pub admits_all : Fields → Bool
unfolding admits
admits_all end = true
admits_all (field k v fs) = admits k v && admits_all fs

-- "required"
abbrev pub required : List String
required =
    "schemaVersion" ∷ "kind" ∷ "device_id" ∷ "public_key_pem" ∷ "nonce" ∷ "claimed_at"
    ∷ "signature_algorithm" ∷ "crypto_profile" ∷ "signature_hex" ∷ []

abbrev is_there : Option Value → Bool
is_there none = false
is_there (some v) = true

unfoldable pub has_all : List String → Fields → Bool
has_all [] fs = true
has_all (key ∷ keys) fs = is_there (member key fs) && has_all keys fs

-- The document conforms to the schema.
unfoldable pub conforms : Fields → Bool
unfolding admits_all has_all
conforms fs = has_all required fs && admits_all fs
