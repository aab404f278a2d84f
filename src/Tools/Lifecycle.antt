-- ===== src/Tools/Lifecycle.antt =====
-- tools/validate_lifecycle_contracts.py: the safety requirements on the examples of the life-cycle
-- contracts. The lines that the script prints are not part of the model.
pub mod Documents
pub mod Laws
pub mod Runs
use Prim.Native.String.{◌++◌ as append}
use text.Mathlib.Text.{starts_with}
use nlboot.Base.{
  String, Bool, true, false, List, [], ◌∷◌, ◌==◌, Result, ok, err, ◌>>=◌, ◌>>◌, guard, or_raise,
  if◌then◌else◌,
}
use nlboot.Json.{Value, Fields, null, bool, str, obj, end, get, get_or, is_text, object_of}
use nlboot.Tools.Files.{
  File, missing, unreadable, malformed, parsed, Files, Exit, exit_0, exit_1, raised,
}

pub data Raised : Type 0 where
  -- `ValidationError`, with its message
  validation : String → Raised
  -- The `AttributeError` of `.get` and `.startswith` on a value without them, and the exceptions of
  -- `read_text` and of its decoding: `main` catches neither.
  no_attribute read_failed : Raised

pub record Pair : Type 0 where
  pub kind : String
  pub schema_path : String
  pub example_path : String

-- PAIRS
abbrev pub release_set_pair : Pair
release_set_pair = record {
  kind = "ReleaseSet";
  schema_path = "schemas/release-set.schema.v0.1.json";
  example_path = "examples/release_set.m2_demo.json";
}

abbrev pub boot_release_set_pair : Pair
boot_release_set_pair = record {
  kind = "BootReleaseSet";
  schema_path = "schemas/boot-release-set.schema.v0.1.json";
  example_path = "examples/boot_release_set.m2_demo_recovery.json";
}

abbrev pub lifecycle_state_record_pair : Pair
lifecycle_state_record_pair = record {
  kind = "LifecycleStateRecord";
  schema_path = "schemas/lifecycle-state-record.schema.v0.1.json";
  example_path = "examples/lifecycle_state_record.m2_demo_signed.json";
}

abbrev pub pairs : List Pair
pairs = release_set_pair ∷ boot_release_set_pair ∷ lifecycle_state_record_pair ∷ []

abbrev pub read_object : File → String → Result Raised Fields
read_object missing path = err (validation (append "missing file: " path))
read_object unreadable path = err read_failed
read_object (malformed text) path =
    err (validation (append "invalid JSON in " (append path (append ": " text))))
read_object (parsed value) path =
    or_raise (object_of value) (validation (append "expected JSON object in " path))

pub load_json : Files → String → Result Raised Fields
load_json files path = read_object (files path) path

-- `require`, with the path and the rest of the message
abbrev pub require : Bool → String → String → Result Raised (Unit {0})
require condition path message = guard condition (validation (append path (append ": " message)))

-- `value.get(key, default)` on a value of any type
abbrev pub get_from : Value → String → Value → Result Raised Value
get_from (obj fields) key default = ok (get_or fields key default)
get_from _ key default = err no_attribute

-- `value.startswith(prefix)` on a value of any type
abbrev pub starts : Value → String → Result Raised Bool
starts (str text) prefix = ok (starts_with text prefix)
starts _ prefix = err no_attribute

-- `str(value).startswith("urn:…")`: Python's text of a value that is no text begins with one of
-- `N`, `T`, `F`, a digit, `-`, `i` or `n` (of `inf` and `nan`), `[` and `{`, never with `u`.
abbrev pub str_starts : Value → String → Bool
str_starts (str text) prefix = starts_with text prefix
str_starts _ prefix = false

-- `value is True`, `value is False`
abbrev pub is_bool : Value → Bool → Bool
is_bool (bool true) b = b
is_bool (bool false) b = if b then false else true
is_bool _ b = false

-- `{}`, the default of the nested lookups
abbrev pub empty : Value
empty = obj end

-- `require(example.get(outer, {}).get(key) is want, …)`
pub require_flag : Fields → String → String → Bool → String → String → Result Raised (Unit {0})
require_flag example outer key want rel message = do
  value ← get_from (get_or example outer empty) key null
  require (is_bool value want) rel message

-- `require(str(example.get(key, "")).startswith(prefix), …)`
pub require_start : Fields → String → String → String → String → Result Raised (Unit {0})
require_start example key prefix rel message =
    require (str_starts (get_or example key (str "")) prefix) rel message

-- `require(example.get(outer, {}).get(key, "").startswith(prefix), …)`
pub require_inner_start :
    Fields → String → String → String → String → String → Result Raised (Unit {0})
require_inner_start example outer key prefix rel message = do
  value ← get_from (get_or example outer empty) key (str "")
  begins ← starts value prefix
  require begins rel message

-- `require(fields.get(key) == text, …)`
unfoldable pub require_text : Fields → String → String → String → String → Result Raised (Unit {0})
require_text fields key text rel message = require (is_text (get fields key) text) rel message

-- The three groups of requirements.
pub check_release_set : String → Fields → Result Raised (Unit {0})
unfolding require_flag require_start require_inner_start
check_release_set rel example = do
  require_start example "releaseSetId" "urn:srcos:release-set:" rel "invalid releaseSetId"
  require_inner_start example "signing" "signatureRef" "urn:srcos:signature:" rel
      "signatureRef required"
  require_flag example "rollback" "lastKnownGoodRequired" true rel
      "last-known-good rollback required"
  require_flag example "evidence" "emitFingerprint" true rel "fingerprint evidence required"

pub check_boot_release_set : String → Fields → Result Raised (Unit {0})
unfolding require_flag require_start
check_boot_release_set rel example = do
  require_start example "bootReleaseSetId" "urn:srcos:boot-release-set:" rel
      "invalid bootReleaseSetId"
  require_flag example "authorization" "oneTimeUseRequired" true rel "one-time enrollment required"
  require_flag example "authorization" "deviceClaimRequired" true rel "device claim required"
  require_flag example "offlineFallback" "allowUnsignedFallback" false rel
      "unsigned fallback must be denied"
  require_flag example "proofs" "emitAdapterRecord" true rel "adapter evidence required"

pub check_lifecycle_record : String → Fields → Result Raised (Unit {0})
unfolding require_flag require_start
check_lifecycle_record rel example = do
  require_start example "recordId" "urn:srcos:lifecycle-state-record:" rel "invalid recordId"
  require_flag example "transition" "allowed" true rel "example transition should be allowed"
  require_flag example "policy" "approvalRequired" true rel "lifecycle approval required"
  require_flag example "sideEffects" "hostMutation" false rel "signing example must not mutate host"

-- The requirements of the kind; none for another kind.
abbrev pub check_kind : String → String → Fields → Result Raised (Unit {0})
check_kind kind rel example =
    if kind == "ReleaseSet"
    then check_release_set rel example
    else if kind == "BootReleaseSet"
    then check_boot_release_set rel example
    else if kind == "LifecycleStateRecord"
    then check_lifecycle_record rel example
    else ok tt

-- The requirements on a schema, and the two on every example.
pub check_schema : String → String → Fields → Result Raised (Unit {0})
unfolding require_text
check_schema kind rel schema = do
  require_text schema "$schema" "https://json-schema.org/draft/2020-12/schema" rel
      "must use JSON Schema draft 2020-12"
  require_text schema "type" "object" rel "must describe an object"
  kind_schema ← get_from (get_or schema "properties" empty) "kind" empty
  const ← get_from kind_schema "const" null
  require (is_text const kind) rel (append "kind const must be " kind)

pub check_header : String → String → Fields → Result Raised (Unit {0})
unfolding require_text
check_header kind rel example = do
  require_text example "schemaVersion" "v0.1" rel "schemaVersion must be v0.1"
  require_text example "kind" kind rel (append "kind must be " kind)

pub validate_pair : Files → Pair → Result Raised (Unit {0})
unfolding load_json check_release_set check_boot_release_set check_lifecycle_record check_schema
    check_header
validate_pair files pair = do
  schema ← load_json files pair.schema_path
  example ← load_json files pair.example_path
  check_schema pair.kind pair.schema_path schema
  check_header pair.kind pair.example_path example
  check_kind pair.kind pair.example_path example

-- The loop of `main`.
pub validate_all : Files → List Pair → Result Raised (Unit {0})
unfolding validate_pair
validate_all files [] = ok tt
validate_all files (pair ∷ rest) = do validate_pair files pair; validate_all files rest

-- The `except` clause of `main`.
abbrev pub exit_of : Result Raised (Unit {0}) → Exit
exit_of (ok _) = exit_0
exit_of (err (validation message)) = exit_1
exit_of (err _) = raised

unfoldable pub main : Files → Exit
unfolding validate_all
main files = exit_of (validate_all files pairs)
