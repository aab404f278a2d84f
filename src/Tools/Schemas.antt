-- ===== src/Tools/Schemas.antt =====
-- tools/validate_contract_schemas.py: whether the boot evidence schema and its fixture agree. The
-- lines that the script prints are not part of the model; a run that ends early is an `err`.
pub mod Keys
pub mod Laws
use Prim.Native.String.{[] as empty_text, ◌∷◌ as cons_char}
use nlboot.Base.{
  String, Bool, true, false, List, [], ◌∷◌, ◌==◌, Result, ok, err, ◌>>=◌, ◌>>◌, guard, contains,
  if◌then◌else◌, Option, none, some,
}
use nlboot.Json.{
  Value, Fields, Items, null, bool, num, str, arr, obj, nil, cons, end, field, get, get_or, is_text,
  object_of,
}
use nlboot.Json.Paths.{member}
use nlboot.Text.{has_part}
use nlboot.Tools.Files.{
  File, missing, unreadable, malformed, parsed, Files, Exit, exit_0, exit_1, raised,
}

-- What ends a run early: `return 1`, or an exception (`TypeError`, `AttributeError`, or one of
-- `read_text` and its decoding), none of which is caught.
pub data Stop : Type 0 where
  return_1 exception : Stop

abbrev pub exit_of : Result Stop (Unit {0}) → Exit
exit_of (ok _) = exit_0
exit_of (err return_1) = exit_1
exit_of (err exception) = raised

-- CHECKS, of which there is one
pub record Check : Type 0 where
  pub schema_path : String
  pub fixture_path : String
  pub service_id : String

abbrev pub boot_evidence : Check
boot_evidence = record {
  schema_path = "schemas/boot-evidence.schema.json";
  fixture_path = "fixtures/boot-evidence.valid.json";
  service_id = "svc.managed.boot-evidence";
}

-- REQUIRED_KEYS, sorted
abbrev pub required_keys : List String
required_keys = "$id" ∷ "$schema" ∷ "properties" ∷ "title" ∷ "type" ∷ []

-- `path.exists()`
abbrev pub exists : File → Bool
exists missing = false
exists _ = true

-- `json.loads(path.read_text(encoding="utf-8"))`; a path that vanished cannot be read
abbrev pub read_json : File → Result Stop Value
read_json (parsed value) = ok value
read_json (malformed text) = err return_1
read_json _ = err exception

-- The keys of an object, and the characters of a text as texts of their own.
abbrev pub keys : Fields → List String
keys end = []
keys (field key value rest) = key ∷ keys rest

abbrev pub characters : String → List String
characters empty_text = []
characters (cons_char c s) = cons_char c empty_text ∷ characters s

-- A set cannot hold a list or an object.
abbrev pub hashable : Value → Bool
hashable (arr items) = false
hashable (obj fields) = false
hashable _ = true

-- `set(items)`, of which the texts
pub set_of_items : Items → Result Stop (List String)
set_of_items nil = ok []
set_of_items (cons (str text) items) = do texts ← set_of_items items; ok (text ∷ texts)
set_of_items (cons value items) = do guard (hashable value) exception; set_of_items items

-- `set(value)`, of which the texts
pub set_of : Value → Result Stop (List String)
unfolding set_of_items
set_of (obj fields) = ok (keys fields)
set_of (arr items) = set_of_items items
set_of (str text) = ok (characters text)
set_of _ = err exception

-- `sorted(names - present)`
abbrev pub without : List String → List String → List String
without [] present = []
without (name ∷ names) present =
    if contains name present then without names present else name ∷ without names present

-- `bool(names)`
abbrev pub is_empty : List String → Bool
is_empty [] = true
is_empty (_ ∷ _) = false

-- `value.get(key, default)` on a value of any type
abbrev pub get_from : Value → String → Value → Result Stop Value
get_from (obj fields) key default = ok (get_or fields key default)
get_from _ key default = err exception

abbrev pub texts : List String → Items
texts [] = nil
texts (s ∷ ss) = cons (str s) (texts ss)

-- `for item in value`
abbrev pub iterate : Value → Result Stop Items
iterate (arr items) = ok items
iterate (obj fields) = ok (texts (keys fields))
iterate (str text) = ok (texts (characters text))
iterate _ = err exception

abbrev pub is_some {ℓ} : {A : Type ℓ} → Option A → Bool
is_some none = false
is_some (some _) = true

-- `key in fixture`; `in_list` is Python's test on a list, by `==` of values of any types
module _ (in_list : Items → Value → Bool) where
  abbrev pub has : Value → Value → Result Stop Bool
  has (obj fields) (str key) = ok (is_some (member key fields))
  has (obj fields) key = if hashable key then ok false else err exception
  has (arr items) key = ok (in_list items key)
  has (str text) (str key) = ok (has_part text key)
  has _ key = err exception

  -- The loop over the required keys.
  pub check_keys : Value → Items → Result Stop (Unit {0})
  check_keys fixture nil = ok tt
  check_keys fixture (cons key rest) = do
    present ← has fixture key
    guard present return_1
    check_keys fixture rest

  pub check_documents : Check → Value → Value → Result Stop (Unit {0})
  unfolding set_of check_keys
  check_documents check schema fixture = do
    present ← set_of schema
    guard (is_empty (without required_keys present)) return_1
    kind ← get_from schema "type" null
    guard (is_text kind "object") return_1
    required ← get_from schema "required" (arr nil)
    items ← iterate required
    check_keys fixture items
    service ← get_from fixture "service_id" null
    guard (is_text service check.service_id) return_1

  pub check_files : Files → Check → Result Stop (Unit {0})
  unfolding check_documents
  check_files files check = do
    guard (exists (files check.schema_path)) return_1
    guard (exists (files check.fixture_path)) return_1
    schema ← read_json (files check.schema_path)
    fixture ← read_json (files check.fixture_path)
    check_documents check schema fixture

  -- The loop over the checks.
  pub check_all : Files → List Check → Result Stop (Unit {0})
  unfolding check_files
  check_all files [] = ok tt
  check_all files (check ∷ rest) = do check_files files check; check_all files rest

  unfoldable pub main : Files → Exit
  unfolding check_all
  main files = exit_of (check_all files (boot_evidence ∷ []))
