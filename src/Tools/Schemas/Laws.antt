-- ===== src/Tools/Schemas/Laws.antt =====
-- validate_contract_schemas.py: when a schema and its fixture pass, and when the script ends with 0.
use nlboot.Base.{
  String, ◌≡◌, refl, ap, ◌∙◌, ◌↔◌, Bool, true, [], ◌∷◌, Result, ok, err, ◌>>◌, guard, All, Yields,
  Yields-bind, Yields-guard, bind_ok, guard_ok, ok-injective, true_of_guard, >>=-eq-ok,
}
use nlboot.Json.{Value, Fields, Items, null, str, arr, obj, nil, get, get_or, is_text}
use nlboot.Json.Paths.{HoldsAt, is_text-get_iff}
use nlboot.Tools.Files.{File, parsed, Files, exit_0}
use nlboot.Tools.Schemas.Keys.{
  Has, AllKeys, without_sound, without_complete, check_keys_sound, check_keys_complete,
}
use nlboot.Tools.Schemas.{
  Stop, return_1, exception, exit_of, Check, boot_evidence, required_keys, exists, read_json, keys,
  set_of, without, is_empty, get_from, iterate, check_keys, check_documents, check_files, check_all,
  main,
}

-- The schema has the keys that it must have and is one of objects; the fixture has every key that
-- the schema requires, and the service id.
pub record Agrees (check : Check) (schema fixture : Fields) : Type 0 where
  pub present : All (Has schema) required_keys
  pub of_objects : HoldsAt schema ("type" ∷ []) (str "object")
  pub required : Items
  pub iterates : iterate (get_or schema "required" (arr nil)) ≡ ok required
  pub all_keys : AllKeys fixture required
  pub service : HoldsAt fixture ("service_id" ∷ []) (str check.service_id)

module _ (in_list : Items → Value → Bool) where
  get_from_object :
      (v : Value) (key : String) (default value : Value)
      → get_from v key default ≡ ok value
      → (fields : Fields) × (v ≡ obj fields) × (get_or fields key default ≡ value)
  get_from_object (obj fields) key default value h = (fields, refl, ok-injective _ value h)
  get_from_object _ key default value h = cc

  -- Of objects.
  check_objects_sound :
      (check : Check) (schema fixture : Fields)
      → Yields
          (λ _. Agrees check schema fixture)
          (check_documents in_list check (obj schema) (obj fixture))
  unfolding check_documents set_of
  check_objects_sound check schema fixture =
      Yields-guard (is_empty (without required_keys (keys schema))) _ _ λ e1.
        Yields-guard (is_text (get schema "type") "object") _ _ λ e2.
          Yields-bind (iterate (get_or schema "required" (arr nil))) _ λ items e3.
            Yields-bind (check_keys in_list (obj fixture) items) _ λ u e4. record {
              at = λ a e5. record {
                present = without_sound required_keys schema e1;
                of_objects = (is_text-get_iff schema "type" "object").0 e2;
                required = items;
                iterates = e3;
                all_keys = check_keys_sound in_list fixture items e4;
                service =
                    (is_text-get_iff fixture "service_id" check.service_id).0
                      (true_of_guard _ _ e5);
              };
            }

  check_objects_complete :
      (check : Check) (schema fixture : Fields)
      → Agrees check schema fixture
      → check_documents in_list check (obj schema) (obj fixture) ≡ ok tt
  unfolding check_documents set_of
  check_objects_complete check schema fixture agrees =
      guard_ok _ (without_complete required_keys schema agrees.present) (
        guard_ok _ ((is_text-get_iff schema "type" "object").1 agrees.of_objects) (
          bind_ok _ agrees.iterates (
            bind_ok _ (check_keys_complete in_list fixture agrees.required agrees.all_keys) (
              ap (λ b. guard b return_1)
                ((is_text-get_iff fixture "service_id" check.service_id).1 agrees.service)))))

  -- No other values pass.
  check_documents_objects :
      (check : Check) (schema fixture : Value)
      → Yields
          (λ _. (s : Fields) × (f : Fields) × (schema ≡ obj s) × (fixture ≡ obj f))
          (check_documents in_list check schema fixture)
  unfolding check_documents
  check_documents_objects check schema fixture = Yields-bind (set_of schema) _ λ present e1.
      Yields-guard (is_empty (without required_keys present)) _ _ λ e2.
        Yields-bind (get_from schema "type" null) _ λ kind e3.
          Yields-guard (is_text kind "object") _ _ λ e4.
            Yields-bind (get_from schema "required" (arr nil)) _ λ required e5.
              Yields-bind (iterate required) _ λ items e6.
                Yields-bind (check_keys in_list fixture items) _ λ u e7.
                  Yields-bind (get_from fixture "service_id" null) _ λ service e8.
                    let (s, same_schema, _) = get_from_object schema "type" null kind e3 in
                    let (f, same_fixture, _) =
                      get_from_object fixture "service_id" null service e8 in
                    record { at = λ a e9. (s, f, same_schema, same_fixture) }

  exists_of_parsed : {file : File} {value : Value} → file ≡ parsed value → exists file ≡ true
  exists_of_parsed e = ap exists e

  read_json_sound : (file : File) (value : Value) → read_json file ≡ ok value → file ≡ parsed value
  read_json_sound (parsed v) value h = ap parsed (ok-injective v value h)
  read_json_sound _ value h = cc

  -- Both files of the check hold objects that agree.
  abbrev pub FilesAgree : Files → Check → Type 0
  FilesAgree files check =
      (schema : Fields) × (fixture : Fields) × (files check.schema_path ≡ parsed (obj schema))
      × (files check.fixture_path ≡ parsed (obj fixture))
      × Agrees check schema fixture

  check_files_sound :
      (files : Files) (check : Check)
      → Yields (λ _. FilesAgree files check) (check_files in_list files check)
  unfolding check_files
  check_files_sound files check = Yields-guard (exists (files check.schema_path)) _ _ λ e1.
      Yields-guard (exists (files check.fixture_path)) _ _ λ e2.
        Yields-bind (read_json (files check.schema_path)) _ λ v e3.
          Yields-bind (read_json (files check.fixture_path)) _ λ w e4. record {
            at = λ a h.
                let (schema, fixture, e, f) = (check_documents_objects check v w).at a h in
                let agrees : Agrees check schema fixture =
                  (check_objects_sound check schema fixture).at a (cc (e, f, h)) in
                (
                  schema,
                  fixture,
                  read_json_sound _ v e3 ∙ ap parsed e,
                  read_json_sound _ w e4 ∙ ap parsed f,
                  agrees,
                );
          }

  check_files_complete :
      (files : Files) (check : Check)
      → FilesAgree files check
      → check_files in_list files check ≡ ok tt
  unfolding check_files
  check_files_complete files check (schema, fixture, e, f, agrees) =
      guard_ok _ (exists_of_parsed e) (
        guard_ok _ (exists_of_parsed f) (
          bind_ok _ (ap read_json e)
            (bind_ok _ (ap read_json f) (check_objects_complete check schema fixture agrees))))

  exit_iff : (r : Result Stop (Unit {0})) → (exit_of r ≡ exit_0) ↔ (r ≡ ok tt)
  exit_iff (ok u) = (λ h. refl, λ h. refl)
  exit_iff (err return_1) = (λ h. cc, λ h. cc)
  exit_iff (err exception) = (λ h. cc, λ h. cc)

  -- Validate_contract_schemas.py ends with 0 exactly if both files hold objects, the schema has
  -- the five keys and the type "object", the fixture has every key that the schema requires, and
  -- its service id is that of the boot evidence.
  pub schemas_pass_iff :
      (files : Files) → (main in_list files ≡ exit_0) ↔ FilesAgree files boot_evidence
  unfolding main check_all
  schemas_pass_iff files = (
    λ h.
        let all = (exit_iff (check_files in_list files boot_evidence >> ok tt)).0 h in
        let (u, passed, _) = >>=-eq-ok (check_files in_list files boot_evidence) (λ _. ok tt) all in
        (check_files_sound files boot_evidence).at u passed,
    λ agree. (exit_iff _).1 (ap (λ r. r >> ok tt) (check_files_complete files boot_evidence agree)),
  )
