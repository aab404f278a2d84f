-- ===== src/Tools/Lifecycle/Runs.antt =====
-- validate_lifecycle_contracts.py: when the checks of a pair and the whole script pass.
use nlboot.Base.{
  String, ◌≡◌, refl, ap, ◌↔◌, Result, ok, err, ◌>>=◌, ◌>>◌, ok-injective, bind_ok, >>=-eq-ok,
  >>-eq-ok_iff,
}
use nlboot.Json.{end, Fields, obj}
use nlboot.Tools.Files.{File, parsed, Files, exit_0}
use nlboot.Tools.Lifecycle.{
  Raised, Pair, validation, release_set_pair, boot_release_set_pair, lifecycle_state_record_pair,
  pairs, read_object, load_json, check_kind, check_schema, check_header, validate_pair,
  validate_all, exit_of, main,
}
use nlboot.Tools.Lifecycle.Documents.{
  IsSchema, HasHeader, IsReleaseSet, IsBootReleaseSet, IsLifecycleRecord,
}
use nlboot.Tools.Lifecycle.Laws.{
  check_release_set_iff, check_boot_release_set_iff, check_lifecycle_record_iff, check_header_iff,
  check_schema_iff,
}

-- The object that a file holds.
abbrev object_in : File → Fields
object_in (parsed (obj fields)) = fields
object_in _ = end

-- Both files of the pair hold objects that meet the requirements.
abbrev pub PairHolds : Files → Pair → (Fields → Type 0) → Type 0
PairHolds files pair P =
    (schema : Fields) × (example : Fields) × (files pair.schema_path ≡ parsed (obj schema))
    × (files pair.example_path ≡ parsed (obj example))
    × (IsSchema pair.kind schema × (HasHeader pair.kind example × P example))

read_object_iff :
    (file : File) (path : String) (fields : Fields)
    → (read_object file path ≡ ok fields) ↔ (file ≡ parsed (obj fields))
read_object_iff (parsed (obj fs)) path fields =
    (λ h. ap (λ x. parsed (obj x)) (ok-injective fs fields h), λ h. ap (λ f. ok (object_in f)) h)
read_object_iff (parsed _) path fields = (λ h. cc, λ h. cc)
read_object_iff _ path fields = (λ h. cc, λ h. cc)

load_json_iff :
    (files : Files) (path : String) (fields : Fields)
    → (load_json files path ≡ ok fields) ↔ (files path ≡ parsed (obj fields))
unfolding load_json
load_json_iff files path fields = read_object_iff (files path) path fields

module _ (files : Files) (pair : Pair) (P : Fields → Type 0)
    (kind_iff : (example : Fields)
      → (check_kind pair.kind pair.example_path example ≡ ok tt) ↔ P example) where
  checks : Fields → Fields → Result Raised (Unit {0})
  checks schema example =
      check_schema pair.kind pair.schema_path schema
      >> (check_header pair.kind pair.example_path example
          >> check_kind pair.kind pair.example_path example)

  checks_iff :
      (schema example : Fields)
      → (checks schema example ≡ ok tt)
        ↔ (IsSchema pair.kind schema × (HasHeader pair.kind example × P example))
  unfolding checks
  checks_iff schema example =
      >>-eq-ok_iff (check_schema_iff pair.schema_path schema pair.kind)
        (>>-eq-ok_iff (check_header_iff pair.example_path example pair.kind) (kind_iff example))

  pair_iff : (validate_pair files pair ≡ ok tt) ↔ PairHolds files pair P
  unfolding validate_pair checks
  pair_iff = (
    λ h.
        let (schema, e, rest) =
          >>=-eq-ok (load_json files pair.schema_path)
            (λ s. load_json files pair.example_path >>= λ x. checks s x) h in
        let (example, f, last) =
          >>=-eq-ok (load_json files pair.example_path) (λ x. checks schema x) rest in
        (
          schema,
          example,
          (load_json_iff files pair.schema_path schema).0 e,
          (load_json_iff files pair.example_path example).0 f,
          (checks_iff schema example).0 last,
        ),
    λ (schema, example, e, f, held). bind_ok _ ((load_json_iff files pair.schema_path schema).1 e) (
        bind_ok _ ((load_json_iff files pair.example_path example).1 f)
          ((checks_iff schema example).1 held)),
  )

exit_iff : (r : Result Raised (Unit {0})) → (exit_of r ≡ exit_0) ↔ (r ≡ ok tt)
exit_iff (ok u) = (λ h. refl, λ h. refl)
exit_iff (err (validation m)) = (λ h. cc, λ h. cc)
exit_iff (err _) = (λ h. cc, λ h. cc)

-- The end of the loop adds no requirement.
ends_iff :
    {P : Type 0} {m : Result Raised (Unit {0})}
    → (m ≡ ok tt) ↔ P
    → (◌>>◌ {B = Unit {0}} m (ok (tt {0})) ≡ ok (tt {0})) ↔ P
ends_iff {m = ok u} p = p
ends_iff {m = err e} p = p

pub validate_all_iff :
    (files : Files)
    → (validate_all files pairs ≡ ok tt) ↔ (
        PairHolds files release_set_pair IsReleaseSet
        × (PairHolds files boot_release_set_pair IsBootReleaseSet
            × PairHolds files lifecycle_state_record_pair IsLifecycleRecord))
unfolding validate_all
validate_all_iff files =
    >>-eq-ok_iff
      (pair_iff files release_set_pair IsReleaseSet
        (check_release_set_iff release_set_pair.example_path))
      (>>-eq-ok_iff
        (pair_iff files boot_release_set_pair IsBootReleaseSet
          (check_boot_release_set_iff boot_release_set_pair.example_path))
        (ends_iff (
          pair_iff files lifecycle_state_record_pair IsLifecycleRecord
            (check_lifecycle_record_iff lifecycle_state_record_pair.example_path))))

-- Validate_lifecycle_contracts.py ends with 0 exactly if, for each of the three pairs of files,
-- both hold objects: the schema is one of draft 2020-12 for objects of the kind, and the example
-- has the schema version, the kind and what the kind asks for - a signed release set that rolls
-- back and leaves evidence; a boot release set with one-time use, a device claim, no unsigned
-- fallback and evidence; a record of an allowed, approved transition without a host mutation.
pub lifecycle_passes_iff :
    (files : Files)
    → (main files ≡ exit_0) ↔ (
        PairHolds files release_set_pair IsReleaseSet
        × (PairHolds files boot_release_set_pair IsBootReleaseSet
            × PairHolds files lifecycle_state_record_pair IsLifecycleRecord))
unfolding main
lifecycle_passes_iff files = (
  λ h. (validate_all_iff files).0 ((exit_iff _).0 h),
  λ held. (exit_iff _).1 ((validate_all_iff files).1 held),
)
