-- ===== src/Examples/Tools.antt =====
-- The three scripts under tools/ on small files.
use nlboot.Base.{
  String, ◌≡◌, refl, ◌↔◌, inl, inr, Bool, true, false, [], ◌∷◌, ◌==◌, none, some, ok, if◌then◌else◌,
}
use nlboot.Json.{Value, Fields, Items, bool, num, str, arr, obj, nil, cons, end, field, strings}
use nlboot.Tools.Files.{missing, parsed, Files, exit_0, exit_1, raised}
use nlboot.Tools.Lifecycle.{release_set_pair, boot_release_set_pair, lifecycle_state_record_pair}
use nlboot.Tools.Lifecycle as Lifecycle
use nlboot.Tools.Lifecycle.Documents.{IsReleaseSet, IsBootReleaseSet, IsLifecycleRecord}
use nlboot.Tools.Lifecycle.Runs.{PairHolds, lifecycle_passes_iff}
use nlboot.Tools.Schemas as Schemas
use nlboot.Tools.Schemas.{boot_evidence}
use nlboot.Tools.Schemas.Laws.{FilesAgree, schemas_pass_iff}
use nlboot.Tools.Sbom.{Sbom, SpdxPackage, Relationship, build_sbom}
use nlboot.Tools.Sbom.Laws.{InItems, IsRoot}
use nlboot.Tools.Sbom.Packages.{AllExportable}
use nlboot.Tools.Sbom.Edges.{Lists}
use nlboot.Tools.Sbom.Document.{default_document_name, written}
use nlboot.Tools.Sbom.Deterministic.{written_unordered}
use nlboot.Tools.Sbom.Roots.{In}
use nlboot.Tools.Sbom.Relations.{build_sbom_total, relationships_iff}

abbrev schema_of : String → Value
schema_of kind = obj (
    field "$schema" (str "https://json-schema.org/draft/2020-12/schema") (
      field "type" (str "object")
        (field "properties" (obj (field "kind" (obj (field "const" (str kind) end)) end)) end)))

abbrev with_header : String → Fields → Value
with_header kind rest = obj (field "schemaVersion" (str "v0.1") (field "kind" (str kind) rest))

abbrev flag : String → Bool → Value
flag key b = obj (field key (bool b) end)

abbrev release_set : Value
release_set = with_header "ReleaseSet" (
    field "releaseSetId" (str "urn:srcos:release-set:m2") (
      field "signing" (obj (field "signatureRef" (str "urn:srcos:signature:1") end)) (
        field "rollback" (flag "lastKnownGoodRequired" true)
          (field "evidence" (flag "emitFingerprint" true) end))))

abbrev boot_release_set : Bool → Value
boot_release_set unsigned = with_header "BootReleaseSet" (
    field "bootReleaseSetId" (str "urn:srcos:boot-release-set:m2") (
      field "authorization"
        (obj (field "oneTimeUseRequired" (bool true) (field "deviceClaimRequired" (bool true) end)))
        (field "offlineFallback" (flag "allowUnsignedFallback" unsigned)
          (field "proofs" (flag "emitAdapterRecord" true) end))))

abbrev lifecycle_record : Value
lifecycle_record = with_header "LifecycleStateRecord" (
    field "recordId" (str "urn:srcos:lifecycle-state-record:1") (
      field "transition" (flag "allowed" true) (
        field "policy" (flag "approvalRequired" true)
          (field "sideEffects" (flag "hostMutation" false) end))))

-- The six files, with a boot release set that allows an unsigned fallback or not.
abbrev contracts : Bool → Files
contracts unsigned path =
    if path == "schemas/release-set.schema.v0.1.json"
    then parsed (schema_of "ReleaseSet")
    else if path == "examples/release_set.m2_demo.json"
    then parsed release_set
    else if path == "schemas/boot-release-set.schema.v0.1.json"
    then parsed (schema_of "BootReleaseSet")
    else if path == "examples/boot_release_set.m2_demo_recovery.json"
    then parsed (boot_release_set unsigned)
    else if path == "schemas/lifecycle-state-record.schema.v0.1.json"
    then parsed (schema_of "LifecycleStateRecord")
    else if path == "examples/lifecycle_state_record.m2_demo_signed.json"
    then parsed lifecycle_record
    else missing

lifecycle_passes_iff_example : (Lifecycle.main (contracts false) ≡ exit_0) ↔ (
    PairHolds (contracts false) release_set_pair IsReleaseSet
    × (PairHolds (contracts false) boot_release_set_pair IsBootReleaseSet
        × PairHolds (contracts false) lifecycle_state_record_pair IsLifecycleRecord))
lifecycle_passes_iff_example = lifecycle_passes_iff (contracts false)

contracts_pass : Lifecycle.main (contracts false) ≡ exit_0
unfolding Lifecycle.main
contracts_pass = refl

unsigned_fails : Lifecycle.main (contracts true) ≡ exit_1
unfolding Lifecycle.main
unsigned_fails = refl

absent_fails : Lifecycle.main (λ path. missing) ≡ exit_1
unfolding Lifecycle.main
absent_fails = refl

abbrev evidence_schema : Value
evidence_schema = obj (
    field "$schema" (str "https://json-schema.org/draft/2020-12/schema") (
      field "$id" (str "https://socioslinux.org/schemas/nlboot/boot-evidence.schema.json") (
        field "title" (str "Boot Evidence Receipt Contract") (
          field "type" (str "object") (
            field "required" (arr (strings ("boot_evidence_id" ∷ "service_id" ∷ [])))
              (field "properties" (obj end) end))))))

abbrev evidence : Value
evidence = obj (
    field "boot_evidence_id" (str "boot-evidence.fixture")
      (field "service_id" (str "svc.managed.boot-evidence") end))

abbrev evidence_files : Value → Files
evidence_files fixture path =
    if path == "schemas/boot-evidence.schema.json"
    then parsed evidence_schema
    else if path == "fixtures/boot-evidence.valid.json"
    then parsed fixture
    else missing

-- No list is looked into.
abbrev no_list : Items → Value → Bool
no_list items value = false

schemas_pass_iff_example :
    (Schemas.main no_list (evidence_files evidence) ≡ exit_0)
    ↔ FilesAgree no_list (evidence_files evidence) boot_evidence
schemas_pass_iff_example = schemas_pass_iff no_list (evidence_files evidence)

evidence_passes : Schemas.main no_list (evidence_files evidence) ≡ exit_0
unfolding Schemas.main
evidence_passes = refl

-- A key that the schema requires is missing; and a fixture that is no object has no service id.
evidence_fails :
    Schemas.main no_list
      (evidence_files (obj (field "service_id" (str "svc.managed.boot-evidence") end)))
    ≡ exit_1
unfolding Schemas.main
evidence_fails = refl

number_raises : Schemas.main no_list (evidence_files (num "1")) ≡ raised
unfolding Schemas.main
number_raises = refl

-- Two packages, one of a workspace member that is named twice.
abbrev pkgs : Items
pkgs =
    cons
      (obj (
        field "id" (str "a 0.1.0")
          (field "name" (str "nlboot_client") (field "version" (str "0.1.0") end))))
      (cons
        (obj (
          field "id" (str "b 1.0.0") (
            field "name" (str "sha2")
              (field "version" (str "1.0.0") (field "checksum" (str "ff") end)))))
        nil)

abbrev crates : Items → Fields
crates members = field "packages" (arr pkgs) (field "workspace_members" (arr members) end)

abbrev once : Items
once = strings ("a 0.1.0" ∷ [])

abbrev twice : Items
twice = strings ("a 0.1.0" ∷ "a 0.1.0" ∷ [])

abbrev show : Value → String
show value = "?"

abbrev equal : Value → Value → Bool
equal v w = false

abbrev relation : Relationship
relation = record {
  spdx_element_id = "SPDXRef-Package-nlboot-client-0-1-0";
  related_spdx_element = "SPDXRef-Package-sha2-1-0-0";
}

abbrev crate_sbom : Sbom
crate_sbom = record {
  document_name = "nlboot-client-sbom";
  packages =
      record {
        spdx_id = "SPDXRef-Package-nlboot-client-0-1-0";
        name = "nlboot_client";
        version_info = "0.1.0";
        download_location = str "NOASSERTION";
        license = str "NOASSERTION";
        locator = none;
      }
      ∷ record {
        spdx_id = "SPDXRef-Package-sha2-1-0-0";
        name = "sha2";
        version_info = "1.0.0";
        download_location = str "NOASSERTION";
        license = str "NOASSERTION";
        locator = some "pkg:cargo/sha2@1.0.0?checksum=ff";
      }
      ∷ [];
  relationships = relation ∷ [];
}

crate_is_written : build_sbom show equal (obj (crates twice)) "nlboot-client-sbom" ≡ ok crate_sbom
unfolding build_sbom nlboot.Tools.Sbom.Values.replace
crate_is_written = refl

build_sbom_total_example :
    ((sbom : Sbom) × (build_sbom show equal (obj (crates twice)) "nlboot-client-sbom" ≡ ok sbom))
    ↔ AllExportable pkgs
build_sbom_total_example =
    build_sbom_total show equal "nlboot-client-sbom" (crates twice) pkgs twice refl refl

relationships_iff_example : In relation crate_sbom.relationships ↔ (
    IsRoot equal twice pkgs relation.spdx_element_id
    × (Lists relation.related_spdx_element crate_sbom.packages
        × (relation.spdx_element_id ≡ relation.related_spdx_element → ⊥)))
relationships_iff_example =
    relationships_iff show equal "nlboot-client-sbom" (crates twice) pkgs twice refl refl crate_sbom
      relation crate_is_written

named_twice : (v : Value) → InItems v once ↔ InItems v twice
named_twice v = (
  λ h. elim h [ inl f ↦ inl f | inr f ↦ absurd f ],
  λ h. elim h [ inl f ↦ inl f | inr (inl f) ↦ inl f | inr (inr f) ↦ absurd f ],
)

written_unordered_example :
    written show equal (parsed (obj (crates once))) default_document_name
    ≡ written show equal (parsed (obj (crates twice))) default_document_name
written_unordered_example =
    written_unordered show equal default_document_name (crates once) (crates twice) pkgs once twice
      refl refl refl refl named_twice
