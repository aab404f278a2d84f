-- ===== src/Tools/Sbom/Document.antt =====
-- The JSON document that cargo_metadata_to_spdx.py writes. The parsing of the command line and the
-- output's directory are not part of the model.
use Prim.Native.String.{◌++◌ as append}
use nlboot.Base.{String, Bool, false, List, [], ◌∷◌, Option, none, some, Result, ok, err, ◌>>=◌}
use nlboot.Json.{Value, Fields, Items, bool, str, arr, obj, nil, cons, end, field, strings}
use nlboot.Json.Pretty.{pretty}
use nlboot.Tools.Files.{File, parsed}
use nlboot.Tools.Sbom.Values.{Raised, read_error}
use nlboot.Tools.Sbom.{SpdxPackage, Relationship, Sbom, build_sbom}

-- The default of `--document-name`.
abbrev pub default_document_name : String
default_document_name = "nlboot-client-sbom"

-- The parts of the document, as Python's dictionaries.
abbrev pub external_refs : Option String → Items
external_refs none = nil
external_refs (some locator) =
    cons
      (obj (
        field "referenceCategory" (str "PACKAGE-MANAGER")
          (field "referenceType" (str "purl") (field "referenceLocator" (str locator) end))))
      nil

abbrev pub package_fields : SpdxPackage → Fields
package_fields pkg = field "SPDXID" (str pkg.spdx_id) (
    field "name" (str pkg.name) (
      field "versionInfo" (str pkg.version_info) (
        field "downloadLocation" pkg.download_location (
          field "filesAnalyzed" (bool false) (
            field "licenseConcluded" pkg.license (
              field "licenseDeclared" pkg.license (
                field "copyrightText" (str "NOASSERTION")
                  (field "externalRefs" (arr (external_refs pkg.locator)) end))))))))

abbrev pub packages_items : List SpdxPackage → Items
packages_items [] = nil
packages_items (pkg ∷ rest) = cons (obj (package_fields pkg)) (packages_items rest)

abbrev pub relationship_fields : Relationship → Fields
relationship_fields rel = field "spdxElementId" (str rel.spdx_element_id) (
    field "relationshipType" (str "DEPENDS_ON")
      (field "relatedSpdxElement" (str rel.related_spdx_element) end))

abbrev pub relationships_items : List Relationship → Items
relationships_items [] = nil
relationships_items (rel ∷ rest) = cons (obj (relationship_fields rel)) (relationships_items rest)

abbrev pub creation_info : Fields
creation_info = field "creators" (arr (strings ("Tool: nlboot cargo_metadata_to_spdx.py" ∷ []))) (
    field "created" (str "1970-01-01T00:00:00Z")
      (field "comment" (str "Deterministic operator-test SBOM generated from cargo metadata.") end))

pub sbom_fields : Sbom → Fields
sbom_fields sbom = field "spdxVersion" (str "SPDX-2.3") (
    field "dataLicense" (str "CC0-1.0") (
      field "SPDXID" (str "SPDXRef-DOCUMENT") (
        field "name" (str sbom.document_name) (
          field "documentNamespace" (str (append "https://sourceos.local/sbom/" sbom.document_name))
            (field "creationInfo" (obj creation_info) (
              field "packages" (arr (packages_items sbom.packages))
                (field "relationships" (arr (relationships_items sbom.relationships)) end)))))))

-- `json.loads(path.read_text(encoding="utf-8"))`
abbrev pub load_json : File → Result Raised Value
load_json (parsed value) = ok value
load_json _ = err read_error

-- `main`: the text that it writes.
unfoldable pub written :
    (show : Value → String) (equal : Value → Value → Bool) (metadata : File)
    (document_name : String)
    → Result Raised String
unfolding sbom_fields
written show equal metadata document_name = do
  value ← load_json metadata
  sbom ← build_sbom show equal value document_name
  ok (append (pretty 0 (obj (sbom_fields sbom))) "\n")
