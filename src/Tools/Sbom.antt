-- ===== src/Tools/Sbom.antt =====
-- tools/cargo_metadata_to_spdx.py: the SBOM document of a crate from what `cargo metadata` prints.
-- An exception ends the script, since it catches none.
pub mod Values
pub mod Roots
pub mod Named
pub mod Laws
pub mod Packages
pub mod Edges
pub mod Relations
pub mod Document
pub mod Deterministic
use Prim.Native.Char.{Char, code}
use Prim.Native.String.{[] as empty_text, ◌∷◌ as cons_char, ◌++◌ as append, compare}
use text.Mathlib.Text.{is_le}
use nlboot.Base.{
  String, Bool, true, false, not, ◌||◌, List, [], ◌∷◌, ◌++◌, eqb, ◌==◌, Result, ok, err, ◌>>=◌,
  ◌>>◌, guard, contains, if◌then◌else◌, Option, none, some, or_raise,
}
use nlboot.Json.{
  Value, Fields, Items, null, bool, num, str, arr, obj, nil, cons, end, field, get, get_or, text_of,
}
use nlboot.Tools.Sbom.Values.{
  Raised, subscript, get_from, iterate, is_true, or_else, replace, replaceable,
}

pub record SpdxPackage : Type 0 where
  pub spdx_id : String
  pub name : String
  pub version_info : String
  pub download_location : Value
  -- concluded and declared
  pub license : Value
  -- the locator of the package's reference, if it has one
  pub locator : Option String

pub record Relationship : Type 0 where
  pub spdx_element_id : String
  pub related_spdx_element : String

pub record Sbom : Type 0 where
  pub document_name : String
  pub packages : List SpdxPackage
  pub relationships : List Relationship

pub id_of : String → String → String
id_of name version =
    append "SPDXRef-Package-"
      (append (replace "." "-" (replace "_" "-" name)) (append "-" (replace "." "-" version)))

-- A package's name and version, with the test that both are texts.
pub name_and_version : Value → Result Raised (String × String)
name_and_version pkg = do
  name ← subscript pkg "name"
  version ← get_from pkg "version" (str "UNKNOWN")
  name_text ← replaceable name
  version_text ← replaceable version
  ok (name_text, version_text)

-- `root_package_ids.add(...)`
abbrev pub add : String → List String → List String
add id ids = if contains id ids then ids else id ∷ ids

-- `sorted(ids)`
abbrev pub insert_id : String → List String → List String
insert_id id [] = id ∷ []
insert_id id (other ∷ ids) =
    if is_le (compare id other) then id ∷ other ∷ ids else other ∷ insert_id id ids

abbrev pub sort_ids : List String → List String
sort_ids [] = []
sort_ids (id ∷ ids) = insert_id id (sort_ids ids)

-- The two loops over the root packages and the packages.
abbrev pub depends_on : String → List SpdxPackage → List Relationship
depends_on root [] = []
depends_on root (pkg ∷ rest) =
    if pkg.spdx_id == root
    then depends_on root rest
    else record { spdx_element_id = root; related_spdx_element = pkg.spdx_id }
      ∷ depends_on root rest

abbrev pub relationships_of : List String → List SpdxPackage → List Relationship
relationships_of [] packages = []
relationships_of (root ∷ roots) packages =
    depends_on root packages ++ relationships_of roots packages

-- `show` is Python's `str` on values that are no texts.
module _ (show : Value → String) where
  abbrev pub shown : Value → String
  shown (str s) = s
  shown value = show value

  abbrev pub locate : Value → Value → Result Raised (Option String)
  locate pkg checksum = do
    name ← subscript pkg "name"
    version ← subscript pkg "version"
    ok (
        some (
          append "pkg:cargo/" (
            append (shown name)
              (append "@" (append (shown version) (append "?checksum=" (shown checksum)))))))

  pub package_external_ref : Value → Result Raised (Option String)
  package_external_ref pkg = do
    checksum ← get_from pkg "checksum" null
    if is_true checksum then locate pkg checksum else ok none

  pub package_to_spdx : Value → Result Raised SpdxPackage
  unfolding name_and_version id_of package_external_ref
  package_to_spdx pkg = do
    (name, version) ← name_and_version pkg
    source ← get_from pkg "source" null
    license ← get_from pkg "license" null
    locator ← package_external_ref pkg
    ok (record {
      spdx_id = id_of name version;
      name = name;
      version_info = version;
      download_location = or_else source (str "NOASSERTION");
      license = or_else license (str "NOASSERTION");
      locator = locator;
    })

  pub packages_to_spdx : Items → Result Raised (List SpdxPackage)
  unfolding package_to_spdx
  packages_to_spdx nil = ok []
  packages_to_spdx (cons pkg rest) = do
    first ← package_to_spdx pkg
    others ← packages_to_spdx rest
    ok (first ∷ others)

-- `equal` is Python's `==` on values that are not both texts.
module _ (equal : Value → Value → Bool) where
  abbrev pub same : Value → Value → Bool
  same (str s) (str t) = s == t
  same v w = equal v w

  -- The two loops over the workspace members and the packages.
  pub add_root : Value → Items → List String → Result Raised (List String)
  unfolding name_and_version id_of
  add_root root nil ids = ok ids
  add_root root (cons pkg rest) ids = do
    id ← get_from pkg "id" null
    next ←
        if same id root
        then (name_and_version pkg >>= λ (name, version). ok (add (id_of name version) ids))
        else ok ids
    add_root root rest next

  pub add_roots : Items → Items → List String → Result Raised (List String)
  unfolding add_root
  add_roots nil pkgs ids = ok ids
  add_roots (cons root rest) pkgs ids = do next ← add_root root pkgs ids; add_roots rest pkgs next

module _ (show : Value → String) (equal : Value → Value → Bool) where
  unfoldable pub build_sbom : Value → String → Result Raised Sbom
  unfolding packages_to_spdx add_roots
  build_sbom metadata document_name = do
    listed ← get_from metadata "packages" (arr nil)
    pkgs ← iterate listed
    packages ← packages_to_spdx show pkgs
    named ← get_from metadata "workspace_members" (arr nil)
    members ← iterate named
    roots ← add_roots equal members pkgs []
    ok (record {
      document_name = document_name;
      packages = packages;
      relationships = relationships_of (sort_ids roots) packages;
    })
