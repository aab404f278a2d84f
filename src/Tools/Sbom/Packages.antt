-- ===== src/Tools/Sbom/Packages.antt =====
-- cargo_metadata_to_spdx.py: which packages an SBOM can list.
use nlboot.Base.{
  String, ◌≡◌, refl, ap, ◌↔◌, true, false, List, [], ◌∷◌, ok, Bool-cases, inl, inr, Option, none,
  some, or_raise, >>=-eq-ok, bind_ok,
}
use nlboot.Json.Paths.{member}
use nlboot.Json.{Value, Fields, Items, null, str, obj, nil, cons, get_or}
use nlboot.Tools.Sbom.Values.{key_error, subscript, is_true}
use nlboot.Tools.Sbom.{
  SpdxPackage, name_and_version, package_to_spdx, packages_to_spdx, package_external_ref, locate,
}
use nlboot.Tools.Sbom.Named.{IsVersion, States, or_raise_sound, name_and_version_iff}
use nlboot.Tools.Sbom.Laws.{AllNamed}

-- The version is a text, or the package has neither a version nor a checksum.
abbrev pub FitsChecksum : Option Value → Value → Type 0
FitsChecksum none checksum = is_true checksum ≡ false
FitsChecksum (some v) checksum = (version : String) × (v ≡ str version)

-- The package is an object whose name is a text, and with such a version.
abbrev pub Exportable : Value → Type 0
Exportable (obj fields) =
    ((name : String) × (member "name" fields ≡ some (str name)))
    × FitsChecksum (member "version" fields) (get_or fields "checksum" null)
Exportable _ = ⊥

abbrev pub AllExportable : Items → Type 0
AllExportable nil = Unit
AllExportable (cons pkg rest) = Exportable pkg × AllExportable rest

FitsChecksum-of_version :
    (o : Option Value) (version : String) (checksum : Value)
    → IsVersion o version
    → (is_true checksum ≡ true → (v : Value) × (o ≡ some v))
    → FitsChecksum o checksum
FitsChecksum-of_version none version checksum h present = elim (Bool-cases (is_true checksum)) [
  | inl t ↦ let (v, e) = present t in cc e
  | inr t ↦ t
]
FitsChecksum-of_version (some v) version checksum h present = (version, h)

version_of_checksum :
    (o : Option Value) (checksum : Value)
    → FitsChecksum o checksum
    → is_true checksum ≡ true
    → (v : Value) × (o ≡ some v)
version_of_checksum none checksum h t = cc (h, t)
version_of_checksum (some v) checksum h t = (v, refl)

IsVersion-of_FitsChecksum :
    (o : Option Value) (checksum : Value)
    → FitsChecksum o checksum
    → (version : String) × IsVersion o version
IsVersion-of_FitsChecksum none checksum h = ("UNKNOWN", refl)
IsVersion-of_FitsChecksum (some v) checksum h = h

States-of_Exportable :
    (fields : Fields)
    → Exportable (obj fields)
    → (name : String) × (version : String) × States fields name version
States-of_Exportable fields ((name, named), fits) =
    let (version, versioned) = IsVersion-of_FitsChecksum (member "version" fields) _ fits in
    (name, version, (named, versioned))

pub all_named : (pkgs : Items) → AllExportable pkgs → AllNamed pkgs
all_named nil all = tt
all_named (cons (obj fields) rest) (first, others) =
    (States-of_Exportable fields first, all_named rest others)
all_named (cons _ rest) (other, _) = absurd other

abbrev IsObject : Value → Type 0
IsObject (obj fields) = Unit
IsObject _ = ⊥

IsObject-of_read : (pkg : Value) (r : String × String) → name_and_version pkg ≡ ok r → IsObject pkg
unfolding name_and_version
IsObject-of_read (obj fields) r h = tt
IsObject-of_read _ r h = cc

module _ (show : Value → String) where
  version_of_located :
      (fields : Fields) (checksum : Value) (locator : Option String)
      → locate show (obj fields) checksum ≡ ok locator
      → (version : Value) × (member "version" fields ≡ some version)
  version_of_located fields checksum locator h =
      let (name, e, rest) = >>=-eq-ok (subscript (obj fields) "name") _ h in
      let (version, f, _) = >>=-eq-ok (subscript (obj fields) "version") _ rest in
      (version, or_raise_sound (member "version" fields) _ version f)

  -- A reference with a checksum needs the version.
  version_of_ref :
      (fields : Fields) (locator : Option String)
      → package_external_ref show (obj fields) ≡ ok locator
      → is_true (get_or fields "checksum" null) ≡ true
      → (version : Value) × (member "version" fields ≡ some version)
  unfolding package_external_ref
  version_of_ref fields locator h t =
      version_of_located fields (get_or fields "checksum" null) locator (rw t at h)

  IsObject-of_spdx :
      (pkg : Value) (spdx : SpdxPackage) → package_to_spdx show pkg ≡ ok spdx → IsObject pkg
  unfolding package_to_spdx
  IsObject-of_spdx pkg spdx h =
      let (r, e, _) = >>=-eq-ok (name_and_version pkg) _ h in IsObject-of_read pkg r e

  Exportable-of_spdx :
      (pkg : Value) (spdx : SpdxPackage) → package_to_spdx show pkg ≡ ok spdx → Exportable pkg
  unfolding package_to_spdx
  Exportable-of_spdx (obj fields) spdx h =
      let ((name, version), e, rest) = >>=-eq-ok (name_and_version (obj fields)) _ h in
      let (locator, f, _) = >>=-eq-ok (package_external_ref show (obj fields)) _ rest in
      let (named, versioned) = (name_and_version_iff fields name version).0 e in
      (
        (name, named),
        FitsChecksum-of_version (member "version" fields) version _ versioned
            (version_of_ref fields locator f),
      )
  Exportable-of_spdx other spdx h = absurd (IsObject-of_spdx other spdx h)

  locate_total :
      (fields : Fields) (checksum name version : Value)
      → member "name" fields ≡ some name
      → member "version" fields ≡ some version
      → (locator : Option String) × (locate show (obj fields) checksum ≡ ok locator)
  locate_total fields checksum name version named has = (
    _,
    bind_ok _ (ap (λ o. or_raise o (key_error "name")) named)
        (bind_ok _ (ap (λ o. or_raise o (key_error "version")) has) refl),
  )

  located :
      (fields : Fields)
      → Exportable (obj fields)
      → (locator : Option String) × (package_external_ref show (obj fields) ≡ ok locator)
  unfolding package_external_ref
  located fields ((name, named), fits) =
      elim (Bool-cases (is_true (get_or fields "checksum" null))) [
        | inl t ↦
            let checksum = get_or fields "checksum" null in
            let (v, has) = version_of_checksum (member "version" fields) checksum fits t in
            let (locator, f) = locate_total fields checksum (str name) v named has in
            (locator, rw t f)
        | inr t ↦ (none, rw t)
      ]

  spdx_of_Exportable :
      (pkg : Value) → Exportable pkg → (spdx : SpdxPackage) × (package_to_spdx show pkg ≡ ok spdx)
  unfolding package_to_spdx
  spdx_of_Exportable (obj fields) h =
      let (name, version, states) = States-of_Exportable fields h in
      let (locator, f) = located fields h in
      (_, bind_ok _ ((name_and_version_iff fields name version).1 states) (bind_ok _ f refl))
  spdx_of_Exportable _ other = absurd other

  -- Every package is written exactly if all are exportable.
  pub packages_to_spdx_total :
      (pkgs : Items)
      → ((packages : List SpdxPackage) × (packages_to_spdx show pkgs ≡ ok packages))
        ↔ AllExportable pkgs
  unfolding packages_to_spdx
  packages_to_spdx_total nil = (λ h. tt, λ h. ([], refl))
  packages_to_spdx_total (cons pkg rest) =
      let (sound, complete) = packages_to_spdx_total rest in
      (
        λ (packages, h).
            let (first, e, others) = >>=-eq-ok (package_to_spdx show pkg) _ h in
            let (spdxs, f, _) = >>=-eq-ok (packages_to_spdx show rest) _ others in
            (Exportable-of_spdx pkg first e, sound (spdxs, f)),
        λ (x, xs).
            let (first, e) = spdx_of_Exportable pkg x in
            let (spdxs, f) = complete xs in (first ∷ spdxs, bind_ok _ e (bind_ok _ f refl)),
      )
