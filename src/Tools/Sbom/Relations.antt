-- ===== src/Tools/Sbom/Relations.antt =====
-- cargo_metadata_to_spdx.py: which relationships an SBOM has, and what they depend on.
use nlboot.Base.{
  String, ◌≡◌, refl, sym, ap, ◌∙◌, ◌↔◌, ◌⊎◌, inl, inr, Bool, List, [], ok, err, Result-cases,
  ok-injective, >>=-eq-ok, bind_ok,
}
use mathlib.Core.Path.{subst}
use nlboot.Json.{Value, Fields, Items, arr, obj, nil, get_or}
use nlboot.Tools.Sbom.Values.{Raised, iterate}
use nlboot.Tools.Sbom.{
  SpdxPackage, Relationship, Sbom, packages_to_spdx, add_roots, sort_ids, relationships_of,
  build_sbom,
}
use nlboot.Tools.Sbom.Roots.{In, in-sort_ids_iff, sort_ids_unique}
use nlboot.Tools.Sbom.Laws.{InItems, IsRoot, add_roots_lem}
use nlboot.Tools.Sbom.Packages.{AllExportable, all_named, packages_to_spdx_total}
use nlboot.Tools.Sbom.Edges.{Lists, in-relationships_of_iff}

module _ (show : Value → String) (equal : Value → Value → Bool) (document_name : String) where
  abbrev assemble : List SpdxPackage → List String → Sbom
  assemble packages roots = record {
    document_name = document_name;
    packages = packages;
    relationships = relationships_of (sort_ids roots) packages;
  }

  -- What the document is made of.
  abbrev Parts : Items → Items → Sbom → Type 0
  Parts pkgs members sbom =
      (packages : List SpdxPackage) × (packages_to_spdx show pkgs ≡ ok packages)
      × (roots : List String) × (add_roots equal members pkgs [] ≡ ok roots)
      × (sbom ≡ assemble packages roots)

  failed :
      (metadata : Fields) (pkgs : Items)
      → iterate (get_or metadata "packages" (arr nil)) ≡ ok pkgs
      → (raised : Raised) → packages_to_spdx show pkgs ≡ err raised
      → build_sbom show equal (obj metadata) document_name ≡ err raised
  unfolding build_sbom
  failed metadata pkgs listed raised e = bind_ok _ listed (rw e)

  module _ (metadata : Fields) (pkgs members : Items)
      (listed : iterate (get_or metadata "packages" (arr nil)) ≡ ok pkgs)
      (named : iterate (get_or metadata "workspace_members" (arr nil)) ≡ ok members) where
    made :
        (sbom : Sbom)
        → build_sbom show equal (obj metadata) document_name ≡ ok sbom
        → Parts pkgs members sbom
    unfolding build_sbom
    made sbom h =
        let (packages, e, rest) = >>=-eq-ok (packages_to_spdx show pkgs) _ (rw listed at h) in
        let (roots, f, last) = >>=-eq-ok (add_roots equal members pkgs []) _ (rw named at rest) in
        (packages, e, roots, f, sym (ok-injective _ sbom last))

    made_of :
        (packages : List SpdxPackage) (roots : List String)
        → packages_to_spdx show pkgs ≡ ok packages
        → add_roots equal members pkgs [] ≡ ok roots
        → build_sbom show equal (obj metadata) document_name ≡ ok (assemble packages roots)
    unfolding build_sbom
    made_of packages roots e f = bind_ok _ listed (bind_ok _ e (bind_ok _ named (bind_ok _ f refl)))

    -- Of metadata whose packages and workspace members can be iterated, `build_sbom` returns a
    -- document exactly if every package is an object whose name is a text, and whose version is a
    -- text, or is missing where the checksum is missing or is a value that Python takes as false;
    -- otherwise it raises.
    pub build_sbom_total :
        ((sbom : Sbom) × (build_sbom show equal (obj metadata) document_name ≡ ok sbom))
        ↔ AllExportable pkgs
    build_sbom_total = (
      λ (sbom, h).
          let (packages, e, _, _, _) = made sbom h in
          (packages_to_spdx_total show pkgs).0 (packages, e),
      λ all.
          let (packages, e) = (packages_to_spdx_total show pkgs).1 all in
          let (roots, f, _, _) = add_roots_lem equal members pkgs [] (all_named pkgs all) tt in
          (assemble packages roots, made_of packages roots e f),
    )

    -- Of metadata with the given packages and workspace members, the SBOM relates two ids exactly
    -- if the first is the id of a package that a workspace member names, and the second is the id
    -- of a listed package and another one.
    pub relationships_iff :
        (sbom : Sbom) (rel : Relationship)
        → build_sbom show equal (obj metadata) document_name ≡ ok sbom
        → In rel sbom.relationships ↔ (
            IsRoot equal members pkgs rel.spdx_element_id
            × (Lists rel.related_spdx_element sbom.packages
                × (rel.spdx_element_id ≡ rel.related_spdx_element → ⊥)))
    relationships_iff sbom rel h =
        let (packages, e, roots, f, whole) = made sbom h in
        let all = (packages_to_spdx_total show pkgs).0 (packages, e) in
        let (out, g, _, roots_iff) = add_roots_lem equal members pkgs [] (all_named pkgs all) tt in
        let (sound, complete) = in-relationships_of_iff rel (sort_ids roots) packages in
        let (of_sorted, to_sorted) = in-sort_ids_iff rel.spdx_element_id roots in
        let found : out ≡ roots = ok-injective out roots (sym g ∙ f) in
        let root_iff =
          subst
            (λ rs. In rel.spdx_element_id rs ↔ (⊥ ⊎ IsRoot equal members pkgs rel.spdx_element_id))
            found (roots_iff rel.spdx_element_id) in
        subst
          (λ s. In rel s.relationships ↔ (
            IsRoot equal members pkgs rel.spdx_element_id
            × (Lists rel.related_spdx_element s.packages
                × (rel.spdx_element_id ≡ rel.related_spdx_element → ⊥))))
          (sym whole)
          (
            λ k.
                let (r, rest) = sound k in
                (elim (root_iff.0 (of_sorted r)) [ inl f ↦ absurd f | inr f ↦ f ], rest),
            λ (r, rest). complete (to_sorted (root_iff.1 (inr r)), rest),
          )

module _ (show : Value → String) (equal : Value → Value → Bool) (document_name : String) where
  -- A root by one list of members is one by a list that holds them.
  moved :
      (pkgs members others : Items) (roots roots' : List String) (x : String)
      → ((v : Value) → InItems v members → InItems v others)
      → In x roots ↔ (⊥ ⊎ IsRoot equal members pkgs x)
      → In x roots' ↔ (⊥ ⊎ IsRoot equal others pkgs x)
      → In x roots
      → In x roots'
  moved pkgs members others roots roots' x sub iff iff' h = elim (iff.0 h) [
    | inl f ↦ absurd f
    | inr (root, there, matching) ↦ iff'.1 (inr (root, sub root there, matching))
  ]

  -- Neither the order nor the repetition of the workspace members changes what `build_sbom`
  -- returns or raises, for the same packages.
  pub build_sbom_unordered :
      (metadata other : Fields) (pkgs members others : Items)
      → iterate (get_or metadata "packages" (arr nil)) ≡ ok pkgs
      → iterate (get_or other "packages" (arr nil)) ≡ ok pkgs
      → iterate (get_or metadata "workspace_members" (arr nil)) ≡ ok members
      → iterate (get_or other "workspace_members" (arr nil)) ≡ ok others
      → ((v : Value) → InItems v members ↔ InItems v others)
      → build_sbom show equal (obj metadata) document_name
        ≡ build_sbom show equal (obj other) document_name
  build_sbom_unordered metadata other pkgs members others listed listed' named named' alike =
      elim (Result-cases (packages_to_spdx show pkgs)) [
        | inl (packages, e) ↦
            let all = all_named pkgs ((packages_to_spdx_total show pkgs).0 (packages, e)) in
            let (roots, f, d, iff) = add_roots_lem equal members pkgs [] all tt in
            let (roots', f', d', iff') = add_roots_lem equal others pkgs [] all tt in
            let sorted = sort_ids_unique roots roots' d d' (λ x. (
              moved pkgs members others roots roots' x (λ v. (alike v).0) (iff x) (iff' x),
              moved pkgs others members roots' roots x (λ v. (alike v).1) (iff' x) (iff x),
            )) in
            made_of show equal document_name metadata pkgs members listed named packages roots e f
            ∙ ap
                (λ ids. ok record {
                  document_name = document_name;
                  packages = packages;
                  relationships = relationships_of ids packages;
                })
                sorted
            ∙ sym (
                made_of show equal document_name other pkgs others listed' named' packages roots' e
                  f')
        | inr (raised, e) ↦
            failed show equal document_name metadata pkgs listed raised e
            ∙ sym (failed show equal document_name other pkgs listed' raised e)
      ]
