-- ===== src/Tools/Sbom/Edges.antt =====
-- cargo_metadata_to_spdx.py: which relationships the loops over the root packages make.
use nlboot.Base.{
  String, ◌≡◌, sym, ap, ◌∙◌, ◌↔◌, ◌⊎◌, inl, inr, List, [], ◌∷◌, ◌++◌, ◌==◌, Bool-cases, eq_iff,
}
use nlboot.Tools.Sbom.{SpdxPackage, Relationship, depends_on, relationships_of}
use nlboot.Tools.Sbom.Roots.{In}

abbrev pub Lists : String → List SpdxPackage → Type 0
Lists id [] = ⊥
Lists id (pkg ∷ rest) = (id ≡ pkg.spdx_id) ⊎ Lists id rest

-- The root is related to every other package that is listed.
in-depends_on_iff :
    (rel : Relationship) (root : String) (packages : List SpdxPackage)
    → In rel (depends_on root packages) ↔ (
        (rel.spdx_element_id ≡ root)
        × (Lists rel.related_spdx_element packages
            × (rel.spdx_element_id ≡ rel.related_spdx_element → ⊥)))
in-depends_on_iff rel root [] = (λ h. absurd h, λ (_, (h, _)). absurd h)
in-depends_on_iff rel root (pkg ∷ rest) =
    let (sound, complete) = in-depends_on_iff rel root rest in
    elim (Bool-cases (pkg.spdx_id == root)) [
      | inl t ↦
          let itself = (eq_iff pkg.spdx_id root).0 t in
          (
            λ h. let (e, (l, n)) = sound (rw t at h) in (e, (inr l, n)),
            λ (e, (l, n)). rw t (elim l [
              | inl f ↦ absurd (n (e ∙ sym itself ∙ sym f))
              | inr f ↦ complete (e, (f, n))
            ]),
          )
      | inr t ↦ (
        λ h. elim (rw t at h) [
          | inl f ↦
              let from : rel.spdx_element_id ≡ root = ap (λ r. r.spdx_element_id) f in
              let to : rel.related_spdx_element ≡ pkg.spdx_id =
                ap (λ r. r.related_spdx_element) f in
              (from, (inl to, λ e. cc (t, (eq_iff pkg.spdx_id root).1 (sym to ∙ sym e ∙ from))))
          | inr f ↦ let (e, (l, n)) = sound f in (e, (inr l, n))
        ],
        λ (e, (l, n)).
            rw t (elim l [ inl f ↦ inl (cc (e, f)) | inr f ↦ inr (complete (e, (f, n))) ]),
      )
    ]

in-append_iff : {A : Type 0} (x : A) (xs ys : List A) → In x (xs ++ ys) ↔ (In x xs ⊎ In x ys)
in-append_iff x [] ys = (λ h. inr h, λ h. elim h [ inl f ↦ absurd f | inr f ↦ f ])
in-append_iff x (z ∷ xs) ys =
    let (sound, complete) = in-append_iff x xs ys in
    (
      λ h. elim h [
        | inl f ↦ inl (inl f)
        | inr f ↦ elim (sound f) [ inl g ↦ inl (inr g) | inr g ↦ inr g ]
      ],
      λ h. elim h [
        | inl (inl f) ↦ inl f
        | inl (inr f) ↦ inr (complete (inl f))
        | inr f ↦ inr (complete (inr f))
      ],
    )

pub in-relationships_of_iff :
    (rel : Relationship) (roots : List String) (packages : List SpdxPackage)
    → In rel (relationships_of roots packages) ↔ (
        In rel.spdx_element_id roots
        × (Lists rel.related_spdx_element packages
            × (rel.spdx_element_id ≡ rel.related_spdx_element → ⊥)))
in-relationships_of_iff rel [] packages = (λ h. absurd h, λ (h, _). absurd h)
in-relationships_of_iff rel (root ∷ roots) packages =
    let (split, joined) =
      in-append_iff rel (depends_on root packages) (relationships_of roots packages) in
    let (first_sound, first_complete) = in-depends_on_iff rel root packages in
    let (sound, complete) = in-relationships_of_iff rel roots packages in
    (
      λ h. elim (split h) [
        | inl f ↦ let (e, rest) = first_sound f in (inl e, rest)
        | inr f ↦ let (e, rest) = sound f in (inr e, rest)
      ],
      λ (h, rest). elim h [
        | inl e ↦ joined (inl (first_complete (e, rest)))
        | inr e ↦ joined (inr (complete (e, rest)))
      ],
    )
