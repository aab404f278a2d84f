-- ===== src/Tools/Sbom/Laws.antt =====
-- cargo_metadata_to_spdx.py: which ids the loops over the workspace members collect.
use nlboot.Base.{
  String, ◌≡◌, refl, sym, ap, ◌∙◌, ◌↔◌, ◌⊎◌, inl, inr, Bool, true, false, List, Result, ok,
  Bool-cases, ok-injective,
}
use nlboot.Json.Paths.{member}
use mathlib.Core.Path.{subst}
use nlboot.Json.{Value, Fields, Items, null, obj, nil, cons, get_or}
use nlboot.Tools.Sbom.Values.{Raised}
use nlboot.Tools.Sbom.{id_of, same, add, add_root, add_roots}
use nlboot.Tools.Sbom.Named.{States, name_and_version_iff}
use nlboot.Tools.Sbom.Roots.{In, Distinct, in-add_iff, add-Distinct}

abbrev pub InItems : Value → Items → Type 0
InItems v nil = ⊥
InItems v (cons w rest) = (v ≡ w) ⊎ InItems v rest

-- The package is an object whose name is a text, and so is its version, where it has one.
abbrev pub Named : Value → Type 0
Named (obj fields) = (name : String) × (version : String) × States fields name version
Named _ = ⊥

abbrev pub AllNamed : Items → Type 0
AllNamed nil = Unit
AllNamed (cons pkg rest) = Named pkg × AllNamed rest

module _ (equal : Value → Value → Bool) where
  -- The package has the workspace member's id, and its SPDX id is `x`.
  abbrev pub Roots : Value → Value → String → Type 0
  Roots root (obj fields) x =
      (same equal (get_or fields "id" null) root ≡ true)
      × (name : String) × (version : String) × States fields name version
      × (x ≡ id_of name version)
  Roots root _ x = ⊥

  abbrev pub RootsOf : Value → Items → String → Type 0
  RootsOf root nil x = ⊥
  RootsOf root (cons pkg rest) x = Roots root pkg x ⊎ RootsOf root rest x

  -- A package of a workspace member has the SPDX id.
  abbrev pub IsRoot : Items → Items → String → Type 0
  IsRoot members pkgs x = (root : Value) × InItems root members × RootsOf root pkgs x

  -- The set after the loops, without repetition.
  abbrev pub Added : Result Raised (List String) → List String → (String → Type 0) → Type 0
  Added result ids New =
      (out : List String) × (result ≡ ok out)
      × Distinct out
      × ((x : String) → In x out ↔ (In x ids ⊎ New x))

  -- A package of the workspace member adds its id, and another package adds none.
  taken :
      (root : Value) (fields : Fields) (rest : Items) (ids out : List String)
      (name version x : String)
      → same equal (get_or fields "id" null) root ≡ true
      → States fields name version
      → In x out ↔ (In x (add (id_of name version) ids) ⊎ RootsOf root rest x)
      → In x out ↔ (In x ids ⊎ RootsOf root (cons (obj fields) rest) x)
  taken root fields rest ids out name version x e read (sound, complete) =
      let (of_add, to_add) = in-add_iff x (id_of name version) ids in
      (
        λ h. elim (sound h) [
          | inl f ↦ elim (of_add f) [
            | inl g ↦ inr (inl (e, name, version, read, g))
            | inr g ↦ inl g
          ]
          | inr f ↦ inr (inr f)
        ],
        λ h. elim h [
          | inl f ↦ complete (inl (to_add (inr f)))
          | inr (inl (_, n, v, again, f)) ↦
              let pairs =
                ok-injective (n, v) (name, version)
                  (sym ((name_and_version_iff fields n v).1 again)
                    ∙ (name_and_version_iff fields name version).1 read) in
              complete (inl (to_add (inl (f ∙ ap (λ p. id_of p.0 p.1) pairs))))
          | inr (inr f) ↦ complete (inr f)
        ],
      )

  skipped :
      (root : Value) (fields : Fields) (rest : Items) (ids out : List String) (x : String)
      → same equal (get_or fields "id" null) root ≡ false
      → In x out ↔ (In x ids ⊎ RootsOf root rest x)
      → In x out ↔ (In x ids ⊎ RootsOf root (cons (obj fields) rest) x)
  skipped root fields rest ids out x e (sound, complete) = (
    λ h. elim (sound h) [ inl f ↦ inl f | inr f ↦ inr (inr f) ],
    λ h. elim h [
      | inl f ↦ complete (inl f)
      | inr (inl (f, _, _, _, _)) ↦ cc (e, f)
      | inr (inr f) ↦ complete (inr f)
    ],
  )

  add_root_lem :
      (root : Value) (pkgs : Items) (ids : List String)
      → AllNamed pkgs
      → Distinct ids
      → Added (add_root equal root pkgs ids) ids (RootsOf root pkgs)
  unfolding add_root
  add_root_lem root nil ids named d =
      (ids, refl, d, λ x. (λ h. inl h, λ h. elim h [ inl f ↦ f | inr f ↦ absurd f ]))
  add_root_lem root (cons (obj fields) rest) ids ((name, version, read), named) d =
      elim (Bool-cases (same equal (get_or fields "id" null) root)) [
        | inl e ↦
            let found = (name_and_version_iff fields name version).1 read in
            let id = id_of name version in
            let (out, f, distinct, iff) =
              add_root_lem root rest (add id ids) named (add-Distinct id ids d) in
            (
              out,
              rw (e, found) f,
              distinct,
              λ x. taken root fields rest ids out name version x e read (iff x),
            )
        | inr e ↦
            let (out, f, distinct, iff) = add_root_lem root rest ids named d in
            (out, rw e f, distinct, λ x. skipped root fields rest ids out x e (iff x))
      ]
  add_root_lem root (cons _ rest) ids (named, _) d = absurd named

  pub add_roots_lem :
      (members pkgs : Items) (ids : List String)
      → AllNamed pkgs
      → Distinct ids
      → Added (add_roots equal members pkgs ids) ids (IsRoot members pkgs)
  unfolding add_roots
  add_roots_lem nil pkgs ids named d =
      (ids, refl, d, λ x. (λ h. inl h, λ h. elim h [ inl f ↦ f | inr (_, f, _) ↦ absurd f ]))
  add_roots_lem (cons root rest) pkgs ids named d =
      let (next, e, distinct, first) = add_root_lem root pkgs ids named d in
      let (out, f, distinct', others) = add_roots_lem rest pkgs next named distinct in
      (
        out,
        rw e f,
        distinct',
        λ x. (
          λ h. elim ((others x).0 h) [
            | inl g ↦ elim ((first x).0 g) [ inl k ↦ inl k | inr k ↦ inr (root, inl refl, k) ]
            | inr (member, there, k) ↦ inr (member, inr there, k)
          ],
          λ h. elim h [
            | inl g ↦ (others x).1 (inl ((first x).1 (inl g)))
            | inr (member, inl same_root, k) ↦
                (others x).1 (inl ((first x).1 (inr (subst (λ r. RootsOf r pkgs x) same_root k))))
            | inr (member, inr there, k) ↦ (others x).1 (inr (member, there, k))
          ],
        ),
      )
