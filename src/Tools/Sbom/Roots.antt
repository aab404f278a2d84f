-- ===== src/Tools/Sbom/Roots.antt =====
-- cargo_metadata_to_spdx.py: the set of the root packages' ids, and the order in which `sorted`
-- gives them.
use Prim.Native.String.{compare}
use text.Mathlib.Text.{is_le}
use nlboot.Base.{
  String, ◌≡◌, refl, sym, ap, ◌∙◌, ◌↔◌, ◌⊎◌, inl, inr, true, false, List, [], ◌∷◌, ◌==◌, contains,
  All, Bool-cases, eq_iff,
}
use mathlib.Core.Path.{subst}
use nlboot.Text.Order.{before, is_le-compare, before_total, before_trans, before_strict}
use nlboot.Tools.Sbom.{add, insert_id, sort_ids}

abbrev pub In : {A : Type 0} → A → List A → Type 0
In x [] = ⊥
In x (y ∷ ys) = (x ≡ y) ⊎ In x ys

abbrev pub Distinct : List String → Type 0
Distinct [] = Unit
Distinct (x ∷ xs) = (In x xs → ⊥) × Distinct xs

-- Every text stands before those that follow it, and is none of them.
abbrev pub Ascending : List String → Type 0
Ascending [] = Unit
Ascending (x ∷ xs) = All (λ y. before y x ≡ false) xs × Ascending xs

pub contains_iff : (x : String) (ys : List String) → (contains x ys ≡ true) ↔ In x ys
contains_iff x [] = (λ h. cc, λ h. absurd h)
contains_iff x (y ∷ ys) = elim (Bool-cases (x == y)) [
  | inl e ↦ (λ h. inl ((eq_iff x y).0 e), λ h. rw e)
  | inr e ↦ (
    λ h. inr ((contains_iff x ys).0 (rw e at h)),
    λ h. elim h [
      | inl f ↦ absurd (cc (e, (eq_iff x y).1 f))
      | inr f ↦ rw e ((contains_iff x ys).1 f)
    ],
  )
]

pub in-add_iff : (x id : String) (ids : List String) → In x (add id ids) ↔ In x (id ∷ ids)
in-add_iff x id ids = elim (Bool-cases (contains id ids)) [
  | inl e ↦
      let there = (contains_iff id ids).0 e in
      (
        λ h. inr (rw e at h),
        λ h. rw e (elim h [ inl f ↦ subst (λ y. In y ids) (sym f) there | inr f ↦ f ]),
      )
  | inr e ↦ (λ h. rw e at h, λ h. rw e h)
]

pub add-Distinct : (id : String) (ids : List String) → Distinct ids → Distinct (add id ids)
add-Distinct id ids d = elim (Bool-cases (contains id ids)) [
  | inl e ↦ rw e d
  | inr e ↦ rw e (λ h. cc (e, (contains_iff id ids).1 h), d)
]

in-insert_id_iff : (x id : String) (ids : List String) → In x (insert_id id ids) ↔ In x (id ∷ ids)
in-insert_id_iff x id [] = (λ h. h, λ h. h)
in-insert_id_iff x id (other ∷ ids) = elim (Bool-cases (is_le (compare id other))) [
  | inl e ↦ (λ h. rw e at h, λ h. rw e h)
  | inr e ↦
      let (sound, complete) = in-insert_id_iff x id ids in
      (
        λ h. elim (rw e at h) [
          | inl f ↦ inr (inl f)
          | inr f ↦ elim (sound f) [ inl g ↦ inl g | inr g ↦ inr (inr g) ]
        ],
        λ h. rw e (elim h [
          | inl f ↦ inr (complete (inl f))
          | inr (inl f) ↦ inl f
          | inr (inr f) ↦ inr (complete (inr f))
        ]),
      )
]

pub in-sort_ids_iff : (x : String) (ids : List String) → In x (sort_ids ids) ↔ In x ids
in-sort_ids_iff x [] = (λ h. h, λ h. h)
in-sort_ids_iff x (id ∷ ids) =
    let (sound, complete) = in-insert_id_iff x id (sort_ids ids) in
    let (inner_sound, inner_complete) = in-sort_ids_iff x ids in
    (
      λ h. elim (sound h) [ inl f ↦ inl f | inr f ↦ inr (inner_sound f) ],
      λ h. complete (elim h [ inl f ↦ inl f | inr f ↦ inr (inner_complete f) ]),
    )

All-of_in : (P : String → Type 0) (xs : List String) → ((x : String) → In x xs → P x) → All P xs
All-of_in P [] each = tt
All-of_in P (x ∷ xs) each = (each x (inl refl), All-of_in P xs (λ y h. each y (inr h)))

pub in_of_All : (P : String → Type 0) (xs : List String) → All P xs → (x : String) → In x xs → P x
in_of_All P [] all x h = absurd h
in_of_All P (y ∷ ys) (p, ps) x (inl e) = subst P (sym e) p
in_of_All P (y ∷ ys) (p, ps) x (inr h) = in_of_All P ys ps x h

insert_id-Ascending :
    (id : String) (ids : List String)
    → (In id ids → ⊥)
    → Ascending ids
    → Ascending (insert_id id ids)
insert_id-Ascending id [] new a = (tt, tt)
insert_id-Ascending id (other ∷ ids) new (least, rest) =
    elim (Bool-cases (is_le (compare id other))) [
      | inl e ↦
          let first : before id other ≡ true = sym (is_le-compare id other) ∙ e in
          let strict = before_strict id other (λ f. new (inl f)) first in
          rw e (
            (
              strict,
              All-of_in (λ y. before y id ≡ false) ids
                  (λ y h.
                    before_strict id y (λ f. new (inr (subst (λ z. In z ids) (sym f) h)))
                      (before_trans id other y first
                        (before_total y other (in_of_All _ ids least y h)))),
            ),
            (least, rest),
          )
      | inr e ↦
          let later : before id other ≡ false = sym (is_le-compare id other) ∙ e in
          rw e (
            All-of_in (λ y. before y other ≡ false) (insert_id id ids)
                (λ y h. elim ((in-insert_id_iff y id ids).0 h) [
                  | inl f ↦ subst (λ z. before z other ≡ false) (sym f) later
                  | inr f ↦ in_of_All _ ids least y f
                ]),
            insert_id-Ascending id ids (λ h. new (inr h)) rest,
          )
    ]

pub sort_ids-Ascending : (ids : List String) → Distinct ids → Ascending (sort_ids ids)
sort_ids-Ascending [] d = tt
sort_ids-Ascending (id ∷ ids) (new, d) =
    insert_id-Ascending id (sort_ids ids) (λ h. new ((in-sort_ids_iff id ids).0 h))
      (sort_ids-Ascending ids d)

not_below_itself : (x : String) (xs : List String) → All (λ y. before y x ≡ false) xs → In x xs → ⊥
not_below_itself x xs least h =
    let below : before x x ≡ false = in_of_All _ xs least x h in cc (below, before_total x x below)

-- What follows the same text in two ascending lists.
tail_sub :
    (x y : String) (xs ys : List String)
    → x ≡ y
    → All (λ z. before z x ≡ false) xs
    → ((z : String) → In z (x ∷ xs) → In z (y ∷ ys))
    → (z : String) → In z xs
    → In z ys
tail_sub x y xs ys e least sub z h = elim (sub z (inr h)) [
  | inl f ↦ absurd (not_below_itself x xs least (subst (λ w. In w xs) (f ∙ sym e) h))
  | inr f ↦ f
]

least_alike :
    (x y : String) (xs ys : List String)
    → All (λ z. before z x ≡ false) xs
    → All (λ z. before z y ≡ false) ys
    → In x (y ∷ ys)
    → In y (x ∷ xs)
    → x ≡ y
least_alike x y xs ys least first (inl e) k = e
least_alike x y xs ys least first (inr h) (inl e) = sym e
least_alike x y xs ys least first (inr h) (inr k) =
    let up : before x y ≡ false = in_of_All _ ys first x h in
    let down : before y x ≡ false = in_of_All _ xs least y k in
    absurd (cc (before_total x y up, down))

-- Ascending lists with the same elements are the same.
Ascending-unique :
    (xs ys : List String)
    → Ascending xs
    → Ascending ys
    → ((x : String) → In x xs ↔ In x ys)
    → xs ≡ ys
Ascending-unique [] [] a b same = refl
Ascending-unique [] (y ∷ ys) a b same = absurd ((same y).1 (inl refl))
Ascending-unique (x ∷ xs) [] a b same = absurd ((same x).0 (inl refl))
Ascending-unique (x ∷ xs) (y ∷ ys) (least, a) (first, b) same =
    let e = least_alike x y xs ys least first ((same x).0 (inl refl)) ((same y).1 (inl refl)) in
    let rest = Ascending-unique xs ys a b (λ z. (
      tail_sub x y xs ys e least (λ w. (same w).0) z,
      tail_sub y x ys xs (sym e) first (λ w. (same w).1) z,
    )) in
    ap (λ w. w ∷ xs) e ∙ ap (λ ws. y ∷ ws) rest

pub sort_ids_unique :
    (ids others : List String)
    → Distinct ids
    → Distinct others
    → ((x : String) → In x ids ↔ In x others)
    → sort_ids ids ≡ sort_ids others
sort_ids_unique ids others d e same =
    Ascending-unique (sort_ids ids) (sort_ids others) (sort_ids-Ascending ids d)
      (sort_ids-Ascending others e)
      (λ x. (
        λ h. (in-sort_ids_iff x others).1 ((same x).0 ((in-sort_ids_iff x ids).0 h)),
        λ h. (in-sort_ids_iff x ids).1 ((same x).1 ((in-sort_ids_iff x others).0 h)),
      ))
