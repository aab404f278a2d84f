-- ===== src/Json/Canonical.antt =====
-- `json.dumps` with sorted keys, on objects that differ in the order of their members.
use Prim.Native.String.{◌++◌ as append}
use nlboot.Base.{String, ◌≡◌, refl, sym, ap, ◌∙◌, true, false, List, [], ◌∷◌, Bool-cases, inl, inr}
use nlboot.Text.Order.{before, is_le-compare, before_total, before_trans, before_strict}
use nlboot.Json.{Value, Fields, obj, field}
use nlboot.Json.Dump.{Member, join, insert_member, sort_members, show_members, dumps, dump_members}

insert-before :
    (m n : Member) (ns : List Member)
    → before m.0 n.0 ≡ true
    → insert_member m (n ∷ ns) ≡ m ∷ n ∷ ns
unfolding insert_member
insert-before m n ns h = rw (is_le-compare m.0 n.0, h)

insert-after :
    (m n : Member) (ns : List Member)
    → before m.0 n.0 ≡ false
    → insert_member m (n ∷ ns) ≡ n ∷ insert_member m ns
unfolding insert_member
insert-after m n ns h = rw (is_le-compare m.0 n.0, h)

-- Inserting two members with different keys gives the same list in either order.
insert_swap_ordered :
    (m n : Member) (ns : List Member)
    → before m.0 n.0 ≡ true
    → before n.0 m.0 ≡ false
    → insert_member m (insert_member n ns) ≡ insert_member n (insert_member m ns)
unfolding insert_member
insert_swap_ordered m n [] h k = insert-before m n [] h ∙ sym (insert-after n m [] k)
insert_swap_ordered m n (l ∷ ls) h k = elim (Bool-cases (before n.0 l.0)) [
  | inl e ↦
      ap (insert_member m) (insert-before n l ls e)
      ∙ insert-before m n (l ∷ ls) h
      ∙ sym (
          ap (insert_member n) (insert-before m l ls (before_trans m.0 n.0 l.0 h e))
          ∙ insert-after n m (l ∷ ls) k
          ∙ ap (λ x. m ∷ x) (insert-before n l ls e))
  | inr e ↦ elim (Bool-cases (before m.0 l.0)) [
    | inl f ↦
        ap (insert_member m) (insert-after n l ls e)
        ∙ insert-before m l (insert_member n ls) f
        ∙ sym (
            ap (insert_member n) (insert-before m l ls f)
            ∙ insert-after n m (l ∷ ls) k
            ∙ ap (λ x. m ∷ x) (insert-after n l ls e))
    | inr f ↦
        ap (insert_member m) (insert-after n l ls e)
        ∙ insert-after m l (insert_member n ls) f
        ∙ ap (λ x. l ∷ x) (insert_swap_ordered m n ls h k)
        ∙ sym
            (ap (insert_member n) (insert-after m l ls f) ∙ insert-after n l (insert_member m ls) e)
  ]
]

insert_swap :
    (m n : Member) (ns : List Member)
    → (m.0 ≡ n.0 → ⊥)
    → insert_member m (insert_member n ns) ≡ insert_member n (insert_member m ns)
insert_swap m n ns differ = elim (Bool-cases (before m.0 n.0)) [
  | inl h ↦ insert_swap_ordered m n ns h (before_strict m.0 n.0 differ h)
  | inr h ↦ sym (insert_swap_ordered n m ns (before_total m.0 n.0 h) h)
]

-- The same members in another order: members with different keys that stand side by side may change
-- places, any number of times.
pub data Reordered : Fields → Fields → Type 0 where
  same : (fs : Fields) → Reordered fs fs
  keep :
      (k : String) (v : Value) {fs gs : Fields}
      → Reordered fs gs
      → Reordered (field k v fs) (field k v gs)
  swap :
      (j k : String) (v w : Value) (fs : Fields)
      → (j ≡ k → ⊥)
      → Reordered (field j v (field k w fs)) (field k w (field j v fs))
  chain : {fs gs hs : Fields} → Reordered fs gs → Reordered gs hs → Reordered fs hs

sorted_alike :
    {fs gs : Fields}
    → Reordered fs gs
    → sort_members (dump_members fs) ≡ sort_members (dump_members gs)
unfolding dump_members sort_members
sorted_alike (same fs) = refl
sorted_alike (keep k v r) = ap (insert_member (k, dumps v)) (sorted_alike r)
sorted_alike (swap j k v w fs differ) =
    insert_swap (j, dumps v) (k, dumps w) (sort_members (dump_members fs)) differ
sorted_alike (chain r q) = sorted_alike r ∙ sorted_alike q

-- The text of an object is the same for every order of its members.
pub dumps-Reordered : {fs gs : Fields} → Reordered fs gs → dumps (obj fs) ≡ dumps (obj gs)
unfolding dumps
dumps-Reordered r = ap (λ ms. append "{" (append (join (show_members ms)) "}")) (sorted_alike r)
