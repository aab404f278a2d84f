-- ===== src/Json/Faithful.antt =====
-- `json.dumps` with sorted keys gives two values the same text exactly if they are the same up to the
-- order of members; and what the members of a sorted object are.
use Prim.Native.String.{[] as empty, compare}
use mathlib.Core.Option
use text.Mathlib.Text.{is_le}
use text.Mathlib.TextLemmas.{append-nil}
use nlboot.Base.{
  String, ◌≡◌, ◌↔◌, refl, sym, ap, ◌∙◌, Bool, true, false, ◌&&◌, arith, Option, none, some, ◌==◌,
  eq_iff, Bool-cases, inl, inr, if◌then◌else◌,
}
use nlboot.Text.Order.{before, is_le-compare, before_total}
use nlboot.Json.{Value, Fields, null, arr, obj, cons, end, field, get, get_or}
use nlboot.Json.Paths.{member, get_or-member, or_default}
use nlboot.Json.Dump.{dumps}
use nlboot.Json.Write.{put, insert_field, sorted, sorted_items, sorted_fields}
use nlboot.Json.Shown.{append-dumps}
use nlboot.Json.Injective.{put-injective}
use nlboot.Json.Numbers.{numbers, numbers_items, numbers_fields, follows}

numbers-insert_field :
    (k : String) (v : Value) (fs : Fields)
    → numbers_fields (insert_field k v fs) ≡ (numbers v && numbers_fields fs)
unfolding numbers insert_field
numbers-insert_field k v end = refl
numbers-insert_field k v (field j w fs) = elim (Bool-cases (is_le (compare k j))) [
  | inl h ↦ rw h refl
  | inr h ↦ let ih = numbers-insert_field k v fs in rw h (ground arith)
]

numbers-sorted : (v : Value) → numbers (sorted v) ≡ numbers v
unfolding numbers sorted
numbers-sorted v =
    elim v
      as (λ v. numbers (sorted v) ≡ numbers v) (λ fs.
        numbers_fields (sorted_fields fs) ≡ numbers_fields fs) (λ xs.
          numbers_items (sorted_items xs) ≡ numbers_items xs) [
            | arr (xs → ih) ↦ ih
            | obj (fs → ih) ↦ ih
            | field k (w → ih) (fs → ihs) ↦
                numbers-insert_field k (sorted w) (sorted_fields fs) ∙ rw (ih, ihs) refl
            | cons (w → ih) (xs → ihs) ↦ rw (ih, ihs) refl
            | _ ↦ refl
          ]

-- The text of a value is what `put` writes for the sorted value in front of nothing.
dumps-put : (v : Value) → dumps v ≡ put (sorted v) empty
dumps-put v = sym (append-nil (dumps v)) ∙ append-dumps v empty

module _ (v w : Value) (v_numbers : numbers v ≡ true) (w_numbers : numbers w ≡ true) where
  dumps-sorted : dumps v ≡ dumps w → sorted v ≡ sorted w
  unfolding follows
  dumps-sorted h =
      (put-injective (sorted v) (sorted w) empty empty (numbers-sorted v ∙ v_numbers)
        (numbers-sorted w ∙ w_numbers) refl refl (sym (dumps-put v) ∙ h ∙ dumps-put w)).0

  -- `json.dumps` with sorted keys writes the same text for two values, whose numbers stand as
  -- Python prints numbers, exactly if they are the same once the members of every object, however
  -- deep, are in the order of their keys.
  pub dumps_iff : (dumps v ≡ dumps w) ↔ (sorted v ≡ sorted w)
  dumps_iff = (dumps-sorted, λ h. dumps-put v ∙ ap (λ u. put u empty) h ∙ sym (dumps-put w))

before_refl : (k : String) → before k k ≡ true
before_refl k = elim (Bool-cases (before k k)) [ inl h ↦ h | inr h ↦ before_total k k h ]

-- Keys that stand in a strict order are not both the one that is looked up.
different :
    (key j k : String) (w v : Value) (fs : Fields)
    → is_le (compare k j) ≡ false
    → (if j == key then some w else if k == key then some v else member key fs)
      ≡ (if k == key then some v else if j == key then some w else member key fs)
different key j k w v fs h = elim (Bool-cases (j == key)) [
  | inl e ↦ elim (Bool-cases (k == key)) [
    | inl f ↦
        let same : before k k ≡ before k j =
          ap (before k) ((eq_iff k key).0 f ∙ sym ((eq_iff j key).0 e)) in
        cc (before_refl k, is_le-compare k j)
    | inr f ↦ rw (e, f) refl
  ]
  | inr e ↦ rw e refl
]

map-if :
    (b : Bool) (v : Value) (o : Option Value)
    → (if b then some (sorted v) else Option.map sorted o)
      ≡ Option.map sorted (if b then some v else o)
map-if true v o = refl
map-if false v o = refl

-- What `insert_field` puts in front, `member` finds first.
member-insert_field :
    (key k : String) (v : Value) (fs : Fields)
    → member key (insert_field k v fs) ≡ (if k == key then some v else member key fs)
unfolding insert_field
member-insert_field key k v end = refl
member-insert_field key k v (field j w fs) = elim (Bool-cases (is_le (compare k j))) [
  | inl h ↦ rw h refl
  | inr h ↦ let ih = member-insert_field key k v fs in rw (h, ih) (different key j k w v fs h)
]

-- The sorted object has the sorted members.
pub member-sorted_fields :
    (key : String) (fs : Fields) → member key (sorted_fields fs) ≡ Option.map sorted (member key fs)
unfolding sorted
member-sorted_fields key end = refl
member-sorted_fields key (field k v fs) =
    member-insert_field key k _ _
    ∙ rw (member-sorted_fields key fs) (map-if (k == key) v (member key fs))

pub or_default-map :
    (o : Option Value) (default : Value)
    → sorted default ≡ default
    → or_default (Option.map sorted o) default ≡ sorted (or_default o default)
or_default-map none default d = sym d
or_default-map (some v) default d = refl

-- `get` on the sorted object gives the sorted value.
pub get_or-sorted_fields :
    (fs : Fields) (key : String) (default : Value)
    → sorted default ≡ default
    → get_or (sorted_fields fs) key default ≡ sorted (get_or fs key default)
get_or-sorted_fields fs key default d =
    get_or-member (sorted_fields fs) key default
    ∙ ap (λ o. or_default o default) (member-sorted_fields key fs)
    ∙ or_default-map (member key fs) default d
    ∙ ap sorted (sym (get_or-member fs key default))

pub get-sorted_fields :
    (fs : Fields) (key : String) → get (sorted_fields fs) key ≡ sorted (get fs key)
unfolding sorted
get-sorted_fields fs key = get_or-sorted_fields fs key null refl
