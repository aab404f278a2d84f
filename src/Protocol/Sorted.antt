-- ===== src/Protocol/Sorted.antt =====
-- The readers of protocol.py on an object whose members stand in another order, at any depth.
use nlboot.Base.{
  String, ◌≡◌, refl, ap, ◌∙◌, List, ◌∷◌, ◌++◌, [], some, not, contains, Result, ok, ◌>>=◌, ◌>>◌,
  guard, false,
}
use nlboot.Json.{Value, Items, Fields, bool, str, arr, obj, nil, cons, get, bool_of}
use nlboot.Json.Write.{sorted, sorted_items, sorted_fields}
use nlboot.Json.Faithful.{get-sorted_fields, get_or-sorted_fields}
use nlboot.Protocol.Checks.{require_string, require_text, non_blank}
use nlboot.Protocol.Errors.{NlbootError, must_be_text, duplicate_entry, default_unknown}
use nlboot.Protocol.Entry as Entry
use nlboot.Protocol.Entry.{BootMenuEntry}
use nlboot.Protocol.Menu as Menu
use nlboot.Protocol.Menu.{BootMenu, collect, filled_array, check_marked, marked}
use nlboot.Protocol.Manifest.{read_menu}

non_blank-sorted : (e : NlbootError) (v : Value) → non_blank e (sorted v) ≡ non_blank e v
unfolding sorted non_blank
non_blank-sorted e (str s) = refl
non_blank-sorted e _ = refl

require_string-sorted :
    (fs : Fields) (key : String) → require_string (sorted_fields fs) key ≡ require_string fs key
unfolding require_string require_text
require_string-sorted fs key =
    ap (non_blank (must_be_text key)) (get-sorted_fields fs key) ∙ non_blank-sorted _ (get fs key)

bool_of-sorted : (v : Value) → bool_of (sorted v) ≡ bool_of v
unfolding sorted
bool_of-sorted (bool b) = refl
bool_of-sorted _ = refl

entry_from_dict-sorted : (fs : Fields) → Entry.from_dict (sorted_fields fs) ≡ Entry.from_dict fs
unfolding Entry.from_dict sorted
entry_from_dict-sorted fs = simp (
  require_string-sorted,
  bool_of-sorted,
  get_or-sorted_fields fs "default" (bool false) refl,
  get_or-sorted_fields fs "rollback_eligible" (bool false) refl,
)

collect-sorted :
    (seen : List String) (entries : List BootMenuEntry) (xs : Items)
    → collect seen entries (sorted_items xs) ≡ collect seen entries xs
unfolding collect sorted
collect-sorted seen entries nil = refl
collect-sorted seen entries (cons (obj fs) xs) =
    ap
      (λ r. r >>= λ e.
        guard (not (contains e.entry_id seen)) (duplicate_entry e.entry_id)
        >> collect (e.entry_id ∷ seen) (entries ++ e ∷ []) (sorted_items xs))
      (entry_from_dict-sorted fs)
    ∙ λ i. Entry.from_dict fs >>= λ e.
        guard (not (contains e.entry_id seen)) (duplicate_entry e.entry_id)
        >> collect-sorted (e.entry_id ∷ seen) (entries ++ e ∷ []) xs i
collect-sorted seen entries (cons _ xs) = refl

filled_array-sorted :
    (v : Value) {A : Type 0} (next : Items → Result NlbootError A)
    → ((xs : Items) → next (sorted_items xs) ≡ next xs)
    → (filled_array (sorted v) >>= next) ≡ (filled_array v >>= next)
unfolding sorted
filled_array-sorted (arr (cons x xs)) next h = h (cons x xs)
filled_array-sorted (arr nil) next h = refl
filled_array-sorted _ next h = refl

-- `from_dict` of a menu after the loop
abbrev checked : String → String → List String × List BootMenuEntry → Result NlbootError BootMenu
checked menu_id default_entry_id (seen, entries) = do
  guard (contains default_entry_id seen) default_unknown
  check_marked default_entry_id (marked entries)
  ok (record { menu_id = menu_id; default_entry_id = default_entry_id; entries = entries })

menu_from_dict-sorted : (fs : Fields) → Menu.from_dict (sorted_fields fs) ≡ Menu.from_dict fs
unfolding Menu.from_dict
menu_from_dict-sorted fs =
    simp (require_string-sorted, get-sorted_fields)
      (λ i. require_string fs "menu_id" >>= λ menu_id.
        require_string fs "default_entry_id" >>= λ default_entry_id.
        filled_array-sorted (get fs "entries")
          (λ items. collect [] [] items >>= checked menu_id default_entry_id)
          (λ items. ap (λ r. r >>= checked menu_id default_entry_id) (collect-sorted [] [] items))
          i)

-- The menu in a value is the one in the sorted value.
pub read_menu-sorted : (v : Value) → read_menu (sorted v) ≡ read_menu v
unfolding read_menu sorted
read_menu-sorted (obj fs) = ap (λ r. r >>= λ menu. ok (some menu)) (menu_from_dict-sorted fs)
read_menu-sorted _ = refl
