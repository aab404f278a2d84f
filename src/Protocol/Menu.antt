-- ===== src/Protocol/Menu.antt =====
-- `BootMenu` of protocol.py, but for the check against a manifest, which is in Manifest.antt.
pub mod Collect
pub mod Marks
pub mod Laws
use nlboot.Base.{
  String, Bool, true, false, not, ◌||◌, List, [], ◌∷◌, ◌++◌, contains, ◌==◌, Result, ok, err, ◌>>=◌,
  ◌>>◌, guard, or_raise, if◌then◌else◌,
}
use nlboot.Json.{
  Value, Items, Fields, nil, cons, arr, obj, str, end, field, get, array_of, object_of,
}
use nlboot.Protocol.Errors.{
  NlbootError, entries_not_array, entry_not_object, duplicate_entry, default_unknown, many_defaults,
  default_mismatch, default_missing,
}
use nlboot.Protocol.Checks.{require_string}
use nlboot.Protocol.Entry
use nlboot.Protocol.Entry.{BootMenuEntry}

pub record BootMenu : Type 0 where
  pub menu_id : String
  pub default_entry_id : String
  pub entries : List BootMenuEntry

-- The loop of `from_dict`, over the set `seen` and the list `entries` so far.
unfoldable pub collect :
    List String → List BootMenuEntry → Items → Result NlbootError (List String × List BootMenuEntry)
collect seen entries nil = ok (seen, entries)
collect seen entries (cons item rest) = do
  fields ← or_raise (object_of item) entry_not_object
  entry ← Entry.from_dict fields
  guard (not (contains entry.entry_id seen)) (duplicate_entry entry.entry_id)
  collect (entry.entry_id ∷ seen) (entries ++ entry ∷ []) rest

-- `[entry.entry_id for entry in entries if entry.default]`
pub marked : List BootMenuEntry → List String
marked [] = []
marked (entry ∷ entries) =
    let rest = marked entries in if entry.default then entry.entry_id ∷ rest else rest

-- `isinstance(entries_raw, list)` and `entries_raw` is not empty
abbrev pub filled_array : Value → Result NlbootError Items
filled_array (arr (cons item rest)) = ok (cons item rest)
filled_array _ = err entries_not_array

-- The two checks of the marked entries.
abbrev pub check_marked : String → List String → Result NlbootError (Unit {0})
check_marked default_entry_id [] = ok tt
check_marked default_entry_id (first ∷ []) = guard (first == default_entry_id) default_mismatch
check_marked default_entry_id (first ∷ second ∷ rest) = err many_defaults

unfoldable pub from_dict : Fields → Result NlbootError BootMenu
unfolding collect marked
from_dict fields = do
  menu_id ← require_string fields "menu_id"
  default_entry_id ← require_string fields "default_entry_id"
  entries_raw ← filled_array (get fields "entries")
  (seen, entries) ← collect [] [] entries_raw
  guard (contains default_entry_id seen) default_unknown
  check_marked default_entry_id (marked entries)
  ok (record { menu_id = menu_id; default_entry_id = default_entry_id; entries = entries })

-- The loop of `default_entry`.
pub find_entry : String → List BootMenuEntry → Result NlbootError BootMenuEntry
find_entry wanted [] = err default_missing
find_entry wanted (entry ∷ entries) =
    if entry.entry_id == wanted then ok entry else find_entry wanted entries

unfoldable pub default_entry : BootMenu → Result NlbootError BootMenuEntry
unfolding find_entry
default_entry menu = find_entry menu.default_entry_id menu.entries

-- `[entry.to_dict() for entry in entries]`
pub entries_to_list : List BootMenuEntry → Items
entries_to_list [] = nil
entries_to_list (entry ∷ entries) = cons (obj (Entry.to_dict entry)) (entries_to_list entries)

unfoldable pub to_dict : BootMenu → Fields
unfolding entries_to_list
to_dict menu = field "menu_id" (str menu.menu_id) (
    field "default_entry_id" (str menu.default_entry_id)
      (field "entries" (arr (entries_to_list menu.entries)) end))
