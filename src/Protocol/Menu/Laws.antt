-- ===== src/Protocol/Menu/Laws.antt =====
-- `BootMenu` of protocol.py: the documents of menus, and the default entry.
use nlboot.Base.{
  String, ◌≡◌, refl, sym, ap, ◌∙◌, ◌↔◌, inl, inr, true, List, [], ◌∷◌, contains, ◌==◌, eq_iff, ok,
  arith, Yields, Yields-bind, Yields-guard, Yields-ok, bind_ok, guard_ok, All, Bool-cases,
}
use mathlib.Core.List.{Memᴰ}
use nlboot.Text.{has_text}
use nlboot.Json.{str, arr, Items, Fields, get}
use nlboot.Protocol.Checks.{require_string, text_of_require_string, require_string_of_text}
use nlboot.Protocol.Entry.{BootMenuEntry}
use nlboot.Protocol.Entry.Laws as EntryLaws
use nlboot.Protocol.Menu.{
  BootMenu, collect, marked, entries_to_list, filled_array, check_marked, from_dict, to_dict,
  find_entry, default_entry,
}
use nlboot.Protocol.Menu.Marks.{
  contains-see_nil, check_marked_complete, check_marked_sound, filled_array_sound,
  filled_array_complete,
}
use nlboot.Protocol.Menu.Collect.{
  EncodesAll, AreFresh, ids, Collected, collect_sound, collect_complete,
}

-- What the protocol asks of a menu: entry ids without repetition, a default entry among the
-- entries, and no other entry marked as default.
pub record IsWellFormed (m : BootMenu) : Type 0 where
  pub menu_id : has_text m.menu_id ≡ true
  pub default_entry_id : has_text m.default_entry_id ≡ true
  pub distinct : AreFresh [] m.entries
  pub default_listed : contains m.default_entry_id (ids m.entries) ≡ true
  pub marks : All (λ e. e.default ≡ true → e.entry_id ≡ m.default_entry_id) m.entries

pub record Encodes (fields : Fields) (m : BootMenu) : Type 0 where
  pub menu_id : get fields "menu_id" ≡ str m.menu_id
  pub default_entry_id : get fields "default_entry_id" ≡ str m.default_entry_id
  pub items : Items
  pub entries : get fields "entries" ≡ arr items
  pub encoded : EncodesAll items m.entries
  pub well_formed : IsWellFormed m

-- what the checks have let through, as one record
encodes :
    (fields : Fields) (menu_id default_entry_id : String)
    → require_string fields "menu_id" ≡ ok menu_id
    → require_string fields "default_entry_id" ≡ ok default_entry_id
    → (items : Items) → get fields "entries" ≡ arr items
    → (r : List String × List BootMenuEntry) → Collected [] [] items r
    → contains default_entry_id r.0 ≡ true
    → check_marked default_entry_id (marked r.1) ≡ ok tt
    → Encodes fields
        (record { menu_id = menu_id; default_entry_id = default_entry_id; entries = r.1 })
encodes fields menu_id default_entry_id e1 e2 items e3 r c listed marks =
    let (id_text, id_filled) = text_of_require_string fields "menu_id" e1 in
    let (default_text, default_filled) = text_of_require_string fields "default_entry_id" e2 in
    record {
      menu_id = id_text;
      default_entry_id = default_text;
      items = items;
      entries = e3;
      encoded = rw c.listed c.encoded;
      well_formed = record {
        menu_id = id_filled;
        default_entry_id = default_filled;
        distinct = rw c.listed c.fresh;
        default_listed =
            ap (λ es. contains default_entry_id (ids es)) c.listed
            ∙ sym (contains-see_nil default_entry_id c.entries)
            ∙ ap (contains default_entry_id) (sym c.seen_after)
            ∙ listed;
        marks = check_marked_sound default_entry_id r.1 marks;
      };
    }

from_dict_sound : (fields : Fields) → Yields (Encodes fields) (from_dict fields)
unfolding from_dict
from_dict_sound fields = Yields-bind (require_string fields "menu_id") _ λ menu_id e1.
    Yields-bind (require_string fields "default_entry_id") _ λ default_entry_id e2.
      Yields-bind (filled_array (get fields "entries")) _ λ items e3.
        Yields-bind (collect [] [] items) _ λ r e4.
          Yields-guard (contains default_entry_id r.0) _ _ λ e5.
            Yields-bind (check_marked default_entry_id (marked r.1)) _ λ u e6.
              Yields-ok (Encodes fields) (
                encodes fields menu_id default_entry_id e1 e2 items (filled_array_sound _ e3) r
                  ((collect_sound [] [] items).at r e4) e5 e6)

from_dict_complete : (fields : Fields) (m : BootMenu) → Encodes fields m → from_dict fields ≡ ok m
unfolding from_dict
from_dict_complete fields m h =
    let w = h.well_formed in
    bind_ok _ (require_string_of_text fields "menu_id" h.menu_id w.menu_id) (
      bind_ok _
        (require_string_of_text fields "default_entry_id" h.default_entry_id w.default_entry_id)
        (bind_ok _
          (ap filled_array h.entries
            ∙ filled_array_complete h.items m.entries m.default_entry_id h.encoded w.default_listed)
          (bind_ok _ (collect_complete [] [] h.items m.entries h.encoded w.distinct) (
            guard_ok _ (contains-see_nil m.default_entry_id m.entries ∙ w.default_listed) (
              bind_ok _ (check_marked_complete m.default_entry_id [] m.entries w.distinct w.marks)
                refl)))))

-- `BootMenu.from_dict` accepts exactly the documents that encode a well-formed menu - entry ids
-- without repetition, a default entry among them, no other entry marked as default - and returns
-- that menu.
pub menu_from_dict_iff :
    (fields : Fields) (m : BootMenu) → (from_dict fields ≡ ok m) ↔ Encodes fields m
menu_from_dict_iff fields m = ((from_dict_sound fields).at m, from_dict_complete fields m)

EncodesAll-to_list :
    (es : List BootMenuEntry) → All EntryLaws.IsValid es → EncodesAll (entries_to_list es) es
unfolding entries_to_list
EncodesAll-to_list [] a = tt
EncodesAll-to_list (e ∷ es) (v, vs) = (
  (EntryLaws.entry_from_dict_iff _ e).0 (EntryLaws.entry_from_dict-to_dict e v),
  EncodesAll-to_list es vs,
)

-- `BootMenu.from_dict` reads back what `to_dict` writes of a well-formed menu of valid entries.
pub menu_from_dict-to_dict :
    (m : BootMenu) → IsWellFormed m → All EntryLaws.IsValid m.entries → from_dict (to_dict m) ≡ ok m
unfolding to_dict
menu_from_dict-to_dict m w v = from_dict_complete (to_dict m) m (record {
  menu_id = refl;
  default_entry_id = refl;
  items = entries_to_list m.entries;
  entries = refl;
  encoded = EncodesAll-to_list m.entries v;
  well_formed = w;
})

-- What `default_entry` promises: the entry that it returns stands in the menu under the default id.
pub record IsDefault (m : BootMenu) (e : BootMenuEntry) : Type 0 where
  pub id : e.entry_id ≡ m.default_entry_id
  pub listed : Memᴰ e m.entries

find_entry_total :
    (wanted : String) (es : List BootMenuEntry)
    → contains wanted (ids es) ≡ true
    → (e : BootMenuEntry) × (find_entry wanted es ≡ ok e) × (e.entry_id ≡ wanted) × Memᴰ e es
unfolding find_entry
find_entry_total wanted [] c = cc
find_entry_total wanted (e ∷ es) c = elim (Bool-cases (e.entry_id == wanted)) [
  | inl same ↦ (e, rw same, (eq_iff e.entry_id wanted).0 same, Memᴰ.head refl)
  | inr differs ↦
      let (found, returned, id, listed) =
        find_entry_total wanted es
          (ground (arith, eq_iff e.entry_id wanted, eq_iff wanted e.entry_id)) in
      (found, rw differs returned, id, Memᴰ.tail listed)
]

-- A well-formed menu has a default entry: `default_entry` raises nothing, and what it returns
-- stands in the menu under the default id.
pub default_entry_total :
    (m : BootMenu) → IsWellFormed m → (e : BootMenuEntry) × (default_entry m ≡ ok e) × IsDefault m e
unfolding default_entry
default_entry_total m w =
    let (e, returned, id, listed) =
      find_entry_total m.default_entry_id m.entries w.default_listed in
    (e, returned, record { id = id; listed = listed })

find_entry_sound :
    (wanted : String) (es : List BootMenuEntry) {e : BootMenuEntry}
    → find_entry wanted es ≡ ok e
    → e.entry_id ≡ wanted
unfolding find_entry
find_entry_sound wanted [] h = cc
find_entry_sound wanted (e ∷ es) {e = found} h =
    ground (arith, eq_iff e.entry_id wanted, find_entry_sound wanted es {e = found})

-- An entry that `default_entry` returns has the default id.
pub default_entry-id :
    (m : BootMenu) {e : BootMenuEntry} → default_entry m ≡ ok e → e.entry_id ≡ m.default_entry_id
unfolding default_entry
default_entry-id m = find_entry_sound m.default_entry_id m.entries
