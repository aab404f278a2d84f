-- ===== src/Protocol/Menu/Collect.antt =====
-- The loop that reads the entries of a boot menu.
use nlboot.Base.{
  String, ◌≡◌, refl, sym, ◌∙◌, false, not, List, [], ◌∷◌, ◌++◌, contains, ok, arith, Yields,
  Yields-bind, Yields-guard, Yields-ok, bind_ok, guard_ok,
}
use mathlib.Core.List.{append_assoc, append-nil}
use nlboot.Json.{obj, Items, Fields, nil, cons}
use nlboot.Protocol.Entry
use nlboot.Protocol.Entry.{BootMenuEntry}
use nlboot.Protocol.Entry.Laws.{Encodes, entry_from_dict_iff}
use nlboot.Protocol.Menu.{collect}

-- The array holds an object for each entry, in order.
abbrev pub EncodesAll : Items → List BootMenuEntry → Type 0
EncodesAll nil [] = Unit
EncodesAll (cons (obj fields) rest) (entry ∷ entries) =
    Encodes fields entry × EncodesAll rest entries
EncodesAll _ _ = ⊥

-- No entry has an id of `seen`, or that of an entry before it.
abbrev pub AreFresh : List String → List BootMenuEntry → Type 0
AreFresh seen [] = Unit
AreFresh seen (entry ∷ entries) =
    (contains entry.entry_id seen ≡ false) × AreFresh (entry.entry_id ∷ seen) entries

abbrev pub ids : List BootMenuEntry → List String
ids [] = []
ids (entry ∷ entries) = entry.entry_id ∷ ids entries

-- the set `seen` after the loop
abbrev pub see : List String → List BootMenuEntry → List String
see seen [] = seen
see seen (entry ∷ entries) = see (entry.entry_id ∷ seen) entries

-- What the loop returns, from `seen` and `done`.
pub record Collected (seen : List String) (done : List BootMenuEntry) (items : Items)
    (r : List String × List BootMenuEntry) : Type 0 where
  pub entries : List BootMenuEntry
  pub encoded : EncodesAll items entries
  pub fresh : AreFresh seen entries
  pub seen_after : r.0 ≡ see seen entries
  pub listed : r.1 ≡ done ++ entries

Collected-cons :
    (seen : List String) (done : List BootMenuEntry) (fields : Fields) (rest : Items)
    (entry : BootMenuEntry) (r : List String × List BootMenuEntry)
    → Encodes fields entry
    → contains entry.entry_id seen ≡ false
    → Collected (entry.entry_id ∷ seen) (done ++ entry ∷ []) rest r
    → Collected seen done (cons (obj fields) rest) r
Collected-cons seen done fields rest entry r e f c = record {
  entries = entry ∷ c.entries;
  encoded = (e, c.encoded);
  fresh = (f, c.fresh);
  seen_after = c.seen_after;
  listed = c.listed ∙ append_assoc done (entry ∷ []) c.entries;
}

pub collect_sound :
    (seen : List String) (done : List BootMenuEntry) (items : Items)
    → Yields (Collected seen done items) (collect seen done items)
unfolding collect
collect_sound seen done nil = Yields-ok _ (record {
  entries = [];
  encoded = tt;
  fresh = tt;
  seen_after = refl;
  listed = sym (append-nil done);
})
collect_sound seen done (cons (obj fields) rest) = Yields-bind (Entry.from_dict fields) _ λ entry e.
    Yields-guard (not (contains entry.entry_id seen)) _ _ λ f. record {
      at = λ r h.
          Collected-cons seen done fields rest entry r ((entry_from_dict_iff fields entry).0 e)
            (ground arith)
            ((collect_sound (entry.entry_id ∷ seen) (done ++ entry ∷ []) rest).at r h);
    }
collect_sound seen done (cons _ rest) = record { at = λ r h. cc }

pub collect_complete :
    (seen : List String) (done : List BootMenuEntry) (items : Items) (entries : List BootMenuEntry)
    → EncodesAll items entries
    → AreFresh seen entries
    → collect seen done items ≡ ok (see seen entries, done ++ entries)
unfolding collect
collect_complete seen done nil [] e f = rw (append-nil done)
collect_complete seen done (cons (obj fields) rest) (entry ∷ entries) (e, es) (f, fs) =
    bind_ok _ ((entry_from_dict_iff fields entry).1 e) (
      guard_ok _ (ground arith) (
        collect_complete (entry.entry_id ∷ seen) (done ++ entry ∷ []) rest entries es fs
        ∙ rw (append_assoc done (entry ∷ []) entries)))
collect_complete seen done _ _ e f = absurd e
