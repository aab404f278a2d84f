-- ===== src/Protocol/Menu/Marks.antt =====
-- `BootMenu.from_dict` of protocol.py: the array of entries and the one that is marked as default.
use nlboot.Base.{String, ◌≡◌, refl, true, ◌||◌, List, [], ◌∷◌, contains, eq_iff, ok, arith, All}
use nlboot.Json.{Value, arr, Items, nil, cons}
use nlboot.Protocol.Entry.{BootMenuEntry}
use nlboot.Protocol.Menu.{marked, filled_array, check_marked}
use nlboot.Protocol.Menu.Collect.{EncodesAll, AreFresh, ids, see}

pub contains-see :
    (x : String) (seen : List String) (es : List BootMenuEntry)
    → contains x (see seen es) ≡ (contains x (ids es) || contains x seen)
contains-see x seen [] = refl
contains-see x seen (e ∷ es) = rw (contains-see x (e.entry_id ∷ seen) es) (ground arith)

pub contains-see_nil :
    (x : String) (es : List BootMenuEntry) → contains x (see [] es) ≡ contains x (ids es)
contains-see_nil x es = rw (contains-see x [] es) (ground arith)

-- the marks are the wanted entry's
abbrev pub MarksAre : String → List BootMenuEntry → Type 0
MarksAre wanted = All (λ e. e.default ≡ true → e.entry_id ≡ wanted)

pub marked-eq-nil :
    (wanted : String) (seen : List String) (es : List BootMenuEntry)
    → contains wanted seen ≡ true
    → AreFresh seen es
    → MarksAre wanted es
    → marked es ≡ []
unfolding marked
marked-eq-nil wanted seen [] c f a = refl
marked-eq-nil wanted seen (e ∷ es) c (f, fs) (a, as') =
    ground (arith, marked-eq-nil wanted (e.entry_id ∷ seen) es, eq_iff wanted e.entry_id)

-- The marks of distinct entries pass the check if they are the wanted entry's.
pub check_marked_complete :
    (wanted : String) (seen : List String) (es : List BootMenuEntry)
    → AreFresh seen es
    → MarksAre wanted es
    → check_marked wanted (marked es) ≡ ok tt
unfolding marked
check_marked_complete wanted seen [] f a = refl
check_marked_complete wanted seen (e ∷ es) (f, fs) (a, as') = ground (
  arith,
  marked-eq-nil wanted (e.entry_id ∷ seen) es,
  check_marked_complete wanted (e.entry_id ∷ seen) es fs as',
  eq_iff wanted e.entry_id,
  eq_iff e.entry_id wanted,
)

pub MarksAre-nil : (wanted : String) (es : List BootMenuEntry) → marked es ≡ [] → MarksAre wanted es
unfolding marked
MarksAre-nil wanted [] h = tt
MarksAre-nil wanted (e ∷ es) h = ground (arith, MarksAre-nil wanted es)

pub only_mark :
    (wanted first : String) (rest : List String)
    → check_marked wanted (first ∷ rest) ≡ ok tt
    → (rest ≡ []) × (first ≡ wanted)
only_mark wanted first [] h = ground (arith, eq_iff first wanted)
only_mark wanted first (second ∷ rest) h = cc

pub check_marked_sound :
    (wanted : String) (es : List BootMenuEntry)
    → check_marked wanted (marked es) ≡ ok tt
    → MarksAre wanted es
unfolding marked
check_marked_sound wanted [] h = tt
check_marked_sound wanted (e ∷ es) h = ground (
  arith,
  only_mark wanted e.entry_id (marked es),
  MarksAre-nil wanted es,
  check_marked_sound wanted es,
)

pub filled_array_sound : (v : Value) {items : Items} → filled_array v ≡ ok items → v ≡ arr items
filled_array_sound (arr (cons item rest)) h = ground arith
filled_array_sound (arr nil) h = cc
filled_array_sound _ h = cc

pub filled_array_complete :
    (items : Items) (es : List BootMenuEntry) (wanted : String)
    → EncodesAll items es
    → contains wanted (ids es) ≡ true
    → filled_array (arr items) ≡ ok items
filled_array_complete nil [] wanted e c = cc
filled_array_complete nil (_ ∷ _) wanted e c = absurd e
filled_array_complete (cons item rest) es wanted e c = refl
