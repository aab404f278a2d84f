-- ===== src/Protocol/Entry/Laws.antt =====
-- `BootMenuEntry.from_dict` and `to_dict` of protocol.py: the documents of entries.
use nlboot.Base.{
  String, ◌≡◌, refl, ◌↔◌, Bool, true, false, not, ◌||◌, ok, arith, some, ap, ◌∙◌, bind_ok,
  or_raise_ok, guard_ok, Yields, Yields-bind, Yields-or_raise, Yields-guard, Yields-ok,
}
use nlboot.Text.{has_text}
use nlboot.Json.{Value, Fields, bool, str, get, get_or, bool_of}
use nlboot.Protocol.Modes.{
  BootEntryRole, mode_name, role_name, mode_of, role_of, mode_of-mode_name, role_of-role_name,
  mode_of_sound, role_of_sound, has_text-mode_name, has_text-role_name,
}
use nlboot.Protocol.Checks.{require_string, require_string_of_text, text_of_require_string}
use nlboot.Protocol.Entry.{BootMenuEntry, is_rollback, from_dict, to_dict}

pub record IsValid (e : BootMenuEntry) : Type 0 where
  pub entry_id : has_text e.entry_id ≡ true
  pub label : has_text e.label ≡ true
  pub boot_release_set_id : has_text e.boot_release_set_id ≡ true
  pub release_set_ref : has_text e.release_set_ref ≡ true
  pub rollback : e.role ≡ BootEntryRole.rollback → e.rollback_eligible ≡ true

pub record Encodes (fields : Fields) (e : BootMenuEntry) : Type 0 where
  pub entry_id : get fields "entry_id" ≡ str e.entry_id
  pub label : get fields "label" ≡ str e.label
  pub boot_release_set_id : get fields "boot_release_set_id" ≡ str e.boot_release_set_id
  pub release_set_ref : get fields "release_set_ref" ≡ str e.release_set_ref
  pub boot_mode : get fields "boot_mode" ≡ str (mode_name e.boot_mode)
  pub role : get fields "role" ≡ str (role_name e.role)
  pub default : get_or fields "default" (bool false) ≡ bool e.default
  pub rollback_eligible : get_or fields "rollback_eligible" (bool false) ≡ bool e.rollback_eligible
  pub valid : IsValid e

pub bool_of_sound : (v : Value) {b : Bool} → bool_of v ≡ some b → v ≡ bool b
bool_of_sound (bool b) h = ground arith
bool_of_sound _ h = cc

rollback_allowed :
    (e : BootMenuEntry)
    → (e.role ≡ BootEntryRole.rollback → e.rollback_eligible ≡ true)
    → (not (is_rollback e.role) || e.rollback_eligible) ≡ true
rollback_allowed e h = ground arith

-- the texts and flags that the checks have let through, as one record
encodes :
    (fields : Fields) (e : BootMenuEntry) {mode_text role_text : String}
    → require_string fields "entry_id" ≡ ok e.entry_id
    → require_string fields "label" ≡ ok e.label
    → require_string fields "boot_release_set_id" ≡ ok e.boot_release_set_id
    → require_string fields "release_set_ref" ≡ ok e.release_set_ref
    → require_string fields "boot_mode" ≡ ok mode_text
    → mode_of mode_text ≡ some e.boot_mode
    → require_string fields "role" ≡ ok role_text
    → role_of role_text ≡ some e.role
    → bool_of (get_or fields "default" (bool false)) ≡ some e.default
    → bool_of (get_or fields "rollback_eligible" (bool false)) ≡ some e.rollback_eligible
    → (not (is_rollback e.role) || e.rollback_eligible) ≡ true
    → Encodes fields e
encodes fields e {mode_text} {role_text} e1 e2 e3 e4 e5 e6 e7 e8 e9 e10 e11 =
    let (id_text, id_filled) = text_of_require_string fields "entry_id" e1 in
    let (label_text, label_filled) = text_of_require_string fields "label" e2 in
    let (boot_text, boot_filled) = text_of_require_string fields "boot_release_set_id" e3 in
    let (release_text, release_filled) = text_of_require_string fields "release_set_ref" e4 in
    let (mode, _) = text_of_require_string fields "boot_mode" e5 in
    let (role, _) = text_of_require_string fields "role" e7 in
    record {
      entry_id = id_text;
      label = label_text;
      boot_release_set_id = boot_text;
      release_set_ref = release_text;
      boot_mode = mode ∙ ap str (mode_of_sound mode_text e6);
      role = role ∙ ap str (role_of_sound role_text e8);
      default = bool_of_sound _ e9;
      rollback_eligible = bool_of_sound _ e10;
      valid = record {
        entry_id = id_filled;
        label = label_filled;
        boot_release_set_id = boot_filled;
        release_set_ref = release_filled;
        rollback = λ p. ground arith;
      };
    }

from_dict_sound : (fields : Fields) → Yields (Encodes fields) (from_dict fields)
unfolding from_dict
from_dict_sound fields =
    let text = require_string fields in
    Yields-bind (text "entry_id") _ λ entry_id e1. Yields-bind (text "label") _ λ label e2.
      Yields-bind (text "boot_release_set_id") _ λ boot_release_set_id e3.
        Yields-bind (text "release_set_ref") _ λ release_set_ref e4.
          Yields-bind (text "boot_mode") _ λ mode_text e5.
            Yields-or_raise (mode_of mode_text) _ _ λ boot_mode e6.
              Yields-bind (text "role") _ λ role_text e7.
                Yields-or_raise (role_of role_text) _ _ λ role e8.
                  Yields-or_raise (bool_of (get_or fields "default" (bool false))) _ _ λ default e9.
                    Yields-or_raise (bool_of (get_or fields "rollback_eligible" (bool false))) _ _
                      λ eligible e10. Yields-guard (not (is_rollback role) || eligible) _ _ λ e11.
                        Yields-ok (Encodes fields)
                          (encodes fields _ e1 e2 e3 e4 e5 e6 e7 e8 e9 e10 e11)

from_dict_complete :
    (fields : Fields) (e : BootMenuEntry) → Encodes fields e → from_dict fields ≡ ok e
unfolding from_dict
from_dict_complete fields e h =
    bind_ok _ (require_string_of_text fields "entry_id" h.entry_id h.valid.entry_id) (
      bind_ok _ (require_string_of_text fields "label" h.label h.valid.label) (
        bind_ok _
          (require_string_of_text fields "boot_release_set_id" h.boot_release_set_id
            h.valid.boot_release_set_id)
          (bind_ok _
            (require_string_of_text fields "release_set_ref" h.release_set_ref
              h.valid.release_set_ref)
            (bind_ok _
              (require_string_of_text fields "boot_mode" h.boot_mode
                (has_text-mode_name e.boot_mode))
              (or_raise_ok _ _ (mode_of-mode_name e.boot_mode) (
                bind_ok _ (require_string_of_text fields "role" h.role (has_text-role_name e.role))
                  (or_raise_ok _ _ (role_of-role_name e.role) (
                    or_raise_ok _ _ (ap bool_of h.default) (
                      or_raise_ok _ _ (ap bool_of h.rollback_eligible)
                        (guard_ok _ (rollback_allowed e h.valid.rollback) refl))))))))))

-- `BootMenuEntry.from_dict` accepts exactly the documents that encode a valid entry, a rollback
-- entry being eligible for rollback, and returns that entry.
pub entry_from_dict_iff :
    (fields : Fields) (e : BootMenuEntry) → (from_dict fields ≡ ok e) ↔ Encodes fields e
entry_from_dict_iff fields e = ((from_dict_sound fields).at e, from_dict_complete fields e)

-- `BootMenuEntry.from_dict` reads back what `to_dict` writes of a valid entry.
pub entry_from_dict-to_dict : (e : BootMenuEntry) → IsValid e → from_dict (to_dict e) ≡ ok e
unfolding to_dict
entry_from_dict-to_dict e v = from_dict_complete (to_dict e) e (record {
  entry_id = refl;
  label = refl;
  boot_release_set_id = refl;
  release_set_ref = refl;
  boot_mode = refl;
  role = refl;
  default = refl;
  rollback_eligible = refl;
  valid = v;
})
