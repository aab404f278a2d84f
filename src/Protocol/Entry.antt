-- ===== src/Protocol/Entry.antt =====
-- `BootMenuEntry` of protocol.py.
pub mod Laws
use nlboot.Base.{String, Bool, true, false, not, ◌||◌, Result, ok, ◌>>=◌, ◌>>◌, guard, or_raise}
use nlboot.Json.{Fields, bool, str, end, field, get_or, bool_of}
use nlboot.Protocol.Errors.{
  NlbootError, unsupported_entry_mode, unsupported_role, default_not_boolean, eligible_not_boolean,
  rollback_not_eligible,
}
use nlboot.Protocol.Modes.{BootMode, BootEntryRole, mode_name, role_name, mode_of, role_of}
use nlboot.Protocol.Checks.{require_string}

pub record BootMenuEntry : Type 0 where
  pub entry_id : String
  pub label : String
  pub boot_release_set_id : String
  pub release_set_ref : String
  pub boot_mode : BootMode
  pub role : BootEntryRole
  pub default : Bool
  pub rollback_eligible : Bool

abbrev pub is_rollback : BootEntryRole → Bool
is_rollback BootEntryRole.rollback = true
is_rollback _ = false

unfoldable pub from_dict : Fields → Result NlbootError BootMenuEntry
from_dict fields = do
  entry_id ← require_string fields "entry_id"
  label ← require_string fields "label"
  boot_release_set_id ← require_string fields "boot_release_set_id"
  release_set_ref ← require_string fields "release_set_ref"
  mode_text ← require_string fields "boot_mode"
  boot_mode ← or_raise (mode_of mode_text) (unsupported_entry_mode mode_text)
  role_text ← require_string fields "role"
  role ← or_raise (role_of role_text) (unsupported_role role_text)
  default ← or_raise (bool_of (get_or fields "default" (bool false))) default_not_boolean
  rollback_eligible ←
      or_raise (bool_of (get_or fields "rollback_eligible" (bool false))) eligible_not_boolean
  guard (not (is_rollback role) || rollback_eligible) rollback_not_eligible
  ok (record {
    entry_id = entry_id;
    label = label;
    boot_release_set_id = boot_release_set_id;
    release_set_ref = release_set_ref;
    boot_mode = boot_mode;
    role = role;
    default = default;
    rollback_eligible = rollback_eligible;
  })

unfoldable pub to_dict : BootMenuEntry → Fields
to_dict e = field "entry_id" (str e.entry_id) (
    field "label" (str e.label) (
      field "boot_release_set_id" (str e.boot_release_set_id) (
        field "release_set_ref" (str e.release_set_ref) (
          field "boot_mode" (str (mode_name e.boot_mode)) (
            field "role" (str (role_name e.role)) (
              field "default" (bool e.default)
                (field "rollback_eligible" (bool e.rollback_eligible) end)))))))
