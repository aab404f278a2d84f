-- ===== src/Protocol/Modes.antt =====
-- The literal types of protocol.py, as enumerations with the texts that stand for them.
use mathlib.Core.Option.{some-injective}
use nlboot.Text.{has_text}
use nlboot.Base.{
  String, sym, ap, ◌∙◌, ◌≡◌, refl, true, Option, none, some, ◌==◌, if◌then◌else◌, arith, eq_iff,
}

pub data BootMode : Type 0 where
  installer recovery ephemeral bootstrap : BootMode

pub data BootEntryRole : Type 0 where
  normal recovery installer rollback ephemeral bootstrap : BootEntryRole

pub data TokenPurpose : Type 0 where
  enroll boot repair recovery : TokenPurpose

pub data TokenStatus : Type 0 where
  issued redeemed expired revoked : TokenStatus

pub data PlanAction : Type 0 where
  present_menu boot_recovery boot_installer boot_ephemeral bootstrap_only : PlanAction

abbrev pub mode_name : BootMode → String
mode_name BootMode.installer = "installer"
mode_name BootMode.recovery = "recovery"
mode_name BootMode.ephemeral = "ephemeral"
mode_name BootMode.bootstrap = "bootstrap"

abbrev pub role_name : BootEntryRole → String
role_name BootEntryRole.normal = "normal"
role_name BootEntryRole.recovery = "recovery"
role_name BootEntryRole.installer = "installer"
role_name BootEntryRole.rollback = "rollback"
role_name BootEntryRole.ephemeral = "ephemeral"
role_name BootEntryRole.bootstrap = "bootstrap"

abbrev pub purpose_name : TokenPurpose → String
purpose_name TokenPurpose.enroll = "enroll"
purpose_name TokenPurpose.boot = "boot"
purpose_name TokenPurpose.repair = "repair"
purpose_name TokenPurpose.recovery = "recovery"

abbrev pub status_name : TokenStatus → String
status_name TokenStatus.issued = "issued"
status_name TokenStatus.redeemed = "redeemed"
status_name TokenStatus.expired = "expired"
status_name TokenStatus.revoked = "revoked"

abbrev pub action_name : PlanAction → String
action_name PlanAction.present_menu = "present-menu"
action_name PlanAction.boot_recovery = "boot-recovery"
action_name PlanAction.boot_installer = "boot-installer"
action_name PlanAction.boot_ephemeral = "boot-ephemeral"
action_name PlanAction.bootstrap_only = "bootstrap-only"

-- The tests `text not in {…}`, with the member that the text names.
unfoldable pub mode_of : String → Option BootMode
mode_of s =
    if s == "installer"
    then some BootMode.installer
    else if s == "recovery"
    then some BootMode.recovery
    else if s == "ephemeral"
    then some BootMode.ephemeral
    else if s == "bootstrap"
    then some BootMode.bootstrap
    else none

unfoldable pub role_of : String → Option BootEntryRole
role_of s =
    if s == "normal"
    then some BootEntryRole.normal
    else if s == "recovery"
    then some BootEntryRole.recovery
    else if s == "installer"
    then some BootEntryRole.installer
    else if s == "rollback"
    then some BootEntryRole.rollback
    else if s == "ephemeral"
    then some BootEntryRole.ephemeral
    else if s == "bootstrap"
    then some BootEntryRole.bootstrap
    else none

unfoldable pub purpose_of : String → Option TokenPurpose
purpose_of s =
    if s == "enroll"
    then some TokenPurpose.enroll
    else if s == "boot"
    then some TokenPurpose.boot
    else if s == "repair"
    then some TokenPurpose.repair
    else if s == "recovery"
    then some TokenPurpose.recovery
    else none

unfoldable pub status_of : String → Option TokenStatus
status_of s =
    if s == "issued"
    then some TokenStatus.issued
    else if s == "redeemed"
    then some TokenStatus.redeemed
    else if s == "expired"
    then some TokenStatus.expired
    else if s == "revoked"
    then some TokenStatus.revoked
    else none

-- Reading a name gives back the member.
pub mode_of-mode_name : (m : BootMode) → mode_of (mode_name m) ≡ some m
unfolding mode_of
mode_of-mode_name BootMode.installer = refl
mode_of-mode_name _ = refl

pub role_of-role_name : (r : BootEntryRole) → role_of (role_name r) ≡ some r
unfolding role_of
role_of-role_name BootEntryRole.normal = refl
role_of-role_name _ = refl

pub purpose_of-purpose_name : (p : TokenPurpose) → purpose_of (purpose_name p) ≡ some p
unfolding purpose_of
purpose_of-purpose_name TokenPurpose.enroll = refl
purpose_of-purpose_name _ = refl

pub status_of-status_name : (s : TokenStatus) → status_of (status_name s) ≡ some s
unfolding status_of
status_of-status_name TokenStatus.issued = refl
status_of-status_name _ = refl

-- A text that is read as a member is the member's name.
pub mode_of_sound : (s : String) {m : BootMode} → mode_of s ≡ some m → s ≡ mode_name m
unfolding mode_of
mode_of_sound s h =
    ground
      (arith, eq_iff s "installer", eq_iff s "recovery", eq_iff s "ephemeral", eq_iff s "bootstrap")

pub role_of_sound : (s : String) {r : BootEntryRole} → role_of s ≡ some r → s ≡ role_name r
unfolding role_of
role_of_sound s h = ground (
  arith,
  eq_iff s "normal",
  eq_iff s "recovery",
  eq_iff s "installer",
  eq_iff s "rollback",
  eq_iff s "ephemeral",
  eq_iff s "bootstrap",
)

pub purpose_of_sound : (s : String) {p : TokenPurpose} → purpose_of s ≡ some p → s ≡ purpose_name p
unfolding purpose_of
purpose_of_sound s h =
    ground (arith, eq_iff s "enroll", eq_iff s "boot", eq_iff s "repair", eq_iff s "recovery")

pub status_of_sound : (s : String) {t : TokenStatus} → status_of s ≡ some t → s ≡ status_name t
unfolding status_of
status_of_sound s h =
    ground (arith, eq_iff s "issued", eq_iff s "redeemed", eq_iff s "expired", eq_iff s "revoked")

-- The names are texts that `_require_string` accepts.
pub has_text-mode_name : (m : BootMode) → has_text (mode_name m) ≡ true
unfolding has_text
has_text-mode_name BootMode.installer = refl
has_text-mode_name _ = refl

pub has_text-role_name : (r : BootEntryRole) → has_text (role_name r) ≡ true
unfolding has_text
has_text-role_name BootEntryRole.normal = refl
has_text-role_name _ = refl

pub has_text-purpose_name : (p : TokenPurpose) → has_text (purpose_name p) ≡ true
unfolding has_text
has_text-purpose_name TokenPurpose.enroll = refl
has_text-purpose_name _ = refl

pub has_text-status_name : (s : TokenStatus) → has_text (status_name s) ≡ true
unfolding has_text
has_text-status_name TokenStatus.issued = refl
has_text-status_name _ = refl

-- Different modes have different names.
pub mode_name-injective : (m n : BootMode) → mode_name m ≡ mode_name n → m ≡ n
mode_name-injective m n h =
    some-injective m n (sym (mode_of-mode_name m) ∙ ap mode_of h ∙ mode_of-mode_name n)
