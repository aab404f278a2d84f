-- ===== src/Protocol/Manifest.antt =====
-- `SignedBootManifest` of protocol.py, and the checks of a menu against a manifest.
pub mod Matching
pub mod Laws
use text.Mathlib.Text.{starts_with}
use nlboot.Base.{
  String, Bool, false, ◌&&◌, Option, none, some, List, [], ◌∷◌, ◌==◌, Result, ok, err, ◌>>=◌, ◌>>◌,
  guard, or_raise, if◌then◌else◌,
}
use nlboot.Text.{non_empty}
use nlboot.Json.{Value, null, str, obj, Fields, end, field, get, object_of}
use nlboot.Protocol.Errors.{
  NlbootError, wrong_algorithm, wrong_profile, unsupported_mode, artifacts_not_object,
  missing_artifacts, bad_signature_ref, menu_not_object, default_not_for_manifest,
}
use nlboot.Protocol.Modes.{BootMode, mode_name, mode_of}
use nlboot.Protocol.Checks.{require_string}
use nlboot.Protocol.Entry.{BootMenuEntry}
use nlboot.Protocol.Menu
use nlboot.Protocol.Menu.{BootMenu, default_entry}

abbrev pub fips_ready_algorithm : String
fips_ready_algorithm = "rsa-pss-sha256"

abbrev pub fips_ready_profile : String
fips_ready_profile = "fips-140-3-compatible"

-- `str(v)`: a text is itself; of any other value the text is not computed.
pub data Shown : Type 0 where
  plain : String → Shown
  shown : Value → Shown

abbrev pub to_shown : Value → Shown
to_shown (str s) = plain s
to_shown v = shown v

pub record SignedBootManifest : Type 0 where
  pub manifest_id : String
  pub boot_release_set_id : String
  pub base_release_set_ref : String
  pub boot_mode : BootMode
  pub artifacts : List (String × Shown)
  pub signature_ref : String
  pub signer_ref : String
  pub signature_algorithm : String
  pub crypto_profile : String
  pub signature_hex : String
  pub boot_menu : Option BootMenu

-- `{k: str(v) for k, v in artifacts.items()}`
abbrev pub shown_items : Fields → List (String × Shown)
shown_items end = []
shown_items (field k v rest) = (k, to_shown v) ∷ shown_items rest

-- `isinstance(artifacts.get(k), str)` and it is not empty
abbrev pub is_filled : Value → Bool
is_filled (str s) = non_empty s
is_filled _ = false

abbrev pub missing_of : List String → Fields → List String
missing_of [] artifacts = []
missing_of (k ∷ ks) artifacts =
    let rest = missing_of ks artifacts in if is_filled (get artifacts k) then rest else k ∷ rest

-- `sorted(…)` of the required names that are missing
abbrev pub missing : Fields → List String
missing = missing_of ("initrd_ref" ∷ "kernel_ref" ∷ "rootfs_ref" ∷ [])

abbrev pub check_missing : List String → Result NlbootError (Unit {0})
check_missing [] = ok tt
check_missing (k ∷ ks) = err (missing_artifacts (k ∷ ks))

-- `BootMenuEntry.matches_manifest`
pub matches_manifest : BootMenuEntry → SignedBootManifest → Bool
matches_manifest e m =
    e.boot_release_set_id == m.boot_release_set_id
    && e.release_set_ref == m.base_release_set_ref
    && mode_name e.boot_mode == mode_name m.boot_mode

-- `BootMenu.validate_for_manifest`
unfoldable pub validate_for_manifest : BootMenu → SignedBootManifest → Result NlbootError (Unit {0})
unfolding matches_manifest
validate_for_manifest menu manifest = do
  default ← default_entry menu
  guard (matches_manifest default manifest) default_not_for_manifest

-- `if boot_menu is not None: boot_menu.validate_for_manifest(manifest)`
abbrev pub validate_menu : Option BootMenu → SignedBootManifest → Result NlbootError (Unit {0})
validate_menu none manifest = ok tt
validate_menu (some menu) manifest = validate_for_manifest menu manifest

unfoldable pub read_menu : Value → Result NlbootError (Option BootMenu)
read_menu null = ok none
read_menu (obj fields) = do menu ← Menu.from_dict fields; ok (some menu)
read_menu _ = err menu_not_object

unfoldable pub from_dict : Fields → Result NlbootError SignedBootManifest
unfolding read_menu
from_dict fields = do
  manifest_id ← require_string fields "manifest_id"
  boot_release_set_id ← require_string fields "boot_release_set_id"
  base_release_set_ref ← require_string fields "base_release_set_ref"
  signature_ref ← require_string fields "signature_ref"
  signer_ref ← require_string fields "signer_ref"
  signature_algorithm ← require_string fields "signature_algorithm"
  crypto_profile ← require_string fields "crypto_profile"
  signature_hex ← require_string fields "signature_hex"
  guard (signature_algorithm == fips_ready_algorithm) wrong_algorithm
  guard (crypto_profile == fips_ready_profile) wrong_profile
  mode_text ← require_string fields "boot_mode"
  boot_mode ← or_raise (mode_of mode_text) (unsupported_mode mode_text)
  artifacts ← or_raise (object_of (get fields "artifacts")) artifacts_not_object
  check_missing (missing artifacts)
  guard (starts_with signature_ref "urn:srcos:signature:") bad_signature_ref
  boot_menu ← read_menu (get fields "boot_menu")
  let manifest : SignedBootManifest = record {
    manifest_id = manifest_id;
    boot_release_set_id = boot_release_set_id;
    base_release_set_ref = base_release_set_ref;
    boot_mode = boot_mode;
    artifacts = shown_items artifacts;
    signature_ref = signature_ref;
    signer_ref = signer_ref;
    signature_algorithm = signature_algorithm;
    crypto_profile = crypto_profile;
    signature_hex = signature_hex;
    boot_menu = boot_menu;
  }
  validate_menu boot_menu manifest
  ok manifest
