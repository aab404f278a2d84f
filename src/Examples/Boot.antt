-- ===== src/Examples/Boot.antt =====
-- Menus, manifests, tokens and plans.
use nlboot.Base.{◌≡◌, refl, true, false, ok, none, some, [], ◌∷◌, arith}
use nlboot.Text.{has_text}
use nlboot.Json.{Fields, field, end, str, obj, arr, bool, null, cons, nil}
use nlboot.Time.{last_instant, now_or}
use nlboot.Protocol.Modes.{BootMode, BootEntryRole, TokenPurpose, TokenStatus}
use nlboot.Protocol.Entry.{BootMenuEntry}
use nlboot.Protocol.Entry as Entry
use nlboot.Protocol.Entry.Laws as EntryLaws
use nlboot.Protocol.Menu.{BootMenu, default_entry}
use nlboot.Protocol.Menu as Menu
use nlboot.Protocol.Menu.Laws as MenuLaws
use nlboot.Protocol.Manifest.{SignedBootManifest, plain, validate_menu}
use nlboot.Protocol.Manifest as Manifest
use nlboot.Protocol.Manifest.Laws as ManifestLaws
use nlboot.Protocol.Manifest.Matching.{MenuMatches, validate_menu_iff}
use nlboot.Protocol.Token.{EnrollmentToken, validate_for_manifest}
use nlboot.Protocol.Token as Token
use nlboot.Protocol.Token.Laws as TokenLaws
use nlboot.Protocol.Token.Validity.{Authorizes, enroll_install, validate_for_manifest_iff}
use nlboot.Protocol.Plan.{BootPlan, plan_of, build_boot_plan}
use nlboot.Protocol.Plan.Contract.{IsPlan}
use nlboot.Protocol.Plan.Laws.{
  IsSafe, build_boot_plan_iff, build_boot_plan_of_read, build_boot_plan-IsSafe,
}
use nlboot.Enrollment.{EnrollmentCodeBinding, issue_enrollment_token_payload}
use nlboot.Enrollment.Bridge.{token_of, from_dict-payload, payload_builds_plan}
use nlboot.Examples.Fixtures.{unary_iso}
use nlboot.Examples.Codes.{binding}

abbrev pub entry : BootMenuEntry
entry = record {
  entry_id = "install";
  label = "Install";
  boot_release_set_id = "urn:boot";
  release_set_ref = "urn:base";
  boot_mode = BootMode.installer;
  role = BootEntryRole.recovery;
  default = true;
  rollback_eligible = false;
}

abbrev pub menu : BootMenu
menu = record { menu_id = "m"; default_entry_id = "install"; entries = entry ∷ [] }

abbrev entry_fields : Fields
entry_fields = field "entry_id" (str "install") (
    field "label" (str "Install") (
      field "boot_release_set_id" (str "urn:boot") (
        field "release_set_ref" (str "urn:base") (
          field "boot_mode" (str "installer")
            (field "role" (str "recovery") (field "default" (bool true) end))))))

abbrev menu_fields : Fields
menu_fields = field "menu_id" (str "m") (
    field "default_entry_id" (str "install")
      (field "entries" (arr (cons (obj entry_fields) nil)) end))

abbrev artifact_fields : Fields
artifact_fields =
    field "kernel_ref" (str "urn:k")
      (field "initrd_ref" (str "urn:i") (field "rootfs_ref" (str "urn:r") end))

abbrev pub manifest_fields : Fields
manifest_fields = field "manifest_id" (str "urn:m") (
    field "boot_release_set_id" (str "urn:boot") (
      field "base_release_set_ref" (str "urn:base") (
        field "boot_mode" (str "installer") (
          field "artifacts" (obj artifact_fields) (
            field "signature_ref" (str "urn:srcos:signature:1") (
              field "signer_ref" (str "k1") (
                field "signature_algorithm" (str "rsa-pss-sha256") (
                  field "crypto_profile" (str "fips-140-3-compatible") (
                    field "signature_hex" (str "07")
                      (field "boot_menu" (obj menu_fields) end))))))))))

abbrev pub manifest : SignedBootManifest
manifest = record {
  manifest_id = "urn:m";
  boot_release_set_id = "urn:boot";
  base_release_set_ref = "urn:base";
  boot_mode = BootMode.installer;
  artifacts =
      ("kernel_ref", plain "urn:k")
      ∷ ("initrd_ref", plain "urn:i")
      ∷ ("rootfs_ref", plain "urn:r")
      ∷ [];
  signature_ref = "urn:srcos:signature:1";
  signer_ref = "k1";
  signature_algorithm = "rsa-pss-sha256";
  crypto_profile = "fips-140-3-compatible";
  signature_hex = "07";
  boot_menu = some menu;
}

abbrev pub token_fields : Fields
token_fields = field "token_id" (str "t1") (
    field "purpose" (str "enroll") (
      field "audience" (obj (field "subject_kind" (str "device") (field "subject_id" null end))) (
        field "release_set_ref" (str "urn:base") (
          field "boot_release_set_ref" (str "urn:boot") (
            field "one_time_use" (bool true) (
              field "issued_at" (str "11")
                (field "expires_at" (str "1111111") (field "status" (str "issued") end))))))))

abbrev pub token : EnrollmentToken
token = record {
  token_id = "t1";
  purpose = TokenPurpose.enroll;
  subject_kind = "device";
  subject_id = none;
  release_set_ref = str "urn:base";
  boot_release_set_ref = str "urn:boot";
  one_time_use = true;
  issued_at = 1;
  expires_at = 6;
  status = TokenStatus.issued;
}

entry_reads : Entry.from_dict entry_fields ≡ ok entry
unfolding Entry.from_dict nlboot.Protocol.Checks.require_string has_text
    nlboot.Protocol.Modes.mode_of nlboot.Protocol.Modes.role_of
entry_reads = refl

menu_reads : Menu.from_dict menu_fields ≡ ok menu
unfolding Menu.from_dict nlboot.Protocol.Checks.require_string has_text Entry.from_dict
    nlboot.Protocol.Modes.mode_of nlboot.Protocol.Modes.role_of
menu_reads = refl

pub manifest_reads : Manifest.from_dict manifest_fields ≡ ok manifest
unfolding Manifest.from_dict nlboot.Protocol.Checks.require_string has_text
    nlboot.Protocol.Modes.mode_of Menu.from_dict Entry.from_dict nlboot.Protocol.Modes.role_of
    Manifest.validate_for_manifest default_entry
manifest_reads = refl

token_reads : Token.from_dict unary_iso token_fields ≡ ok token
unfolding Token.from_dict nlboot.Protocol.Checks.require_string has_text
    nlboot.Protocol.Modes.purpose_of Token.parse_time nlboot.Time.zulu_to_offset
    nlboot.Protocol.Modes.status_of
token_reads = refl

entry_from_dict_iff_test : EntryLaws.Encodes entry_fields entry
entry_from_dict_iff_test = (EntryLaws.entry_from_dict_iff entry_fields entry).0 entry_reads

menu_from_dict_iff_example : MenuLaws.Encodes menu_fields menu
menu_from_dict_iff_example = (MenuLaws.menu_from_dict_iff menu_fields menu).0 menu_reads

manifest_from_dict_iff_example : ManifestLaws.Encodes manifest_fields manifest
manifest_from_dict_iff_example =
    (ManifestLaws.manifest_from_dict_iff manifest_fields manifest).0 manifest_reads

token_from_dict_iff_example : TokenLaws.Encodes unary_iso token_fields token
token_from_dict_iff_example =
    (TokenLaws.token_from_dict_iff unary_iso token_fields token).0 token_reads

entry-IsValid : EntryLaws.IsValid entry
entry-IsValid = ((EntryLaws.entry_from_dict_iff entry_fields entry).0 entry_reads).valid

from_dict-to_dict_test : Entry.from_dict (Entry.to_dict entry) ≡ ok entry
from_dict-to_dict_test = EntryLaws.entry_from_dict-to_dict entry entry-IsValid

menu-IsWellFormed : MenuLaws.IsWellFormed menu
menu-IsWellFormed = ((MenuLaws.menu_from_dict_iff menu_fields menu).0 menu_reads).well_formed

menu_from_dict-to_dict_example : Menu.from_dict (Menu.to_dict menu) ≡ ok menu
menu_from_dict-to_dict_example =
    MenuLaws.menu_from_dict-to_dict menu menu-IsWellFormed (entry-IsValid, tt)

default_entry_total_test :
    (e : BootMenuEntry) × (default_entry menu ≡ ok e) × MenuLaws.IsDefault menu e
default_entry_total_test = MenuLaws.default_entry_total menu menu-IsWellFormed

pub menu_passes : validate_menu (some menu) manifest ≡ ok tt
unfolding Manifest.validate_for_manifest default_entry
menu_passes = refl

validate_menu_iff_test : MenuMatches (some menu) manifest
validate_menu_iff_test = (validate_menu_iff (some menu) manifest).0 menu_passes

token_passes : validate_for_manifest token manifest (some 5) 0 ≡ ok tt
unfolding validate_for_manifest
token_passes = refl

validate_for_manifest_iff_example : Authorizes token manifest 5
validate_for_manifest_iff_example =
    (validate_for_manifest_iff token manifest (some 5) 0).0 token_passes

abbrev plan : BootPlan
plan = plan_of manifest token (some "install")

plan_built : build_boot_plan manifest token (some 5) 0 ≡ ok plan
unfolding build_boot_plan validate_for_manifest Manifest.validate_for_manifest default_entry
plan_built = refl

build_boot_plan_iff_example :
    Authorizes token manifest 5 × MenuMatches (some menu) manifest × IsPlan manifest token plan
build_boot_plan_iff_example = (build_boot_plan_iff manifest token (some 5) 0 plan).0 plan_built

build_boot_plan-IsSafe_example : IsSafe manifest token plan
build_boot_plan-IsSafe_example = build_boot_plan-IsSafe manifest token (some 5) 0 plan plan_built

build_boot_plan_of_read_test : build_boot_plan manifest token (some 5) 0 ≡ ok plan
build_boot_plan_of_read_test =
    let (authorized, _, planned) =
      (build_boot_plan_iff manifest token (some 5) 0 plan).0 plan_built in
    build_boot_plan_of_read manifest token (some 5) 0 manifest_fields plan manifest_reads authorized
      planned

-- The binding of an enrollment code, with an early expiry.
abbrev early : EnrollmentCodeBinding
early = record binding { expires_at = 9 }

from_dict-payload_test :
    Token.from_dict unary_iso (issue_enrollment_token_payload unary_iso early "t2" "device")
    ≡ ok (token_of early "t2" "device")
unfolding has_text
from_dict-payload_test =
    from_dict-payload unary_iso early "t2" "device" refl refl (omega arith) (omega arith)

payload_builds_plan_test :
    build_boot_plan manifest (token_of early "t2" "device") (some 8) 0
    ≡ ok (plan_of manifest (token_of early "t2" "device") (some "install"))
payload_builds_plan_test =
    payload_builds_plan unary_iso early "t2" "device" manifest (some 8) 0 refl refl enroll_install
      ((validate_menu_iff (some menu) manifest).0 menu_passes) (omega arith)
