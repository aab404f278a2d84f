-- ===== src/Protocol/Plan.antt =====
-- `BootPlan` and `build_boot_plan` of protocol.py.
pub mod Contract
pub mod Laws
use Prim.Native.String.{◌++◌ as append}
use nlboot.Base.{
  ℕ, String, Bool, true, false, Option, none, some, List, [], ◌∷◌, ◌++◌, Result, ok, ◌>>=◌, ◌>>◌,
  if◌then◌else◌,
}
use nlboot.Json.{Value, null, bool, str, arr, obj, Fields, end, field, strings}
use nlboot.Protocol.Errors.{NlbootError}
use nlboot.Protocol.Modes.{
  BootMode, mode_name, PlanAction, boot_recovery, boot_installer, boot_ephemeral, bootstrap_only,
  action_name,
}
use nlboot.Protocol.Menu
use nlboot.Protocol.Menu.{BootMenu, default_entry}
use nlboot.Protocol.Manifest.{
  Shown, plain, shown, SignedBootManifest, validate_for_manifest as validate_menu_for_manifest,
}
use nlboot.Protocol.Token.{EnrollmentToken, validate_for_manifest}

pub record OfflineFallback : Type 0 where
  pub enabled : Bool
  pub strategy : String
  pub requires_signature_verification : Bool
  pub allows_unsigned_artifacts : Bool

pub record BootPlan : Type 0 where
  pub action : PlanAction
  pub manifest_id : String
  pub boot_release_set_id : String
  pub release_set_ref : String
  pub artifacts : List (String × Shown)
  pub authorized_by : String
  pub signature_algorithm : String
  pub crypto_profile : String
  pub policy_ref : String
  pub allowed_operations : List String
  pub proof_requirements : List String
  pub offline_fallback : OfflineFallback
  pub execute : Bool
  pub selected_entry_id : Option String
  pub boot_menu : Option BootMenu
  pub required_proofs : List String

pub policy_ref_for_mode : BootMode → String
policy_ref_for_mode mode =
    append "policy://sourceos/nlboot/" (append (mode_name mode) "/safe-plan-v1")

pub allowed_operations_for_mode : BootMode → List String
allowed_operations_for_mode BootMode.recovery =
    "present-menu" ∷ "verify-artifacts" ∷ "plan-recovery" ∷ "plan-rollback" ∷ []
allowed_operations_for_mode BootMode.installer =
    "present-menu" ∷ "verify-artifacts" ∷ "plan-install" ∷ []
allowed_operations_for_mode BootMode.ephemeral =
    "present-menu" ∷ "verify-artifacts" ∷ "plan-ephemeral-boot" ∷ []
allowed_operations_for_mode BootMode.bootstrap =
    "present-menu" ∷ "verify-artifacts" ∷ "plan-bootstrap" ∷ []

abbrev pub common_proofs : List String
common_proofs =
    "verified_manifest_signature" ∷ "validated_one_time_token" ∷ "artifact_ref_manifest"
    ∷ "boot_plan_record" ∷ []

pub proof_requirements_for_mode : BootMode → List String
proof_requirements_for_mode BootMode.recovery =
    common_proofs ++ "device_claim_record" ∷ "post_action_fingerprint" ∷ []
proof_requirements_for_mode BootMode.installer =
    common_proofs ++ "device_claim_record" ∷ "post_action_fingerprint" ∷ []
proof_requirements_for_mode _ = common_proofs ++ "session_fingerprint" ∷ []

-- `mode in {"recovery", "ephemeral"}`
abbrev pub has_fallback : BootMode → Bool
has_fallback BootMode.recovery = true
has_fallback BootMode.ephemeral = true
has_fallback _ = false

pub offline_fallback_for_mode : BootMode → OfflineFallback
offline_fallback_for_mode mode = record {
  enabled = has_fallback mode;
  strategy = if has_fallback mode then "last-known-good-signed-boot-release-set" else "none";
  requires_signature_verification = true;
  allows_unsigned_artifacts = false;
}

-- `action_by_mode`
pub action_for_mode : BootMode → PlanAction
action_for_mode BootMode.recovery = boot_recovery
action_for_mode BootMode.installer = boot_installer
action_for_mode BootMode.ephemeral = boot_ephemeral
action_for_mode BootMode.bootstrap = bootstrap_only

abbrev pub default_required_proofs : List String
default_required_proofs =
    "manifest-signature-verified" ∷ "enrollment-token-bound" ∷ "boot-menu-bound-when-present"
    ∷ "execute-false" ∷ []

-- The block under `if manifest.boot_menu is not None`.
unfoldable pub select_entry :
    Option BootMenu → SignedBootManifest → Result NlbootError (Option String)
select_entry none manifest = ok none
select_entry (some menu) manifest = do
  validate_menu_for_manifest menu manifest
  entry ← default_entry menu
  ok (some entry.entry_id)

-- the `BootPlan` that `build_boot_plan` returns
pub plan_of : SignedBootManifest → EnrollmentToken → Option String → BootPlan
unfolding policy_ref_for_mode allowed_operations_for_mode proof_requirements_for_mode
    offline_fallback_for_mode action_for_mode
plan_of manifest token selected_entry_id = record {
  action = action_for_mode manifest.boot_mode;
  manifest_id = manifest.manifest_id;
  boot_release_set_id = manifest.boot_release_set_id;
  release_set_ref = manifest.base_release_set_ref;
  artifacts = manifest.artifacts;
  authorized_by = token.token_id;
  signature_algorithm = manifest.signature_algorithm;
  crypto_profile = manifest.crypto_profile;
  policy_ref = policy_ref_for_mode manifest.boot_mode;
  allowed_operations = allowed_operations_for_mode manifest.boot_mode;
  proof_requirements = proof_requirements_for_mode manifest.boot_mode;
  offline_fallback = offline_fallback_for_mode manifest.boot_mode;
  execute = false;
  selected_entry_id = selected_entry_id;
  boot_menu = manifest.boot_menu;
  required_proofs = default_required_proofs;
}

unfoldable pub build_boot_plan :
    SignedBootManifest → EnrollmentToken → Option ℕ → ℕ → Result NlbootError BootPlan
unfolding select_entry plan_of
build_boot_plan manifest token now clock = do
  validate_for_manifest token manifest now clock
  selected_entry_id ← select_entry manifest.boot_menu manifest
  ok (plan_of manifest token selected_entry_id)

abbrev pub text_or_none : Option String → Value
text_or_none none = null
text_or_none (some s) = str s

abbrev pub menu_or_none : Option BootMenu → Value
menu_or_none none = null
menu_or_none (some menu) = obj (Menu.to_dict menu)

-- over `show`, Python's `str` on values that are no texts
module _ (show : Value → String) where
  abbrev pub shown_text : Shown → String
  shown_text (plain s) = s
  shown_text (shown v) = show v

  abbrev pub artifacts_to_dict : List (String × Shown) → Fields
  artifacts_to_dict [] = end
  artifacts_to_dict ((k, v) ∷ rest) = field k (str (shown_text v)) (artifacts_to_dict rest)

  -- `BootPlan.to_dict`
  unfoldable pub to_dict : BootPlan → Fields
  to_dict plan = field "action" (str (action_name plan.action)) (
      field "manifest_id" (str plan.manifest_id) (
        field "boot_release_set_id" (str plan.boot_release_set_id) (
          field "release_set_ref" (str plan.release_set_ref) (
            field "artifacts" (obj (artifacts_to_dict plan.artifacts)) (
              field "authorized_by" (str plan.authorized_by) (
                field "signature_algorithm" (str plan.signature_algorithm) (
                  field "crypto_profile" (str plan.crypto_profile) (
                    field "policy_ref" (str plan.policy_ref) (
                      field "allowed_operations" (arr (strings plan.allowed_operations)) (
                        field "proof_requirements" (arr (strings plan.proof_requirements)) (
                          field "offline_fallback"
                            (obj (
                              field "enabled" (bool plan.offline_fallback.enabled) (
                                field "strategy" (str plan.offline_fallback.strategy) (
                                  field "requires_signature_verification"
                                    (bool plan.offline_fallback.requires_signature_verification)
                                    (field "allows_unsigned_artifacts"
                                      (bool plan.offline_fallback.allows_unsigned_artifacts)
                                      end)))))
                            (field "execute" (bool plan.execute) (
                              field "selected_entry_id" (text_or_none plan.selected_entry_id) (
                                field "boot_menu" (menu_or_none plan.boot_menu) (
                                  field "required_proofs" (arr (strings plan.required_proofs))
                                    end)))))))))))))))
