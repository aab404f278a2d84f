-- ===== src/Protocol/Plan/Contract.antt =====
-- `BootPlan` of protocol.py: what a plan says of a manifest and a token, field by field.
use nlboot.Base.{String, ◌≡◌, refl, sym, ◌↔◌, true, false, Option, none, some, [], ◌∷◌}
use mathlib.Core.Path.{subst}
use nlboot.Protocol.Modes.{BootMode, boot_recovery, boot_installer, boot_ephemeral, bootstrap_only}
use nlboot.Protocol.Menu.{BootMenu}
use nlboot.Protocol.Manifest.{SignedBootManifest}
use nlboot.Protocol.Token.{EnrollmentToken}
use nlboot.Protocol.Plan.{
  BootPlan, OfflineFallback, plan_of, policy_ref_for_mode, action_for_mode,
  allowed_operations_for_mode, proof_requirements_for_mode, offline_fallback_for_mode,
}

-- The selected entry: none without a menu, else the menu's default entry.
abbrev pub selection : Option BootMenu → Option String
selection none = none
selection (some menu) = some menu.default_entry_id

-- A fallback to the last release set that is known to be good, or none; both ask for signatures.
abbrev pub last_known_good : OfflineFallback
last_known_good = record {
  enabled = true;
  strategy = "last-known-good-signed-boot-release-set";
  requires_signature_verification = true;
  allows_unsigned_artifacts = false;
}

abbrev pub no_fallback : OfflineFallback
no_fallback = record {
  enabled = false;
  strategy = "none";
  requires_signature_verification = true;
  allows_unsigned_artifacts = false;
}

-- What the plan says of its mode: what it does, by which policy, with which operations, and
-- whether it falls back while offline.
abbrev pub Follows : BootMode → BootPlan → Type 0
Follows BootMode.recovery p =
    (p.action ≡ boot_recovery)
    × (p.policy_ref ≡ "policy://sourceos/nlboot/recovery/safe-plan-v1")
    × (p.allowed_operations
        ≡ "present-menu" ∷ "verify-artifacts" ∷ "plan-recovery" ∷ "plan-rollback" ∷ [])
    × (p.offline_fallback ≡ last_known_good)
Follows BootMode.installer p =
    (p.action ≡ boot_installer)
    × (p.policy_ref ≡ "policy://sourceos/nlboot/installer/safe-plan-v1")
    × (p.allowed_operations ≡ "present-menu" ∷ "verify-artifacts" ∷ "plan-install" ∷ [])
    × (p.offline_fallback ≡ no_fallback)
Follows BootMode.ephemeral p =
    (p.action ≡ boot_ephemeral)
    × (p.policy_ref ≡ "policy://sourceos/nlboot/ephemeral/safe-plan-v1")
    × (p.allowed_operations ≡ "present-menu" ∷ "verify-artifacts" ∷ "plan-ephemeral-boot" ∷ [])
    × (p.offline_fallback ≡ last_known_good)
Follows BootMode.bootstrap p =
    (p.action ≡ bootstrap_only)
    × (p.policy_ref ≡ "policy://sourceos/nlboot/bootstrap/safe-plan-v1")
    × (p.allowed_operations ≡ "present-menu" ∷ "verify-artifacts" ∷ "plan-bootstrap" ∷ [])
    × (p.offline_fallback ≡ no_fallback)

-- The proofs that the plan asks for: a mode that writes to the device asks for its claim and for a
-- fingerprint afterwards, and another mode for one of the session.
abbrev pub Proves : BootMode → BootPlan → Type 0
Proves BootMode.ephemeral p =
    p.proof_requirements
    ≡ "verified_manifest_signature" ∷ "validated_one_time_token" ∷ "artifact_ref_manifest"
      ∷ "boot_plan_record" ∷ "session_fingerprint" ∷ []
Proves BootMode.bootstrap p =
    p.proof_requirements
    ≡ "verified_manifest_signature" ∷ "validated_one_time_token" ∷ "artifact_ref_manifest"
      ∷ "boot_plan_record" ∷ "session_fingerprint" ∷ []
Proves _ p =
    p.proof_requirements
    ≡ "verified_manifest_signature" ∷ "validated_one_time_token" ∷ "artifact_ref_manifest"
      ∷ "boot_plan_record" ∷ "device_claim_record" ∷ "post_action_fingerprint" ∷ []

-- The plan is the one of the manifest and the token.
pub record IsPlan (m : SignedBootManifest) (t : EnrollmentToken) (p : BootPlan) : Type 0 where
  pub follows : Follows m.boot_mode p
  pub proves : Proves m.boot_mode p
  pub manifest_id : p.manifest_id ≡ m.manifest_id
  pub boot_release_set_id : p.boot_release_set_id ≡ m.boot_release_set_id
  pub release_set_ref : p.release_set_ref ≡ m.base_release_set_ref
  pub artifacts : p.artifacts ≡ m.artifacts
  pub authorized_by : p.authorized_by ≡ t.token_id
  pub signature_algorithm : p.signature_algorithm ≡ m.signature_algorithm
  pub crypto_profile : p.crypto_profile ≡ m.crypto_profile
  pub execute : p.execute ≡ false
  pub selected_entry_id : p.selected_entry_id ≡ selection m.boot_menu
  pub boot_menu : p.boot_menu ≡ m.boot_menu
  pub required_proofs :
      p.required_proofs
      ≡ "manifest-signature-verified" ∷ "enrollment-token-bound" ∷ "boot-menu-bound-when-present"
        ∷ "execute-false" ∷ []

-- What the tables of the code say of a mode.
abbrev Tables : BootMode → BootPlan → Type 0
Tables mode p =
    (p.action ≡ action_for_mode mode)
    × (p.policy_ref ≡ policy_ref_for_mode mode)
    × (p.allowed_operations ≡ allowed_operations_for_mode mode)
    × (p.offline_fallback ≡ offline_fallback_for_mode mode)

Tables-of_Follows : (mode : BootMode) (p : BootPlan) → Follows mode p ↔ Tables mode p
unfolding action_for_mode policy_ref_for_mode allowed_operations_for_mode offline_fallback_for_mode
Tables-of_Follows BootMode.recovery p = (λ h. h, λ h. h)
Tables-of_Follows BootMode.installer p = (λ h. h, λ h. h)
Tables-of_Follows BootMode.ephemeral p = (λ h. h, λ h. h)
Tables-of_Follows BootMode.bootstrap p = (λ h. h, λ h. h)

proofs_of_Proves :
    (mode : BootMode) (p : BootPlan)
    → Proves mode p ↔ (p.proof_requirements ≡ proof_requirements_for_mode mode)
unfolding proof_requirements_for_mode
proofs_of_Proves BootMode.recovery p = (λ h. h, λ h. h)
proofs_of_Proves BootMode.installer p = (λ h. h, λ h. h)
proofs_of_Proves BootMode.ephemeral p = (λ h. h, λ h. h)
proofs_of_Proves BootMode.bootstrap p = (λ h. h, λ h. h)

module _ (m : SignedBootManifest) (t : EnrollmentToken) where
  pub plan_of-IsPlan : IsPlan m t (plan_of m t (selection m.boot_menu))
  unfolding plan_of
  plan_of-IsPlan = record {
    follows = (Tables-of_Follows m.boot_mode _).1 (refl, refl, refl, refl);
    proves = (proofs_of_Proves m.boot_mode _).1 refl;
    manifest_id = refl;
    boot_release_set_id = refl;
    release_set_ref = refl;
    artifacts = refl;
    authorized_by = refl;
    signature_algorithm = refl;
    crypto_profile = refl;
    execute = refl;
    selected_entry_id = refl;
    boot_menu = refl;
    required_proofs = refl;
  }

  plan_of_fields : (p : BootPlan) → IsPlan m t p → p ≡ plan_of m t (selection m.boot_menu)
  unfolding plan_of
  plan_of_fields p h =
      let (action, policy, operations, fallback) = (Tables-of_Follows m.boot_mode p).0 h.follows in
      λ i. record {
        action = action i;
        manifest_id = h.manifest_id i;
        boot_release_set_id = h.boot_release_set_id i;
        release_set_ref = h.release_set_ref i;
        artifacts = h.artifacts i;
        authorized_by = h.authorized_by i;
        signature_algorithm = h.signature_algorithm i;
        crypto_profile = h.crypto_profile i;
        policy_ref = policy i;
        allowed_operations = operations i;
        proof_requirements = (proofs_of_Proves m.boot_mode p).0 h.proves i;
        offline_fallback = fallback i;
        execute = h.execute i;
        selected_entry_id = h.selected_entry_id i;
        boot_menu = h.boot_menu i;
        required_proofs = h.required_proofs i;
      }

  -- The plan of the code is the only one that says this.
  pub plan_of_iff : (p : BootPlan) → (p ≡ plan_of m t (selection m.boot_menu)) ↔ IsPlan m t p
  plan_of_iff p = (λ e. subst (IsPlan m t) (sym e) plan_of-IsPlan, plan_of_fields p)
