-- ===== src/Protocol/Token/Validity.antt =====
-- `EnrollmentToken.validate_for_manifest` of protocol.py: what makes a token authorize a manifest.
use nlboot.Base.{ℕ, ◌<◌, ◌≤◌, String, ◌≡◌, refl, ◌↔◌, true, Option, ok, arith, lt→ltb, eq_iff}
use nlboot.Json.{Value, str, is_text}
use nlboot.Time.{now_or}
use nlboot.Protocol.Modes.{BootMode, TokenPurpose, TokenStatus, issued}
use nlboot.Protocol.Manifest.{SignedBootManifest}
use nlboot.Protocol.Token.{EnrollmentToken, is_issued, purpose_fits, validate_for_manifest}

-- The purposes that may boot in a mode, as rules.
pub data MayBoot : TokenPurpose → BootMode → Type 0 where
  recover : MayBoot TokenPurpose.recovery BootMode.recovery
  repair : MayBoot TokenPurpose.repair BootMode.recovery
  enroll_install : MayBoot TokenPurpose.enroll BootMode.installer
  boot_install : MayBoot TokenPurpose.boot BootMode.installer
  boot_ephemeral : MayBoot TokenPurpose.boot BootMode.ephemeral
  enroll_bootstrap : MayBoot TokenPurpose.enroll BootMode.bootstrap
  boot_bootstrap : MayBoot TokenPurpose.boot BootMode.bootstrap

-- The token is issued, unexpired and for one use, and bound to the manifest's release sets and mode.
pub record Authorizes (t : EnrollmentToken) (m : SignedBootManifest) (current : ℕ) : Type 0 where
  pub status : t.status ≡ issued
  pub unexpired : current < t.expires_at
  pub one_time : t.one_time_use ≡ true
  pub boot_release : t.boot_release_set_ref ≡ str m.boot_release_set_id
  pub base_release : t.release_set_ref ≡ str m.base_release_set_ref
  pub purpose : MayBoot t.purpose m.boot_mode

is_text_iff : (v : Value) (s : String) → (is_text v s ≡ true) ↔ (v ≡ str s)
is_text_iff (str t) s = ground (arith, eq_iff t s)
is_text_iff _ s = (λ h. cc, λ e. cc)

purpose_fits_sound : (m : BootMode) (p : TokenPurpose) → purpose_fits m p ≡ true → MayBoot p m
purpose_fits_sound BootMode.recovery TokenPurpose.recovery h = recover
purpose_fits_sound BootMode.recovery TokenPurpose.repair h = repair
purpose_fits_sound BootMode.installer TokenPurpose.enroll h = enroll_install
purpose_fits_sound BootMode.installer TokenPurpose.boot h = boot_install
purpose_fits_sound BootMode.ephemeral TokenPurpose.boot h = boot_ephemeral
purpose_fits_sound BootMode.bootstrap TokenPurpose.enroll h = enroll_bootstrap
purpose_fits_sound BootMode.bootstrap TokenPurpose.boot h = boot_bootstrap
purpose_fits_sound _ _ h = cc

purpose_fits_complete : {m : BootMode} {p : TokenPurpose} → MayBoot p m → purpose_fits m p ≡ true
purpose_fits_complete recover = refl
purpose_fits_complete repair = refl
purpose_fits_complete enroll_install = refl
purpose_fits_complete boot_install = refl
purpose_fits_complete boot_ephemeral = refl
purpose_fits_complete enroll_bootstrap = refl
purpose_fits_complete boot_bootstrap = refl

is_issued_iff : (s : TokenStatus) → (is_issued s ≡ true) ↔ (s ≡ issued)
is_issued_iff s = ground arith

module _ (t : EnrollmentToken) (m : SignedBootManifest) (now : Option ℕ) (clock : ℕ) where
  validate_sound : validate_for_manifest t m now clock ≡ ok tt → Authorizes t m (now_or now clock)
  unfolding validate_for_manifest
  validate_sound h = record {
    status = ground arith;
    unexpired = ground arith;
    one_time = ground arith;
    boot_release = (is_text_iff _ _).0 (ground arith);
    base_release = (is_text_iff _ _).0 (ground arith);
    purpose = purpose_fits_sound m.boot_mode t.purpose (ground arith);
  }

  validate_complete :
      Authorizes t m (now_or now clock) → validate_for_manifest t m now clock ≡ ok tt
  unfolding validate_for_manifest
  validate_complete a = rw (
    a.status,
    lt→ltb _ _ a.unexpired,
    a.one_time,
    (is_text_iff _ _).1 a.boot_release,
    (is_text_iff _ _).1 a.base_release,
    purpose_fits_complete a.purpose,
  )

  -- `EnrollmentToken.validate_for_manifest` passes exactly if the token is issued, unexpired and
  -- for one use, both its release references are the manifest's, and its purpose may boot in the
  -- manifest's mode.
  pub validate_for_manifest_iff :
      (validate_for_manifest t m now clock ≡ ok tt) ↔ Authorizes t m (now_or now clock)
  validate_for_manifest_iff = (validate_sound, validate_complete)

-- A token that authorizes a manifest has done so at every earlier time: `issued_at` is not read.
pub Authorizes-earlier :
    {t : EnrollmentToken} {m : SignedBootManifest} {now earlier : ℕ}
    → earlier ≤ now
    → Authorizes t m now
    → Authorizes t m earlier
Authorizes-earlier h a = record {
  status = a.status;
  unexpired = omega arith;
  one_time = a.one_time;
  boot_release = a.boot_release;
  base_release = a.base_release;
  purpose = a.purpose;
}
