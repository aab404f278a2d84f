-- ===== src/Protocol/Manifest/Laws.antt =====
-- `SignedBootManifest.from_dict` of protocol.py: the documents of manifests.
use text.Mathlib.Text.{starts_with}
use nlboot.Base.{
  String, ◌≡◌, refl, ap, ◌∙◌, ◌↔◌, true, some, ◌==◌, eq_iff, ok, arith, Yields, Yields-bind,
  Yields-or_raise, Yields-guard, Yields-ok, bind_ok, or_raise_ok, guard_ok,
}
use nlboot.Text.{non_empty}
use nlboot.Json.{Value, str, obj, Fields, get, object_of}
use nlboot.Protocol.Modes.{mode_name, mode_of, mode_of-mode_name, mode_of_sound, has_text-mode_name}
use nlboot.Protocol.Checks.{
  TextAt, require_string, text_of_require_string, require_string_of_TextAt,
}
use nlboot.Protocol.Manifest.{
  SignedBootManifest, shown_items, is_filled, missing, check_missing, read_menu, validate_menu,
  from_dict, fips_ready_algorithm, fips_ready_profile,
}
use nlboot.Protocol.Manifest.Matching.{MenuMatches, validate_menu_iff, EncodesMenu, read_menu_iff}

-- The value is a text that is not empty.
abbrev pub IsFilled : Value → Type 0
IsFilled v = (s : String) × (v ≡ str s) × (non_empty s ≡ true)

-- The three artifacts that every manifest names.
pub record HasArtifacts (refs : Fields) : Type 0 where
  pub kernel : IsFilled (get refs "kernel_ref")
  pub initrd : IsFilled (get refs "initrd_ref")
  pub rootfs : IsFilled (get refs "rootfs_ref")

pub record Encodes (fields : Fields) (m : SignedBootManifest) : Type 0 where
  pub manifest_id : TextAt fields "manifest_id" m.manifest_id
  pub boot_release_set_id : TextAt fields "boot_release_set_id" m.boot_release_set_id
  pub base_release_set_ref : TextAt fields "base_release_set_ref" m.base_release_set_ref
  pub signature_ref : TextAt fields "signature_ref" m.signature_ref
  pub signer_ref : TextAt fields "signer_ref" m.signer_ref
  pub signature_algorithm : TextAt fields "signature_algorithm" m.signature_algorithm
  pub crypto_profile : TextAt fields "crypto_profile" m.crypto_profile
  pub signature_hex : TextAt fields "signature_hex" m.signature_hex
  pub algorithm_is_fips : m.signature_algorithm ≡ fips_ready_algorithm
  pub profile_is_fips : m.crypto_profile ≡ fips_ready_profile
  pub boot_mode : get fields "boot_mode" ≡ str (mode_name m.boot_mode)
  pub refs : Fields
  pub artifacts : get fields "artifacts" ≡ obj refs
  pub shown_refs : m.artifacts ≡ shown_items refs
  pub has_artifacts : HasArtifacts refs
  pub signature_urn : starts_with m.signature_ref "urn:srcos:signature:" ≡ true
  pub boot_menu : EncodesMenu (get fields "boot_menu") m.boot_menu
  pub menu_matches : MenuMatches m.boot_menu m

is_filled_iff : (v : Value) → (is_filled v ≡ true) ↔ IsFilled v
is_filled_iff (str s) = (λ h. (s, refl, h), λ (t, e, h). ground arith)
is_filled_iff _ = (λ h. cc, λ (t, e, h). cc)

check_missing_sound : (refs : Fields) → check_missing (missing refs) ≡ ok tt → HasArtifacts refs
check_missing_sound refs h = record {
  kernel = (is_filled_iff _).0 (ground arith);
  initrd = (is_filled_iff _).0 (ground arith);
  rootfs = (is_filled_iff _).0 (ground arith);
}

check_missing_complete : (refs : Fields) → HasArtifacts refs → check_missing (missing refs) ≡ ok tt
check_missing_complete refs h =
    rw ((is_filled_iff _).1 h.initrd, (is_filled_iff _).1 h.kernel, (is_filled_iff _).1 h.rootfs)

pub object_of_sound : (v : Value) {fs : Fields} → object_of v ≡ some fs → v ≡ obj fs
object_of_sound (obj fs) h = ground arith
object_of_sound _ h = cc

from_dict_sound : (fields : Fields) → Yields (Encodes fields) (from_dict fields)
unfolding from_dict
from_dict_sound fields =
    let text = require_string fields in
    Yields-bind (text "manifest_id") _ λ manifest_id e1.
      Yields-bind (text "boot_release_set_id") _ λ boot_release_set_id e2.
        Yields-bind (text "base_release_set_ref") _ λ base_release_set_ref e3.
          Yields-bind (text "signature_ref") _ λ signature_ref e4.
            Yields-bind (text "signer_ref") _ λ signer_ref e5.
              Yields-bind (text "signature_algorithm") _ λ signature_algorithm e6.
                Yields-bind (text "crypto_profile") _ λ crypto_profile e7.
                  Yields-bind (text "signature_hex") _ λ signature_hex e8.
                    Yields-guard (signature_algorithm == fips_ready_algorithm) _ _ λ e9.
                      Yields-guard (crypto_profile == fips_ready_profile) _ _ λ e10.
                        Yields-bind (text "boot_mode") _ λ mode_text e11.
                          Yields-or_raise (mode_of mode_text) _ _ λ boot_mode e12.
                            Yields-or_raise (object_of (get fields "artifacts")) _ _
                              λ artifacts e13.
                                Yields-bind (check_missing (missing artifacts)) _ λ u e14.
                                  Yields-guard (starts_with signature_ref "urn:srcos:signature:") _
                                    _
                                    λ e15.
                                      Yields-bind (read_menu (get fields "boot_menu")) _ λ menu e16.
                                        Yields-bind (validate_menu menu _) _ λ v e17.
                                          Yields-ok (Encodes fields) (record {
                                            manifest_id =
                                                text_of_require_string fields "manifest_id" e1;
                                            boot_release_set_id =
                                                text_of_require_string fields "boot_release_set_id"
                                                  e2;
                                            base_release_set_ref =
                                                text_of_require_string fields "base_release_set_ref"
                                                  e3;
                                            signature_ref =
                                                text_of_require_string fields "signature_ref" e4;
                                            signer_ref =
                                                text_of_require_string fields "signer_ref" e5;
                                            signature_algorithm =
                                                text_of_require_string fields "signature_algorithm"
                                                  e6;
                                            crypto_profile =
                                                text_of_require_string fields "crypto_profile" e7;
                                            signature_hex =
                                                text_of_require_string fields "signature_hex" e8;
                                            algorithm_is_fips = (eq_iff _ _).0 e9;
                                            profile_is_fips = (eq_iff _ _).0 e10;
                                            boot_mode =
                                                (text_of_require_string fields "boot_mode" e11).0
                                                ∙ ap str (mode_of_sound mode_text e12);
                                            refs = artifacts;
                                            artifacts = object_of_sound _ e13;
                                            shown_refs = refl;
                                            has_artifacts = check_missing_sound artifacts e14;
                                            signature_urn = e15;
                                            boot_menu = (read_menu_iff _ menu).0 e16;
                                            menu_matches = (validate_menu_iff menu _).0 e17;
                                          })

from_dict_complete :
    (fields : Fields) (m : SignedBootManifest) → Encodes fields m → from_dict fields ≡ ok m
unfolding from_dict
from_dict_complete fields m h =
    bind_ok _ (require_string_of_TextAt fields "manifest_id" h.manifest_id) (
      bind_ok _ (require_string_of_TextAt fields "boot_release_set_id" h.boot_release_set_id) (
        bind_ok _ (require_string_of_TextAt fields "base_release_set_ref" h.base_release_set_ref) (
          bind_ok _ (require_string_of_TextAt fields "signature_ref" h.signature_ref) (
            bind_ok _ (require_string_of_TextAt fields "signer_ref" h.signer_ref) (
              bind_ok _
                (require_string_of_TextAt fields "signature_algorithm" h.signature_algorithm)
                (bind_ok _ (require_string_of_TextAt fields "crypto_profile" h.crypto_profile) (
                  bind_ok _ (require_string_of_TextAt fields "signature_hex" h.signature_hex) (
                    guard_ok _ ((eq_iff _ _).1 h.algorithm_is_fips) (
                      guard_ok _ ((eq_iff _ _).1 h.profile_is_fips) (
                        bind_ok _
                          (require_string_of_TextAt fields "boot_mode"
                            (h.boot_mode, has_text-mode_name m.boot_mode))
                          (or_raise_ok _ _ (mode_of-mode_name m.boot_mode) (
                            or_raise_ok _ _ (ap object_of h.artifacts) (
                              bind_ok _ (check_missing_complete h.refs h.has_artifacts) (
                                guard_ok _ h.signature_urn (
                                  bind_ok _ ((read_menu_iff _ m.boot_menu).1 h.boot_menu) (
                                    rw (
                                      ← h.shown_refs,
                                      (validate_menu_iff m.boot_menu m).1 h.menu_matches,
                                    )))))))))))))))))

-- `SignedBootManifest.from_dict` accepts exactly the documents that encode a manifest: the texts
-- are there and not blank, algorithm and profile are the required ones, the three artifacts are
-- named, the signature reference is a SourceOS URN, and a boot menu is well formed with a default
-- entry that matches the manifest. It returns that manifest.
pub manifest_from_dict_iff :
    (fields : Fields) (m : SignedBootManifest) → (from_dict fields ≡ ok m) ↔ Encodes fields m
manifest_from_dict_iff fields m = ((from_dict_sound fields).at m, from_dict_complete fields m)
