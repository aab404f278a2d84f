-- ===== src/Examples/Keys.antt =====
-- Trusted keys, trust bundles, and the command.
use nlboot.Base.{
  ℕ, String, ◌≡◌, refl, ◌↔◌, true, false, ok, err, Option, none, some, [], ◌∷◌, Dict, lookup, arith,
  All, ◌<◌,
}
use nlboot.Json.{Fields, Value, field, end, str, obj, arr, cons, nil}
use nlboot.Hex.{to_hex, from_hex}
use nlboot.Hex.Laws.{from_hex-to_hex}
use nlboot.Time.{NoZulu, zulu_to_offset, offset_to_zulu}
use nlboot.Time.Laws.{zulu_to_offset-offset_to_zulu}
use nlboot.Verify.{
  TrustedKey, active, validate_lifecycle, verify_rsa_pss_sha256, load_trusted_keys,
  load_verified_trust_bundle, canonical_payload,
}
use nlboot.Verify.Lifecycle.{IsLive, Signs, validate_lifecycle_iff, verify_rsa_pss_sha256_iff}
use nlboot.Verify.Keys.{
  Loads, IsTrusted, last_with, load_trusted_keys_iff, load_trusted_keys-IsTrusted,
}
use nlboot.Verify.Bundle.{IsSigned, load_verified_trust_bundle_iff}
use nlboot.Protocol.Plan as Plan
use nlboot.Cli.{Args, parsed, verify_manifest_document, main, printed}
use nlboot.Cli.Verified.{IsVerified, verify_manifest_document_iff}
use nlboot.Cli.Main.{Accepts, shown_plan, main_prints_iff}
use nlboot.Examples.Fixtures.{pem_block, toy_crypto, unary_iso}
use nlboot.Examples.Boot.{manifest_fields, manifest, token_fields, token}

abbrev key : TrustedKey
key = record {
  key_ref = "k1";
  algorithm = "rsa-pss-sha256";
  public_key_pem = pem_block;
  status = active;
  not_before = some 1;
  not_after = some 9;
  revoked_at = none;
  revocation_reason = none;
}

abbrev key_fields : Fields
key_fields = field "key_ref" (str "k1") (
    field "algorithm" (str "rsa-pss-sha256") (
      field "public_key_pem" (str pem_block)
        (field "not_before" (str "11") (field "not_after" (str "1111111111") end))))

abbrev pub keys_fields : Fields
keys_fields = field "keys" (arr (cons (obj key_fields) nil)) end

abbrev keys : Dict TrustedKey
keys = ("k1", key) ∷ []

lifecycle_passes : validate_lifecycle key (some 5) 0 ≡ ok tt
unfolding validate_lifecycle
lifecycle_passes = refl

validate_lifecycle_iff_example : IsLive key 5
validate_lifecycle_iff_example = (validate_lifecycle_iff key (some 5) 0).0 lifecycle_passes

signature_passes : verify_rsa_pss_sha256 toy_crypto "payload" "07" key ≡ ok tt
unfolding verify_rsa_pss_sha256 from_hex nlboot.Hex.hex_value
signature_passes = refl

verify_rsa_pss_sha256_iff_test : Signs toy_crypto "payload" "07" key
verify_rsa_pss_sha256_iff_test =
    (verify_rsa_pss_sha256_iff toy_crypto "payload" "07" key).0 signature_passes

keys_load : load_trusted_keys unary_iso keys_fields none 5 ≡ ok keys
unfolding load_trusted_keys nlboot.Verify.from_dict zulu_to_offset validate_lifecycle
    nlboot.Base.insert
keys_load = refl

load_trusted_keys_iff_test : Loads unary_iso keys_fields 5 keys
load_trusted_keys_iff_test = (load_trusted_keys_iff unary_iso keys_fields none 5 keys).0 keys_load

load_trusted_keys-IsTrusted_example :
    (listed : Loads unary_iso keys_fields 5 keys) × ((ref : String)
      → lookup ref keys ≡ last_with ref listed.keys none)
    × ((ref : String) (found : TrustedKey)
        → lookup ref keys ≡ some found
        → IsTrusted unary_iso ref found 5)
load_trusted_keys-IsTrusted_example =
    load_trusted_keys-IsTrusted unary_iso keys_fields none 5 keys keys_load

abbrev bundle_fields : Fields
bundle_fields = field "bundle_id" (str "b1") (
    field "signer_ref" (str "k1") (
      field "signature_hex" (str "07") (
        field "signature_algorithm" (str "rsa-pss-sha256")
          (field "crypto_profile" (str "fips-140-3-compatible") keys_fields))))

bundle_loads : load_verified_trust_bundle toy_crypto unary_iso bundle_fields keys none 5 ≡ ok keys
unfolding load_verified_trust_bundle lookup validate_lifecycle verify_rsa_pss_sha256 from_hex
    nlboot.Hex.hex_value load_trusted_keys nlboot.Verify.from_dict zulu_to_offset nlboot.Base.insert
bundle_loads = refl

load_verified_trust_bundle_iff_example :
    IsSigned toy_crypto unary_iso bundle_fields keys 5
    × (load_trusted_keys unary_iso bundle_fields none 5 ≡ ok keys)
load_verified_trust_bundle_iff_example =
    (load_verified_trust_bundle_iff toy_crypto unary_iso bundle_fields keys none 5 keys).0
      bundle_loads

pub document_verifies :
    verify_manifest_document toy_crypto unary_iso manifest_fields keys_fields true 5 ≡ ok tt
unfolding verify_manifest_document load_trusted_keys nlboot.Verify.from_dict zulu_to_offset
    validate_lifecycle lookup nlboot.Base.insert verify_rsa_pss_sha256 from_hex nlboot.Hex.hex_value
document_verifies = refl

verify_manifest_document_iff_example :
    IsVerified toy_crypto unary_iso manifest_fields keys_fields true 5
verify_manifest_document_iff_example =
    (verify_manifest_document_iff toy_crypto unary_iso manifest_fields keys_fields true 5).0
      document_verifies

abbrev args : Args
args = record {
  manifest = parsed (obj manifest_fields);
  token = parsed (obj token_fields);
  trusted_keys = parsed (obj keys_fields);
  require_fips = true;
  now = some "111111";
}

abbrev pub show : Value → String
show v = "value"

abbrev plan_fields : Fields
plan_fields = Plan.to_dict show (Plan.plan_of manifest token (some "install"))

command_prints :
    main toy_crypto unary_iso (λ t. some t) show args 5 0 ≡ printed (shown_plan plan_fields)
unfolding main zulu_to_offset verify_manifest_document load_trusted_keys nlboot.Verify.from_dict
    validate_lifecycle lookup nlboot.Base.insert verify_rsa_pss_sha256 from_hex nlboot.Hex.hex_value
    nlboot.Protocol.Manifest.from_dict nlboot.Protocol.Checks.require_string nlboot.Text.has_text
    nlboot.Protocol.Modes.mode_of nlboot.Protocol.Menu.from_dict nlboot.Protocol.Entry.from_dict
    nlboot.Protocol.Modes.role_of nlboot.Protocol.Modes.purpose_of nlboot.Protocol.Modes.status_of
    nlboot.Protocol.Menu.default_entry nlboot.Protocol.Token.from_dict
    nlboot.Protocol.Token.parse_time nlboot.Protocol.Token.validate_for_manifest
    Plan.build_boot_plan Plan.select_entry nlboot.Protocol.Manifest.validate_for_manifest
command_prints = refl

main_prints_iff_example : Accepts toy_crypto unary_iso (λ t. some t) show args 5 0 plan_fields
main_prints_iff_example =
    (main_prints_iff toy_crypto unary_iso (λ t. some t) show args 5 0 plan_fields).0 command_prints

from_hex-to_hex_test : from_hex (to_hex (7 ∷ 255 ∷ [])) ≡ some (7 ∷ 255 ∷ [])
from_hex-to_hex_test = from_hex-to_hex (7 ∷ 255 ∷ []) (omega arith, (omega arith, tt))

no_zulu : NoZulu "T03:04+00:00"
no_zulu = (
  refl,
  (refl, (refl, (refl, (refl, (refl, (refl, (refl, (refl, (refl, (refl, (refl, tt))))))))))),
)

zulu_to_offset-offset_to_zulu_test : zulu_to_offset (offset_to_zulu "T03:04+00:00") ≡ "T03:04+00:00"
zulu_to_offset-offset_to_zulu_test = zulu_to_offset-offset_to_zulu "T03:04+00:00" no_zulu
