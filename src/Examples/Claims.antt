-- ===== src/Examples/Claims.antt =====
-- Device claims.
use nlboot.Base.{String, ◌≡◌, refl, ok, err, none, some, arith, true}
use nlboot.Text.{has_text}
use nlboot.Json.{Fields, field, end, str}
use nlboot.Time.{last_instant}
use nlboot.Device.{
  DeviceError, DeviceClaim, verify, from_dict, to_dict, nonce_mismatch, device_fingerprint,
  DeviceIdentity, generate, make_claim,
}
use nlboot.Device.Claims.{Proves, verify_iff, generate-make_claim-verify}
use nlboot.Device.Keys.{HoldsKey, device_fingerprint-same_key}
use nlboot.Device.Documents.{EncodesClaim, IsReadable, claim_from_dict_iff, claim_from_dict-to_dict}
use nlboot.Examples.Fixtures.{pem_block, toy_crypto, toy_laws, unary_iso}

abbrev pub sample_claim : DeviceClaim
sample_claim = record {
  device_id = "urn:srcos:device:sha256:ab";
  public_key_pem = pem_block;
  nonce = "n1";
  claimed_at = 3;
  signature_algorithm = "rsa-pss-sha256";
  crypto_profile = "fips-140-3-compatible";
  signature_hex = "07";
}

pub sample_claim_verifies : verify toy_crypto unary_iso sample_claim (some "n1") ≡ ok tt
unfolding verify device_fingerprint nlboot.Device.load_public_key nlboot.Hex.from_hex
    nlboot.Hex.hex_value
sample_claim_verifies = refl

verify_iff_example : Proves toy_crypto unary_iso sample_claim (some "n1")
verify_iff_example =
    (verify_iff toy_crypto unary_iso sample_claim (some "n1")).0 sample_claim_verifies

abbrev Accepted : Type 0
Accepted =
    (identity : DeviceIdentity toy_crypto) × (claim : DeviceClaim) × (generate toy_crypto 5
      ≡ ok identity)
    × (make_claim toy_crypto unary_iso identity "n2" none 4 6 ≡ ok claim)
    × (verify toy_crypto unary_iso claim (some "n2") ≡ ok tt)
    × ((expected : String)
        → ("n2" ≡ expected → ⊥)
        → verify toy_crypto unary_iso claim (some expected) ≡ err nonce_mismatch)

n2_filled : has_text "n2" ≡ true
unfolding has_text
n2_filled = refl

generate-make_claim-verify_example : Accepted
generate-make_claim-verify_example =
    generate-make_claim-verify toy_crypto unary_iso 5 toy_laws (omega arith) "n2" none 4 6 n2_filled

abbrev other_pem : String
other_pem = "-----BEGIN PUBLIC KEY-----  "

holds_pem : HoldsKey toy_crypto pem_block 2048
holds_pem = record { block = refl; loads = refl; rsa = refl; size = omega arith }

holds_other : HoldsKey toy_crypto other_pem 2048
holds_other = record { block = refl; loads = refl; rsa = refl; size = omega arith }

device_fingerprint-same_key_test :
    device_fingerprint toy_crypto pem_block ≡ device_fingerprint toy_crypto other_pem
device_fingerprint-same_key_test =
    device_fingerprint-same_key toy_crypto pem_block other_pem 2048 holds_pem holds_other

abbrev claim_fields : Fields
claim_fields = field "nonce" (str "n1") (
    field "device_id" (str "urn:srcos:device:sha256:ab") (
      field "public_key_pem" (str pem_block) (
        field "claimed_at" (str "1111") (
          field "signature_algorithm" (str "rsa-pss-sha256") (
            field "crypto_profile" (str "fips-140-3-compatible")
              (field "signature_hex" (str "07") end))))))

claim_fields_read : from_dict unary_iso claim_fields ≡ ok sample_claim
unfolding from_dict nlboot.Protocol.Checks.require_text has_text nlboot.Time.zulu_to_offset
claim_fields_read = refl

claim_from_dict_iff_example : EncodesClaim unary_iso claim_fields sample_claim
claim_from_dict_iff_example =
    (claim_from_dict_iff unary_iso claim_fields sample_claim).0 claim_fields_read

sample_claim-IsReadable : IsReadable sample_claim
unfolding has_text
sample_claim-IsReadable = record {
  device_id = refl;
  public_key_pem = refl;
  nonce = refl;
  claimed_at = omega arith;
  signature_algorithm = refl;
  crypto_profile = refl;
  signature_hex = refl;
  device_urn = refl;
}

claim_from_dict-to_dict_example :
    from_dict unary_iso (to_dict unary_iso sample_claim) ≡ ok sample_claim
claim_from_dict-to_dict_example =
    claim_from_dict-to_dict unary_iso sample_claim sample_claim-IsReadable
