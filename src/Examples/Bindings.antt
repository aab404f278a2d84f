-- ===== src/Examples/Bindings.antt =====
-- Documents with one payload: what the payload, and so a signature over it, binds.
use mathlib.Core.Option
use nlboot.Base.{String, ◌≡◌, ◌↔◌, ◌⊎◌, refl, true, false, none, some, ok, ◌==◌, eq_iff, arith}
use nlboot.Hex.{Bytes}
use nlboot.Text.{has_text}
use nlboot.Json.{Fields, field, end, str, num, arr, obj, cons, nil, get}
use nlboot.Json.Dump.{dumps}
use nlboot.Json.Paths.{member}
use nlboot.Json.Write.{sorted}
use nlboot.Json.Numbers.{numbers_fields}
use nlboot.Json.Faithful.{dumps_iff}
use nlboot.Time.Utc.{utc_format}
use nlboot.Crypto.{Crypto, RsaLaws}
use nlboot.Device.{DeviceClaim, DeviceIdentity, signing_payload, generate, make_claim, to_dict}
use nlboot.Device.Binding.{signing_payload-injective}
use nlboot.Device.Schema.{conforms}
use nlboot.Device.Conforms.{Shapes, labelled, generated_claim_conforms}
use nlboot.Verify.{without, canonical_payload, canonical_trust_bundle_payload, load_trusted_keys}
use nlboot.Verify.Binding.{canonical_payload_binds, trust_bundle_binds}
use nlboot.Cli.{verify_manifest_document}
use nlboot.Cli.Bound.{IsSameManifest, IsRefused, manifest_bound}
use nlboot.Examples.Fixtures.{pem_block, toy_crypto, unary_iso}
use nlboot.Examples.Boot.{manifest_fields}
use nlboot.Examples.Keys.{keys_fields}
use nlboot.Examples.Claims.{sample_claim}

abbrev left : Fields
left = field "b" (arr (cons (num "1") (cons (num "-2.5e3") nil))) (field "a" (str "é\"\n😀") end)

abbrev right : Fields
right = field "a" (str "é\"\n😀") (field "b" (arr (cons (num "1") (cons (num "-2.5e3") nil))) end)

dumps_iff_example :
    (dumps (obj left) ≡ dumps (obj right)) ↔ (sorted (obj left) ≡ sorted (obj right))
unfolding numbers_fields
dumps_iff_example = dumps_iff (obj left) (obj right) refl refl

differ : (a b : String) → (a == b) ≡ false → a ≡ b → ⊥
differ a b h e = let equal : (a == b) ≡ true = (eq_iff a b).1 e in cc

-- The manifest with its artifacts and its signature in other places.
abbrev moved_artifacts : Fields
moved_artifacts =
    field "rootfs_ref" (str "urn:r")
      (field "initrd_ref" (str "urn:i") (field "kernel_ref" (str "urn:k") end))

abbrev moved_fields : Fields
moved_fields = field "signature_hex" (str "07") (
    field "artifacts" (obj moved_artifacts)
      (without "artifacts" (without "signature_hex" manifest_fields)))

same_payload : canonical_payload manifest_fields ≡ canonical_payload moved_fields
unfolding canonical_payload dumps
same_payload = refl

manifest_numbers : numbers_fields manifest_fields ≡ true
unfolding numbers_fields
manifest_numbers = refl

moved_numbers : numbers_fields moved_fields ≡ true
unfolding numbers_fields
moved_numbers = refl

canonical_payload_binds_example :
    Option.map sorted (member "artifacts" manifest_fields)
    ≡ Option.map sorted (member "artifacts" moved_fields)
canonical_payload_binds_example =
    canonical_payload_binds manifest_fields moved_fields "artifacts" manifest_numbers moved_numbers
      (differ "artifacts" "signature_hex" refl) same_payload

abbrev Bound : Type 0
Bound =
    (verify_manifest_document toy_crypto unary_iso moved_fields keys_fields true 5
      ≡ verify_manifest_document toy_crypto unary_iso manifest_fields keys_fields true 5)
    × (IsSameManifest manifest_fields moved_fields ⊎ IsRefused manifest_fields moved_fields)

manifest_bound_example : Bound
manifest_bound_example =
    manifest_bound manifest_fields moved_fields manifest_numbers moved_numbers same_payload refl
      toy_crypto unary_iso keys_fields true 5

abbrev signed_bundle : Fields
signed_bundle = field "signatures" (arr nil) (field "bundle_id" (str "b1") keys_fields)

abbrev other_bundle : Fields
other_bundle =
    field "signature_hex" (str "07")
      (field "keys" (get keys_fields "keys") (field "bundle_id" (str "b1") end))

trust_bundle_binds_example :
    load_trusted_keys unary_iso signed_bundle (some 5) 0
    ≡ load_trusted_keys unary_iso other_bundle (some 5) 0
unfolding numbers_fields canonical_trust_bundle_payload dumps
trust_bundle_binds_example =
    trust_bundle_binds unary_iso signed_bundle other_bundle (some 5) 0 refl refl refl

-- the claim with another signature
abbrev resigned_claim : DeviceClaim
resigned_claim = record sample_claim { signature_hex = "ff" }

signing_payload-injective_example :
    (sample_claim.device_id ≡ resigned_claim.device_id)
    × (sample_claim.public_key_pem ≡ resigned_claim.public_key_pem)
    × (sample_claim.nonce ≡ resigned_claim.nonce)
    × (sample_claim.claimed_at ≡ resigned_claim.claimed_at)
signing_payload-injective_example =
    signing_payload-injective unary_iso sample_claim resigned_claim (omega arith) (omega arith) refl

-- a digest of 64 digits
abbrev digest : String
digest = "0123456789abcdef0123456789abcdef0123456789abcdef0123456789abcdef"

abbrev digest_crypto : Crypto
digest_crypto = record toy_crypto { sha256 = λ bytes. digest }

digest_laws : RsaLaws digest_crypto 2048
digest_laws = record {
  rsa = refl;
  block = refl;
  load_pem = refl;
  verify-sign = λ random payload. refl;
  sign_bytes = λ random payload. (omega arith, tt);
}

digest-Shapes : Shapes digest_crypto 2048
unfolding nlboot.Device.Schema.digits nlboot.Hex.to_hex
digest-Shapes = record { digest = λ bytes. refl; signature = λ random payload. refl }

abbrev identity : DeviceIdentity digest_crypto
identity = record {
  device_id =
      "urn:srcos:device:sha256:0123456789abcdef0123456789abcdef0123456789abcdef0123456789abcdef";
  public_key_pem = pem_block;
  private_key = 2048;
}

generated : generate digest_crypto 5 ≡ ok identity
unfolding generate nlboot.Device.device_fingerprint nlboot.Device.load_public_key
generated = refl

abbrev claim : DeviceClaim
claim = record sample_claim { device_id = identity.device_id; claimed_at = 4 }

claimed : make_claim digest_crypto utc_format identity "n1" none 4 6 ≡ ok claim
unfolding make_claim has_text nlboot.Hex.to_hex
claimed = refl

generated_claim_conforms_example :
    (conforms (labelled (to_dict utc_format claim)) ≡ true)
    × (conforms (to_dict utc_format claim) ≡ false)
generated_claim_conforms_example =
    generated_claim_conforms digest_crypto 5 identity "n1" none 4 6 claim (omega arith) digest_laws
      digest-Shapes generated claimed
