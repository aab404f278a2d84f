-- ===== src/Device/Claims.antt =====
-- `DeviceClaim.verify` and `DeviceIdentity.make_claim` of device.py: what a claim proves.
use nlboot.Base.{
  eq_of_differ, ℕ, ◌≤◌, String, ◌≡◌, refl, ◌∙◌, ◌↔◌, true, Option, none, some, ok, err, ◌==◌,
  eq_iff, Yields, Yields-bind, Yields-or_raise, Yields-guard, bind_ok, or_raise_ok, guard_ok,
  true_of_guard,
}
use nlboot.Text.{has_text}
use nlboot.Hex.{Bytes, to_hex, from_hex}
use nlboot.Hex.Laws.{from_hex-to_hex}
use nlboot.Time.{IsoFormat, now_or}
use nlboot.Crypto.{Crypto, RsaLaws}
use nlboot.Device.Keys.{
  HoldsKey, device_id_of, load_sound, load_complete, fingerprint_complete, fingerprint_of,
}
use nlboot.Device.{
  DeviceClaim, DeviceIdentity, load_public_key, device_fingerprint, identity_of, generate,
  signing_payload, nonce_fits, make_claim, verify, fips_ready_algorithm, fips_ready_profile,
  nonce_mismatch, rsa_key_size, rsa_public_exponent,
}

-- The nonce is the expected one, where one is expected.
abbrev pub NonceFits : String → Option String → Type 0
NonceFits nonce none = Unit
NonceFits nonce (some expected) = nonce ≡ expected

NonceFits-iff :
    (nonce : String) (expected : Option String)
    → (nonce_fits nonce expected ≡ true) ↔ NonceFits nonce expected
NonceFits-iff nonce none = (λ _. tt, λ _. refl)
NonceFits-iff nonce (some e) = eq_iff nonce e

module _ (crypto : Crypto) (iso : IsoFormat) where
  -- What a claim proves: it presents a sound key, its device id is that key's, its nonce is the
  -- expected one, and its signature verifies under the key over exactly these fields.
  pub record Proves (claim : DeviceClaim) (expected : Option String) : Type 0 where
    pub key : crypto.PublicKey
    pub holds_key : HoldsKey crypto claim.public_key_pem key
    pub device_id : device_id_of crypto key ≡ claim.device_id
    pub nonce : NonceFits claim.nonce expected
    pub signature : Bytes
    pub signature_hex : from_hex claim.signature_hex ≡ some signature
    pub verified :
        crypto.verify key signature
          (signing_payload iso claim.device_id claim.public_key_pem claim.nonce claim.claimed_at)
        ≡ true

  verify_complete :
      (claim : DeviceClaim) (expected : Option String)
      → Proves claim expected
      → verify crypto iso claim expected ≡ ok tt
  unfolding verify
  verify_complete claim expected p =
      bind_ok _ (fingerprint_complete crypto claim.public_key_pem p.key p.holds_key) (
        guard_ok _ ((eq_iff _ _).1 p.device_id) (
          guard_ok _ ((NonceFits-iff claim.nonce expected).1 p.nonce) (
            bind_ok _ (load_complete crypto claim.public_key_pem p.key p.holds_key)
              (or_raise_ok _ _ p.signature_hex (rw p.verified)))))

  verify-Yields :
      (claim : DeviceClaim) (expected : Option String)
      → Yields (λ u. Proves claim expected) (verify crypto iso claim expected)
  unfolding verify
  verify-Yields claim expected =
      Yields-bind (device_fingerprint crypto claim.public_key_pem) _ λ id e1.
        Yields-guard (id == claim.device_id) _ _ λ e2.
          Yields-guard (nonce_fits claim.nonce expected) _ _ λ e3.
            Yields-bind (load_public_key crypto claim.public_key_pem) _ λ key e4.
              Yields-or_raise (from_hex claim.signature_hex) _ _ λ signature e5. record {
                at = λ u e6. record {
                  key = key;
                  holds_key = (load_sound crypto claim.public_key_pem).at key e4;
                  device_id =
                      fingerprint_of crypto claim.public_key_pem key id e4 e1 ∙ (eq_iff id _).0 e2;
                  nonce = (NonceFits-iff claim.nonce expected).0 e3;
                  signature = signature;
                  signature_hex = e5;
                  verified = true_of_guard _ _ e6;
                };
              }

  -- `DeviceClaim.verify` accepts a claim exactly when it presents an RSA key of at least 2048
  -- bits, its device id is the fingerprint of that key, its nonce is the expected one if one is
  -- expected, and its signature is hexadecimal and verifies under that key over the device id, the
  -- key, the nonce and the time that the claim states.
  pub verify_iff :
      (claim : DeviceClaim) (expected : Option String)
      → (verify crypto iso claim expected ≡ ok tt) ↔ Proves claim expected
  verify_iff claim expected =
      (λ h. (verify-Yields claim expected).at tt h, λ p. verify_complete claim expected p)

  -- The identity that a private key gives.
  abbrev identity_with : crypto.PrivateKey → DeviceIdentity crypto
  identity_with private = record {
    device_id = device_id_of crypto (crypto.public_key private);
    public_key_pem = crypto.pem (crypto.public_key private);
    private_key = private;
  }

  holds_own :
      (private : crypto.PrivateKey)
      → RsaLaws crypto private
      → rsa_key_size ≤ crypto.key_size (crypto.public_key private)
      → HoldsKey crypto (crypto.pem (crypto.public_key private)) (crypto.public_key private)
  holds_own private laws size = record {
    block = laws.block;
    loads = laws.load_pem;
    rsa = laws.rsa;
    size = size;
  }

  identity_of_complete :
      (private : crypto.PrivateKey)
      → RsaLaws crypto private
      → rsa_key_size ≤ crypto.key_size (crypto.public_key private)
      → identity_of crypto private ≡ ok (identity_with private)
  unfolding identity_of
  identity_of_complete private laws size =
      bind_ok _ (fingerprint_complete crypto _ _ (holds_own private laws size)) refl

  -- The claim that an identity makes.
  abbrev claim_of : DeviceIdentity crypto → String → ℕ → ℕ → DeviceClaim
  claim_of identity nonce when random = record {
    device_id = identity.device_id;
    public_key_pem = identity.public_key_pem;
    nonce = nonce;
    claimed_at = when;
    signature_algorithm = fips_ready_algorithm;
    crypto_profile = fips_ready_profile;
    signature_hex = to_hex (
        crypto.sign identity.private_key random
          (signing_payload iso identity.device_id identity.public_key_pem nonce when));
  }

  claim-Proves :
      (private : crypto.PrivateKey)
      → RsaLaws crypto private
      → rsa_key_size ≤ crypto.key_size (crypto.public_key private)
      → (nonce : String) (when random : ℕ)
      → Proves (claim_of (identity_with private) nonce when random) (some nonce)
  claim-Proves private laws size nonce when random = record {
    key = crypto.public_key private;
    holds_key = holds_own private laws size;
    device_id = refl;
    nonce = refl;
    signature = _;
    signature_hex = from_hex-to_hex _ (laws.sign_bytes random _);
    verified = laws.verify-sign random _;
  }

  make_claim_complete :
      (identity : DeviceIdentity crypto) (nonce : String) (claimed_at : Option ℕ) (clock random : ℕ)
      → has_text nonce ≡ true
      → make_claim crypto iso identity nonce claimed_at clock random
        ≡ ok (claim_of identity nonce (now_or claimed_at clock) random)
  unfolding make_claim
  make_claim_complete identity nonce claimed_at clock random h = guard_ok _ h refl

  other_nonce :
      (claim : DeviceClaim) (expected : String)
      → Proves claim (some claim.nonce)
      → (claim.nonce ≡ expected → ⊥)
      → verify crypto iso claim (some expected) ≡ err nonce_mismatch
  unfolding verify
  other_nonce claim expected p differ =
      bind_ok _ (fingerprint_complete crypto claim.public_key_pem p.key p.holds_key) (
        guard_ok _ ((eq_iff _ _).1 p.device_id)
          (rw (eq_of_differ claim.nonce expected differ) refl))

  -- A generated key that obeys the documented laws of RSA and has the size asked for gives an
  -- identity, and every claim that this identity makes with a nonce that is not blank is accepted
  -- for that nonce and refused for every other.
  pub generate-make_claim-verify :
      (seed : ℕ)
      → RsaLaws crypto (crypto.generate_private_key rsa_public_exponent rsa_key_size seed)
      → rsa_key_size
        ≤ crypto.key_size
            (crypto.public_key (crypto.generate_private_key rsa_public_exponent rsa_key_size seed))
      → (nonce : String) (claimed_at : Option ℕ) (clock random : ℕ) → has_text nonce ≡ true
      → (identity : DeviceIdentity crypto) × (claim : DeviceClaim) × (generate crypto seed
          ≡ ok identity)
        × (make_claim crypto iso identity nonce claimed_at clock random ≡ ok claim)
        × (verify crypto iso claim (some nonce) ≡ ok tt)
        × ((expected : String)
            → (nonce ≡ expected → ⊥)
            → verify crypto iso claim (some expected) ≡ err nonce_mismatch)
  unfolding generate
  generate-make_claim-verify seed laws size nonce claimed_at clock random filled =
      let private = crypto.generate_private_key rsa_public_exponent rsa_key_size seed in
      let proof = claim-Proves private laws size nonce (now_or claimed_at clock) random in
      (
        _,
        _,
        identity_of_complete private laws size,
        make_claim_complete _ nonce claimed_at clock random filled,
        verify_complete _ _ proof,
        λ expected differ. other_nonce _ expected proof differ,
      )
