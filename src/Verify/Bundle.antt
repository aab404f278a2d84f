-- ===== src/Verify/Bundle.antt =====
-- `load_verified_trust_bundle` of verify.py: signed bundles of keys.
use nlboot.Base.{
  ℕ, String, ◌≡◌, ◌↔◌, true, Option, some, ok, Dict, lookup, Yields, Yields-bind, Yields-or_raise,
  Yields-guard, or_raise_ok, bind_ok, guard_ok,
}
use nlboot.Json.{Fields, get, is_text}
use nlboot.Time.{IsoFormat, now_or}
use nlboot.Crypto.{Crypto}
use nlboot.Verify.{
  TrustedKey, fips_ready_algorithm, fips_ready_profile, filled_text, validate_lifecycle,
  canonical_trust_bundle_payload, verify_rsa_pss_sha256, load_trusted_keys,
  load_verified_trust_bundle,
}
use nlboot.Verify.Lifecycle.{IsLive, validate_lifecycle_iff, Signs, verify_rsa_pss_sha256_iff}

module _ (crypto : Crypto) (iso : IsoFormat) where
  -- A bundle with an id and the required algorithm and profile, signed by a live root key.
  pub record IsSigned (fields : Fields) (root_keys : Dict TrustedKey) (current : ℕ) : Type 0 where
    pub bundle_id : String
    pub identified : filled_text (get fields "bundle_id") ≡ some bundle_id
    pub signer_ref : String
    pub names_signer : filled_text (get fields "signer_ref") ≡ some signer_ref
    pub signature_hex : String
    pub carries_signature : filled_text (get fields "signature_hex") ≡ some signature_hex
    pub algorithm : is_text (get fields "signature_algorithm") fips_ready_algorithm ≡ true
    pub profile : is_text (get fields "crypto_profile") fips_ready_profile ≡ true
    pub signer : TrustedKey
    pub known : lookup signer_ref root_keys ≡ some signer
    pub live : IsLive signer current
    pub signs : Signs crypto (canonical_trust_bundle_payload fields) signature_hex signer

  module _ (fields : Fields) (root_keys : Dict TrustedKey) (now : Option ℕ) (clock : ℕ) where
    bundle-Yields :
        Yields
          (λ d.
            IsSigned fields root_keys (now_or now clock)
            × (load_trusted_keys iso fields now clock ≡ ok d))
          (load_verified_trust_bundle crypto iso fields root_keys now clock)
    unfolding load_verified_trust_bundle
    bundle-Yields = Yields-or_raise (filled_text (get fields "bundle_id")) _ _ λ bundle_id e1.
        Yields-or_raise (filled_text (get fields "signer_ref")) _ _ λ signer_ref e2.
          Yields-or_raise (filled_text (get fields "signature_hex")) _ _ λ signature_hex e3.
            Yields-guard (is_text (get fields "signature_algorithm") fips_ready_algorithm) _ _ λ e4.
              Yields-guard (is_text (get fields "crypto_profile") fips_ready_profile) _ _ λ e5.
                Yields-or_raise (lookup signer_ref root_keys) _ _ λ signer e6.
                  Yields-bind (validate_lifecycle signer now clock) _ λ u e7.
                    Yields-bind
                      (verify_rsa_pss_sha256 crypto (canonical_trust_bundle_payload fields)
                        signature_hex signer)
                      _
                      λ v e8. record {
                        at = λ d e9. (
                          record {
                            bundle_id = bundle_id;
                            identified = e1;
                            signer_ref = signer_ref;
                            names_signer = e2;
                            signature_hex = signature_hex;
                            carries_signature = e3;
                            algorithm = e4;
                            profile = e5;
                            signer = signer;
                            known = e6;
                            live = (validate_lifecycle_iff signer now clock).0 e7;
                            signs = (verify_rsa_pss_sha256_iff crypto _ _ signer).0 e8;
                          },
                          e9,
                        );
                      }

    bundle_complete :
        {d : Dict TrustedKey}
        → IsSigned fields root_keys (now_or now clock)
        → load_trusted_keys iso fields now clock ≡ ok d
        → load_verified_trust_bundle crypto iso fields root_keys now clock ≡ ok d
    unfolding load_verified_trust_bundle
    bundle_complete s loaded = or_raise_ok _ _ s.identified (
        or_raise_ok _ _ s.names_signer (
          or_raise_ok _ _ s.carries_signature (
            guard_ok _ s.algorithm (
              guard_ok _ s.profile (
                or_raise_ok _ _ s.known (
                  bind_ok _ ((validate_lifecycle_iff s.signer now clock).1 s.live) (
                    bind_ok _ ((verify_rsa_pss_sha256_iff crypto _ _ s.signer).1 s.signs)
                      loaded)))))))

    -- `load_verified_trust_bundle` returns keys exactly if the bundle has an id and the required
    -- algorithm and profile, names a root key that is live, carries a signature that verifies
    -- under that key over the bundle's canonical payload, and lists keys that `load_trusted_keys`
    -- returns.
    pub load_verified_trust_bundle_iff :
        (d : Dict TrustedKey)
        → (load_verified_trust_bundle crypto iso fields root_keys now clock ≡ ok d) ↔ (
            IsSigned fields root_keys (now_or now clock)
            × (load_trusted_keys iso fields now clock ≡ ok d))
    load_verified_trust_bundle_iff d = (bundle-Yields.at d, λ (s, l). bundle_complete s l)
