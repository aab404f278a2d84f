-- ===== src/Cli/Verified.antt =====
-- `verify_manifest_document` of cli.py: what makes a manifest verified.
use nlboot.Base.{
  ℕ, String, ◌≡◌, ap, ◌↔◌, Bool, true, not, ◌||◌, ◌&&◌, none, some, ok, Dict, lookup, arith, Yields,
  Yields-bind, Yields-or_raise, Yields-guard, or_raise_ok, bind_ok, guard_ok,
}
use nlboot.Json.{Value, str, Fields, get, is_text, text_of}
use nlboot.Time.{IsoFormat}
use nlboot.Crypto.{Crypto}
use nlboot.Verify.{
  TrustedKey, fips_ready_algorithm, fips_ready_profile, canonical_payload, load_trusted_keys,
}
use nlboot.Verify.Lifecycle.{Signs, verify_rsa_pss_sha256_iff}
use nlboot.Cli.{verify_manifest_document}

text_of_sound : (v : Value) {s : String} → text_of v ≡ some s → v ≡ str s
text_of_sound (str s) h = ground arith
text_of_sound _ h = cc

module _ (crypto : Crypto) (iso : IsoFormat) where
  -- The manifest is signed by a key of the trusted keys that is live, with the required algorithm
  -- and profile if these are asked for.
  pub record IsVerified (manifest_doc keys_doc : Fields) (require_fips : Bool) (current : ℕ)
      : Type 0 where
    pub fips :
        (not require_fips
          || is_text (get manifest_doc "signature_algorithm") fips_ready_algorithm
            && is_text (get manifest_doc "crypto_profile") fips_ready_profile)
        ≡ true
    pub signer_ref : String
    pub names_signer : get manifest_doc "signer_ref" ≡ str signer_ref
    pub signature_hex : String
    pub carries_signature : get manifest_doc "signature_hex" ≡ str signature_hex
    pub keys : Dict TrustedKey
    pub loaded : load_trusted_keys iso keys_doc none current ≡ ok keys
    pub key : TrustedKey
    pub known : lookup signer_ref keys ≡ some key
    pub algorithm : is_text (get manifest_doc "signature_algorithm") key.algorithm ≡ true
    pub signs : Signs crypto (canonical_payload manifest_doc) signature_hex key

  module _ (manifest_doc keys_doc : Fields) (require_fips : Bool) (clock : ℕ) where
    verify-Yields :
        Yields
          (λ u. IsVerified manifest_doc keys_doc require_fips clock)
          (verify_manifest_document crypto iso manifest_doc keys_doc require_fips clock)
    unfolding verify_manifest_document
    verify-Yields =
        Yields-guard
          (not require_fips
            || is_text (get manifest_doc "signature_algorithm") fips_ready_algorithm
              && is_text (get manifest_doc "crypto_profile") fips_ready_profile)
          _ _
          λ e1. Yields-or_raise (text_of (get manifest_doc "signer_ref")) _ _ λ signer_ref e2.
            Yields-or_raise (text_of (get manifest_doc "signature_hex")) _ _ λ signature_hex e3.
              Yields-bind (load_trusted_keys iso keys_doc none clock) _ λ keys e4.
                Yields-or_raise (lookup signer_ref keys) _ _ λ key e5.
                  Yields-guard (is_text (get manifest_doc "signature_algorithm") key.algorithm) _ _
                    λ e6. record {
                      at = λ u e7. record {
                        fips = e1;
                        signer_ref = signer_ref;
                        names_signer = text_of_sound _ e2;
                        signature_hex = signature_hex;
                        carries_signature = text_of_sound _ e3;
                        keys = keys;
                        loaded = e4;
                        key = key;
                        known = e5;
                        algorithm = e6;
                        signs = (verify_rsa_pss_sha256_iff crypto _ _ key).0 e7;
                      };
                    }

    verify_complete :
        IsVerified manifest_doc keys_doc require_fips clock
        → verify_manifest_document crypto iso manifest_doc keys_doc require_fips clock ≡ ok tt
    unfolding verify_manifest_document
    verify_complete v = guard_ok _ v.fips (
        or_raise_ok _ _ (ap text_of v.names_signer) (
          or_raise_ok _ _ (ap text_of v.carries_signature) (
            bind_ok _ v.loaded (
              or_raise_ok _ _ v.known (
                guard_ok _ v.algorithm ((verify_rsa_pss_sha256_iff crypto _ _ v.key).1 v.signs))))))

    -- `verify_manifest_document` accepts a manifest exactly if it names a key of the trusted keys,
    -- which all load and are live by the clock, of the manifest's algorithm, under which its
    -- signature verifies over its canonical payload; and, where `require_fips` is set, it has the
    -- required algorithm and profile.
    pub verify_manifest_document_iff :
        (verify_manifest_document crypto iso manifest_doc keys_doc require_fips clock ≡ ok tt)
        ↔ IsVerified manifest_doc keys_doc require_fips clock
    verify_manifest_document_iff = (verify-Yields.at tt, verify_complete)
