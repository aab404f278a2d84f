-- ===== src/Device/Documents.antt =====
-- `DeviceClaim.from_dict` and `to_dict` of device.py: the documents of claims.
use text.Mathlib.Text.{starts_with}
use nlboot.Base.{
  ℕ, ◌≤◌, String, ◌≡◌, refl, ◌↔◌, true, ok, arith, ◌==◌, eq_iff, Yields, Yields-bind, Yields-guard,
  Yields-ok, bind_ok, guard_ok,
}
use nlboot.Text.{has_text}
use nlboot.Json.{Fields}
use nlboot.Time.{Reading, aware, IsoFormat, zulu_to_offset, last_instant}
use nlboot.Time.Laws.{fromisoformat-zulu, has_text-zulu}
use nlboot.Protocol.Checks.{TextAt, require_text_iff}
use nlboot.Device.{
  DeviceClaim, must_be_text, device_id_prefix, fips_ready_algorithm, fips_ready_profile,
  require_string, utc_of, parse_time, zulu_time, from_dict, to_dict,
}

TextAt-iff :
    (fields : Fields) (key : String) {s : String}
    → (require_string fields key ≡ ok s) ↔ TextAt fields key s
unfolding require_string
TextAt-iff fields key = require_text_iff (must_be_text key) fields key

utc_of_sound : (r : Reading) (key : String) {t : ℕ} → utc_of r key ≡ ok t → r ≡ aware t
utc_of_sound (aware t) key h = ground arith
utc_of_sound _ key h = cc

-- The fields of a claim that can be read: no text is blank, and the rest is as required.
pub record IsReadable (claim : DeviceClaim) : Type 0 where
  pub device_id : has_text claim.device_id ≡ true
  pub public_key_pem : has_text claim.public_key_pem ≡ true
  pub nonce : has_text claim.nonce ≡ true
  pub claimed_at : claim.claimed_at ≤ last_instant
  pub signature_algorithm : claim.signature_algorithm ≡ fips_ready_algorithm
  pub crypto_profile : claim.crypto_profile ≡ fips_ready_profile
  pub signature_hex : has_text claim.signature_hex ≡ true
  pub device_urn : starts_with claim.device_id device_id_prefix ≡ true

module _ (iso : IsoFormat) where
  claim_time_iff :
      (value key : String) {t : ℕ}
      → (parse_time iso value key ≡ ok t) ↔ (iso.fromisoformat (zulu_to_offset value) ≡ aware t)
  unfolding parse_time
  claim_time_iff value key = (utc_of_sound _ key, λ e. rw e)

  -- The document of a claim.
  pub record EncodesClaim (fields : Fields) (claim : DeviceClaim) : Type 0 where
    pub device_id : TextAt fields "device_id" claim.device_id
    pub public_key_pem : TextAt fields "public_key_pem" claim.public_key_pem
    pub nonce : TextAt fields "nonce" claim.nonce
    pub claimed_text : String
    pub claimed_at : TextAt fields "claimed_at" claimed_text
    pub claimed_read : iso.fromisoformat (zulu_to_offset claimed_text) ≡ aware claim.claimed_at
    pub signature_algorithm : TextAt fields "signature_algorithm" claim.signature_algorithm
    pub crypto_profile : TextAt fields "crypto_profile" claim.crypto_profile
    pub signature_hex : TextAt fields "signature_hex" claim.signature_hex
    pub algorithm_is_fips : claim.signature_algorithm ≡ fips_ready_algorithm
    pub profile_is_fips : claim.crypto_profile ≡ fips_ready_profile
    pub device_urn : starts_with claim.device_id device_id_prefix ≡ true

  claim_sound : (fields : Fields) → Yields (EncodesClaim fields) (from_dict iso fields)
  unfolding from_dict
  claim_sound fields =
      let text = require_string fields in
      Yields-bind (text "device_id") _ λ device_id e1.
        Yields-bind (text "public_key_pem") _ λ public_key_pem e2.
          Yields-bind (text "nonce") _ λ nonce e3.
            Yields-bind (text "claimed_at") _ λ claimed_text e4.
              Yields-bind (parse_time iso claimed_text "claimed_at") _ λ claimed_at e5.
                Yields-bind (text "signature_algorithm") _ λ signature_algorithm e6.
                  Yields-bind (text "crypto_profile") _ λ crypto_profile e7.
                    Yields-bind (text "signature_hex") _ λ signature_hex e8.
                      Yields-guard (signature_algorithm == fips_ready_algorithm) _ _ λ e9.
                        Yields-guard (crypto_profile == fips_ready_profile) _ _ λ e10.
                          Yields-guard (starts_with device_id device_id_prefix) _ _ λ e11.
                            Yields-ok (EncodesClaim fields) (record {
                              device_id = (TextAt-iff fields "device_id").0 e1;
                              public_key_pem = (TextAt-iff fields "public_key_pem").0 e2;
                              nonce = (TextAt-iff fields "nonce").0 e3;
                              claimed_text = claimed_text;
                              claimed_at = (TextAt-iff fields "claimed_at").0 e4;
                              claimed_read = (claim_time_iff claimed_text "claimed_at").0 e5;
                              signature_algorithm = (TextAt-iff fields "signature_algorithm").0 e6;
                              crypto_profile = (TextAt-iff fields "crypto_profile").0 e7;
                              signature_hex = (TextAt-iff fields "signature_hex").0 e8;
                              algorithm_is_fips = (eq_iff _ _).0 e9;
                              profile_is_fips = (eq_iff _ _).0 e10;
                              device_urn = e11;
                            })

  claim_complete :
      (fields : Fields) (claim : DeviceClaim)
      → EncodesClaim fields claim
      → from_dict iso fields ≡ ok claim
  unfolding from_dict
  claim_complete fields claim h = bind_ok _ ((TextAt-iff fields "device_id").1 h.device_id) (
      bind_ok _ ((TextAt-iff fields "public_key_pem").1 h.public_key_pem) (
        bind_ok _ ((TextAt-iff fields "nonce").1 h.nonce) (
          bind_ok _ ((TextAt-iff fields "claimed_at").1 h.claimed_at) (
            bind_ok _ ((claim_time_iff h.claimed_text "claimed_at").1 h.claimed_read) (
              bind_ok _ ((TextAt-iff fields "signature_algorithm").1 h.signature_algorithm) (
                bind_ok _ ((TextAt-iff fields "crypto_profile").1 h.crypto_profile) (
                  bind_ok _ ((TextAt-iff fields "signature_hex").1 h.signature_hex) (
                    guard_ok _ ((eq_iff _ _).1 h.algorithm_is_fips) (
                      guard_ok _ ((eq_iff _ _).1 h.profile_is_fips)
                        (guard_ok _ h.device_urn refl))))))))))

  -- `DeviceClaim.from_dict` accepts exactly the documents whose texts are there and not blank,
  -- whose time is a time with a zone, with the required algorithm and profile and a device id that
  -- begins as a SourceOS device URN; and it returns the claim that the document encodes.
  pub claim_from_dict_iff :
      (fields : Fields) (claim : DeviceClaim)
      → (from_dict iso fields ≡ ok claim) ↔ EncodesClaim fields claim
  claim_from_dict_iff fields claim = ((claim_sound fields).at claim, claim_complete fields claim)

  -- A claim whose texts are not blank, whose algorithm and profile are the required ones, whose
  -- device id is a SourceOS device URN and whose time is at most the year 9999 is read back from
  -- the document that `to_dict` writes.
  pub claim_from_dict-to_dict :
      (claim : DeviceClaim) → IsReadable claim → from_dict iso (to_dict iso claim) ≡ ok claim
  unfolding to_dict zulu_time has_text
  claim_from_dict-to_dict claim r = (claim_from_dict_iff _ claim).1 (record {
    device_id = (refl, r.device_id);
    public_key_pem = (refl, r.public_key_pem);
    nonce = (refl, r.nonce);
    claimed_text = _;
    claimed_at = (refl, has_text-zulu iso claim.claimed_at);
    claimed_read = fromisoformat-zulu iso claim.claimed_at r.claimed_at;
    signature_algorithm = (refl, rw r.signature_algorithm refl);
    crypto_profile = (refl, rw r.crypto_profile refl);
    signature_hex = (refl, r.signature_hex);
    algorithm_is_fips = r.signature_algorithm;
    profile_is_fips = r.crypto_profile;
    device_urn = r.device_urn;
  })
