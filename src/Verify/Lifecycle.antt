-- ===== src/Verify/Lifecycle.antt =====
-- `validate_lifecycle` and `verify_rsa_pss_sha256` of verify.py: live keys and their signatures.
use nlboot.Base.{
  ℕ, ◌<◌, ◌≤◌, String, ◌≡◌, refl, ◌↔◌, true, false, Option, none, some, ok, arith, leb, Yields,
  Yields-or_raise, Yields-guard, or_raise_ok, guard_ok, true_of_guard,
}
use nlboot.Hex.{Bytes, from_hex}
use nlboot.Time.{now_or}
use nlboot.Crypto.{Crypto}
use nlboot.Verify.{
  KeyStatus, active, TrustedKey, is_active, is_some, too_early, too_late, validate_lifecycle,
  verify_rsa_pss_sha256,
}

-- The time is not before the one that is given, or none is given.
abbrev pub NotBefore : Option ℕ → ℕ → Type 0
NotBefore none current = Unit
NotBefore (some t) current = t ≤ current

-- The time is before the one that is given, or none is given.
abbrev pub NotAfter : Option ℕ → ℕ → Type 0
NotAfter none current = Unit
NotAfter (some t) current = current < t

pub record IsLive (key : TrustedKey) (current : ℕ) : Type 0 where
  pub status : key.status ≡ active
  pub not_revoked : key.revoked_at ≡ none
  pub started : NotBefore key.not_before current
  pub unexpired : NotAfter key.not_after current

too_early_iff : (t : Option ℕ) (current : ℕ) → (too_early t current ≡ false) ↔ NotBefore t current
too_early_iff none current = (λ _. tt, λ _. refl)
too_early_iff (some t) current = (λ h. ground arith, λ h. ground arith)

too_late_iff : (t : Option ℕ) (current : ℕ) → (too_late t current ≡ false) ↔ NotAfter t current
too_late_iff none current = (λ _. tt, λ _. refl)
too_late_iff (some t) current = (λ h. ground arith, λ h. ground arith)

is_active_sound : (s : KeyStatus) → is_active s ≡ true → s ≡ active
is_active_sound s h = ground arith

is_some_sound : (o : Option ℕ) → is_some o ≡ false → o ≡ none
is_some_sound none h = refl
is_some_sound (some t) h = cc

module _ (key : TrustedKey) (now : Option ℕ) (clock : ℕ) where
  lifecycle_sound : validate_lifecycle key now clock ≡ ok tt → IsLive key (now_or now clock)
  unfolding validate_lifecycle
  lifecycle_sound h = record {
    status = is_active_sound key.status (ground arith);
    not_revoked = is_some_sound key.revoked_at (ground arith);
    started = (too_early_iff key.not_before _).0 (ground arith);
    unexpired = (too_late_iff key.not_after _).0 (ground arith);
  }

  lifecycle_complete : IsLive key (now_or now clock) → validate_lifecycle key now clock ≡ ok tt
  unfolding validate_lifecycle
  lifecycle_complete l = rw (
    l.status,
    l.not_revoked,
    (too_early_iff key.not_before _).1 l.started,
    (too_late_iff key.not_after _).1 l.unexpired,
  )

  -- `validate_lifecycle` passes exactly if the key is active and has no revocation time, and the
  -- time is not before `not_before` and before `not_after`, where these are given.
  pub validate_lifecycle_iff :
      (validate_lifecycle key now clock ≡ ok tt) ↔ IsLive key (now_or now clock)
  validate_lifecycle_iff = (lifecycle_sound, lifecycle_complete)

module _ (crypto : Crypto) where
  -- The text is the hexadecimal form of a signature of the payload under the key, which is an RSA
  -- key of at least 2048 bits.
  pub record Signs (payload signature_hex : String) (trusted_key : TrustedKey) : Type 0 where
    pub signature : Bytes
    pub hex : from_hex signature_hex ≡ some signature
    pub key : crypto.PublicKey
    pub loads : crypto.load_pem_public_key trusted_key.public_key_pem ≡ some key
    pub rsa : crypto.is_rsa key ≡ true
    pub size : 2048 ≤ crypto.key_size key
    pub verified : crypto.verify key signature payload ≡ true

  signature-Yields :
      (payload signature_hex : String) (trusted_key : TrustedKey)
      → Yields
          (λ u. Signs payload signature_hex trusted_key)
          (verify_rsa_pss_sha256 crypto payload signature_hex trusted_key)
  unfolding verify_rsa_pss_sha256
  signature-Yields payload signature_hex trusted_key =
      Yields-or_raise (from_hex signature_hex) _ _ λ signature e1.
        Yields-or_raise (crypto.load_pem_public_key trusted_key.public_key_pem) _ _ λ key e2.
          Yields-guard (crypto.is_rsa key) _ _ λ e3.
            Yields-guard (leb 2048 (crypto.key_size key)) _ _ λ e4. record {
              at = λ u e5. record {
                signature = signature;
                hex = e1;
                key = key;
                loads = e2;
                rsa = e3;
                size = ground arith;
                verified = true_of_guard _ _ e5;
              };
            }

  size_test :
      (key : crypto.PublicKey) → 2048 ≤ crypto.key_size key → leb 2048 (crypto.key_size key) ≡ true
  size_test key h = ground arith

  signature_complete :
      (payload signature_hex : String) (trusted_key : TrustedKey)
      → Signs payload signature_hex trusted_key
      → verify_rsa_pss_sha256 crypto payload signature_hex trusted_key ≡ ok tt
  unfolding verify_rsa_pss_sha256
  signature_complete payload signature_hex trusted_key s = or_raise_ok _ _ s.hex (
      or_raise_ok _ _ s.loads
        (guard_ok _ s.rsa (guard_ok _ (size_test s.key s.size) (rw s.verified))))

  -- `verify_rsa_pss_sha256` passes exactly if the signature is hexadecimal, the trusted key loads
  -- as an RSA key of at least 2048 bits, and the signature verifies under it.
  pub verify_rsa_pss_sha256_iff :
      (payload signature_hex : String) (trusted_key : TrustedKey)
      → (verify_rsa_pss_sha256 crypto payload signature_hex trusted_key ≡ ok tt)
        ↔ Signs payload signature_hex trusted_key
  verify_rsa_pss_sha256_iff payload signature_hex trusted_key = (
    (signature-Yields payload signature_hex trusted_key).at tt,
    signature_complete payload signature_hex trusted_key,
  )
