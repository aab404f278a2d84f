-- ===== src/Device/Own.antt =====
-- The claims that a device with a generated identity makes of itself.
use nlboot.Base.{
  ℕ, ◌≤◌, String, ◌≡◌, refl, sym, ap, ◌∙◌, true, Option, some, ok, ok-injective, Yields,
  Yields-guard, Yields-ok,
}
use nlboot.Text.{has_text}
use nlboot.Time.{IsoFormat}
use nlboot.Crypto.{Crypto, RsaLaws}
use nlboot.Device.{
  DeviceIdentity, DeviceClaim, rsa_public_exponent, rsa_key_size, generate, make_claim, verify,
}
use nlboot.Device.Claims.{generate-make_claim-verify}

module _ (crypto : Crypto) (iso : IsoFormat) where
  -- A claim is made for a nonce that is not blank, and holds it and the identity's device id.
  abbrev OwnClaim : DeviceIdentity crypto → String → DeviceClaim → Type 0
  OwnClaim identity nonce claim =
      (has_text nonce ≡ true) × (claim.device_id ≡ identity.device_id) × (claim.nonce ≡ nonce)

  make_claim-OwnClaim :
      (identity : DeviceIdentity crypto) (nonce : String) (claimed_at : Option ℕ) (clock random : ℕ)
      → Yields
          (OwnClaim identity nonce)
          (make_claim crypto iso identity nonce claimed_at clock random)
  unfolding make_claim
  make_claim-OwnClaim identity nonce claimed_at clock random =
      Yields-guard (has_text nonce) _ _ λ filled. Yields-ok _ (filled, refl, refl)

  -- A claim of a device with a generated key that obeys the laws of RSA is accepted for its nonce.
  pub own_claim :
      (seed : ℕ)
      → RsaLaws crypto (crypto.generate_private_key rsa_public_exponent rsa_key_size seed)
      → rsa_key_size
        ≤ crypto.key_size
            (crypto.public_key (crypto.generate_private_key rsa_public_exponent rsa_key_size seed))
      → (identity : DeviceIdentity crypto) (nonce : String) (claimed_at : Option ℕ)
        (clock random : ℕ) (claim : DeviceClaim)
      → generate crypto seed ≡ ok identity
      → make_claim crypto iso identity nonce claimed_at clock random ≡ ok claim
      → (verify crypto iso claim (some nonce) ≡ ok tt)
        × (claim.device_id ≡ identity.device_id)
        × (claim.nonce ≡ nonce)
  own_claim seed laws size identity nonce claimed_at clock random claim made claimed =
      let (filled, device, same_nonce) =
        (make_claim-OwnClaim identity nonce claimed_at clock random).at claim claimed in
      let (identity', claim', made', claimed', verified, _) =
        generate-make_claim-verify crypto iso seed laws size nonce claimed_at clock random filled in
      let same_identity = ok-injective identity' identity (sym made' ∙ made) in
      let same_claim = ok-injective claim' claim (
        sym claimed'
        ∙ ap (λ i. make_claim crypto iso i nonce claimed_at clock random) same_identity
        ∙ claimed) in
      (ap (λ c. verify crypto iso c (some nonce)) (sym same_claim) ∙ verified, device, same_nonce)
