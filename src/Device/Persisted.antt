-- ===== src/Device/Persisted.antt =====
-- `private_key_pem` and `from_private_key_pem` of device.py: an identity that is stored and loaded.
use nlboot.Base.{
  ℕ, ◌≡◌, refl, ap, ◌∙◌, true, none, some, ok, Yields, Yields-bind, Yields-ok, or_raise_ok,
  guard_ok,
}
use nlboot.Crypto.{Crypto}
use nlboot.Device.{
  DeviceIdentity, identity_of, device_fingerprint, rsa_public_exponent, rsa_key_size, generate,
  from_private_key_pem, private_key_pem,
}

-- A private key's PEM text, without a password, loads as that key, which is one of RSA.
pub record StoredLaws (crypto : Crypto) (private : crypto.PrivateKey) : Type 0 where
  pub load_private : crypto.load_pem_private_key (crypto.private_pem private) none ≡ some private
  pub rsa_private : crypto.is_rsa_private private ≡ true

module _ (crypto : Crypto) where
  identity_of_key :
      (private : crypto.PrivateKey)
      → Yields (λ identity. identity.private_key ≡ private) (identity_of crypto private)
  unfolding identity_of
  identity_of_key private =
      Yields-bind (device_fingerprint crypto (crypto.pem (crypto.public_key private))) _
        λ device_id e. Yields-ok _ refl

  loaded_again :
      (private : crypto.PrivateKey) (identity : DeviceIdentity crypto)
      → StoredLaws crypto private
      → identity_of crypto private ≡ ok identity
      → from_private_key_pem crypto (private_key_pem crypto identity) none ≡ ok identity
  unfolding from_private_key_pem private_key_pem
  loaded_again private identity laws made =
      let same = (identity_of_key private).at identity made in
      or_raise_ok _ _
        (ap (λ k. crypto.load_pem_private_key (crypto.private_pem k) none) same ∙ laws.load_private)
        (guard_ok _ laws.rsa_private made)

  -- `DeviceIdentity.from_private_key_pem` reads back the generated identity whose private key
  -- `private_key_pem` wrote without a password, for a key whose PEM text loads as that key and as
  -- one of RSA.
  pub from_private_key_pem-private_key_pem :
      (seed : ℕ) (identity : DeviceIdentity crypto)
      → StoredLaws crypto (crypto.generate_private_key rsa_public_exponent rsa_key_size seed)
      → generate crypto seed ≡ ok identity
      → from_private_key_pem crypto (private_key_pem crypto identity) none ≡ ok identity
  unfolding generate
  from_private_key_pem-private_key_pem seed identity laws made =
      loaded_again (crypto.generate_private_key rsa_public_exponent rsa_key_size seed) identity laws
        made
