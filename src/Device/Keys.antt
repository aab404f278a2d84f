-- ===== src/Device/Keys.antt =====
-- `_load_public_key` and `device_fingerprint` of device.py: which texts hold a key, and its id.
use nlboot.Base.{
  ℕ, ◌≤◌, String, ◌≡◌, refl, sym, ◌∙◌, true, some, ok, arith, leb, Yields, Yields-bind,
  Yields-or_raise, Yields-guard, Yields-ok, bind_ok, or_raise_ok, guard_ok, ok-injective,
}
use Prim.Native.String.{◌++◌ as append}
use nlboot.Text.{has_part}
use nlboot.Crypto.{Crypto}
use nlboot.Device.{load_public_key, device_fingerprint, device_id_prefix, rsa_key_size}

module _ (crypto : Crypto) where
  -- A text that is a PEM block of an RSA key of at least 2048 bits.
  pub record HoldsKey (public_key_pem : String) (key : crypto.PublicKey) : Type 0 where
    pub block : has_part public_key_pem "BEGIN PUBLIC KEY" ≡ true
    pub loads : crypto.load_pem_public_key public_key_pem ≡ some key
    pub rsa : crypto.is_rsa key ≡ true
    pub size : rsa_key_size ≤ crypto.key_size key

  pub load_sound : (pem : String) → Yields (HoldsKey pem) (load_public_key crypto pem)
  unfolding load_public_key
  load_sound pem = Yields-guard (has_part pem "BEGIN PUBLIC KEY") _ _ λ e1.
      Yields-or_raise (crypto.load_pem_public_key pem) _ _ λ key e2.
        Yields-guard (crypto.is_rsa key) _ _ λ e3.
          Yields-guard (leb rsa_key_size (crypto.key_size key)) _ _
            λ e4. Yields-ok _ (record { block = e1; loads = e2; rsa = e3; size = ground arith })

  le→leb : (a b : ℕ) → a ≤ b → leb a b ≡ true
  le→leb a b h = ground arith

  pub load_complete :
      (pem : String) (key : crypto.PublicKey)
      → HoldsKey pem key
      → load_public_key crypto pem ≡ ok key
  unfolding load_public_key
  load_complete pem key h = guard_ok _ h.block (
      or_raise_ok _ _ h.loads
        (guard_ok _ h.rsa (guard_ok _ (le→leb rsa_key_size (crypto.key_size key) h.size) refl)))

  -- The device id of a key.
  abbrev pub device_id_of : crypto.PublicKey → String
  device_id_of key = append device_id_prefix (append "sha256:" (crypto.sha256 (crypto.der key)))

  pub fingerprint_sound :
      (pem : String)
      → Yields
          (λ id. (key : crypto.PublicKey) × HoldsKey pem key × (id ≡ device_id_of key))
          (device_fingerprint crypto pem)
  unfolding device_fingerprint
  fingerprint_sound pem =
      Yields-bind (load_public_key crypto pem) _
        λ key e. Yields-ok _ (key, (load_sound pem).at key e, refl)

  pub fingerprint_complete :
      (pem : String) (key : crypto.PublicKey)
      → HoldsKey pem key
      → device_fingerprint crypto pem ≡ ok (device_id_of key)
  unfolding device_fingerprint
  fingerprint_complete pem key h = bind_ok _ (load_complete pem key h) refl

  -- Two texts that hold the same key have the same fingerprint, whatever else they hold.
  pub device_fingerprint-same_key :
      (pem other : String) (key : crypto.PublicKey)
      → HoldsKey pem key
      → HoldsKey other key
      → device_fingerprint crypto pem ≡ device_fingerprint crypto other
  device_fingerprint-same_key pem other key h k =
      fingerprint_complete pem key h ∙ sym (fingerprint_complete other key k)

module _ (crypto : Crypto) where
  pub fingerprint_of :
      (pem : String) (key : crypto.PublicKey) (id : String)
      → load_public_key crypto pem ≡ ok key
      → device_fingerprint crypto pem ≡ ok id
      → device_id_of crypto key ≡ id
  fingerprint_of pem key id loaded printed =
      ok-injective _ id (
        sym (fingerprint_complete crypto pem key ((load_sound crypto pem).at key loaded)) ∙ printed)
