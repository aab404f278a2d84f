-- ===== src/Crypto.antt =====
-- The interface of the `cryptography` package and of `hashlib`, which the source calls: RSA keys,
-- RSA-PSS signatures with SHA-256 and a salt of 32 bytes, and SHA-256 digests. A payload is the
-- text that the source encodes in UTF-8.
use nlboot.Base.{ℕ, ◌<◌, String, ◌≡◌, Bool, true, Option, some, All}
use nlboot.Text.{has_part}
use nlboot.Hex.{Bytes}

pub record Crypto : Type 1 where
  pub PublicKey : Type 0
  pub PrivateKey : Type 0
  -- `serialization.load_pem_public_key`; `none` is the `ValueError`.
  pub load_pem_public_key : String → Option PublicKey
  -- `isinstance(key, rsa.RSAPublicKey)` and `key.key_size`
  pub is_rsa : PublicKey → Bool
  pub key_size : PublicKey → ℕ
  -- `public_bytes` in the encodings PEM and DER
  pub pem : PublicKey → String
  pub der : PublicKey → Bytes
  -- `key.verify(signature, payload, …)` raises no `InvalidSignature`.
  pub verify : PublicKey → Bytes → String → Bool
  -- `load_pem_private_key`, with the password; `none` is its `ValueError` or `TypeError`.
  pub load_pem_private_key : String → Option Bytes → Option PrivateKey
  pub is_rsa_private : PrivateKey → Bool
  pub public_key : PrivateKey → PublicKey
  -- `private_bytes` in PEM and PKCS8, with no encryption
  pub private_pem : PrivateKey → String
  -- `rsa.generate_private_key` for an exponent and a size, and `key.sign`, over their randomness
  pub generate_private_key : ℕ → ℕ → ℕ → PrivateKey
  pub sign : PrivateKey → ℕ → String → Bytes
  -- `hashlib.sha256(…).hexdigest()` of bytes, and of a text in UTF-8
  pub sha256 : Bytes → String
  pub sha256_text : String → String

-- What the package's documentation states of RSA keys: an RSA private key has an RSA public key,
-- whose PEM encoding is a `PUBLIC KEY` block that loads to the key again, and which verifies what the
-- private key signs; a signature is bytes.
pub record RsaLaws (crypto : Crypto) (key : crypto.PrivateKey) : Type 0 where
  pub rsa : crypto.is_rsa (crypto.public_key key) ≡ true
  pub block : has_part (crypto.pem (crypto.public_key key)) "BEGIN PUBLIC KEY" ≡ true
  pub load_pem :
      crypto.load_pem_public_key (crypto.pem (crypto.public_key key)) ≡ some (crypto.public_key key)
  pub verify-sign :
      (random : ℕ) (payload : String)
      → crypto.verify (crypto.public_key key) (crypto.sign key random payload) payload ≡ true
  pub sign_bytes :
      (random : ℕ) (payload : String) → All (λ b. b < 256) (crypto.sign key random payload)
