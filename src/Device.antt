-- ===== src/Device.antt =====
-- device.py: device identities and device claims.
pub mod Keys
pub mod Claims
pub mod Own
pub mod Persisted
pub mod Documents
pub mod Binding
pub mod Schema
pub mod Conforms
pub mod Stamps
use Prim.Native.String.{◌++◌ as append}
use text.Mathlib.Text.{starts_with}
use nlboot.Base.{
  ℕ, String, Bool, true, Option, none, some, ◌==◌, Result, ok, err, ◌>>=◌, ◌>>◌, guard, or_raise,
  leb,
}
use nlboot.Text.{has_text, has_part}
use nlboot.Json.{str, obj, Fields, end, field}
use nlboot.Json.Dump.{dumps}
use nlboot.Hex.{Bytes, to_hex, from_hex}
use nlboot.Time.{
  Reading, malformed, naive, aware, out_of_range, IsoFormat, zulu_to_offset, offset_to_zulu, now_or,
}
use nlboot.Crypto.{Crypto}
use nlboot.Protocol.Checks.{require_text}

pub data DeviceError : Type 0 where
  must_be_text not_iso no_timezone : String → DeviceError
  -- No `DeviceError` but the `OverflowError` of `astimezone`.
  time_overflow : String → DeviceError
  not_pem_block bad_pem not_rsa key_too_small : DeviceError
  bad_private_pem private_not_rsa blank_nonce : DeviceError
  wrong_algorithm wrong_profile not_device_urn : DeviceError
  fingerprint_mismatch nonce_mismatch not_hex bad_signature : DeviceError

abbrev pub fips_ready_algorithm : String
fips_ready_algorithm = "rsa-pss-sha256"

abbrev pub fips_ready_profile : String
fips_ready_profile = "fips-140-3-compatible"

abbrev pub device_id_prefix : String
device_id_prefix = "urn:srcos:device:"

abbrev pub rsa_public_exponent : ℕ
rsa_public_exponent = 65537

abbrev pub rsa_key_size : ℕ
rsa_key_size = 2048

pub record DeviceClaim : Type 0 where
  pub device_id : String
  pub public_key_pem : String
  pub nonce : String
  pub claimed_at : ℕ
  pub signature_algorithm : String
  pub crypto_profile : String
  pub signature_hex : String

pub record DeviceIdentity (crypto : Crypto) : Type 0 where
  pub device_id : String
  pub public_key_pem : String
  pub private_key : crypto.PrivateKey

-- `_require_string` of device.py
unfoldable pub require_string : Fields → String → Result DeviceError String
require_string fields key = require_text (must_be_text key) fields key

abbrev pub utc_of : Reading → String → Result DeviceError ℕ
utc_of malformed key = err (not_iso key)
utc_of (naive t) key = err (no_timezone key)
utc_of (aware t) key = ok t
utc_of out_of_range key = err (time_overflow key)

module _ (crypto : Crypto) where
  -- `_load_public_key`
  unfoldable pub load_public_key : String → Result DeviceError crypto.PublicKey
  load_public_key public_key_pem = do
    guard (has_part public_key_pem "BEGIN PUBLIC KEY") not_pem_block
    public_key ← or_raise (crypto.load_pem_public_key public_key_pem) bad_pem
    guard (crypto.is_rsa public_key) not_rsa
    guard (leb rsa_key_size (crypto.key_size public_key)) key_too_small
    ok public_key

  unfoldable pub device_fingerprint : String → Result DeviceError String
  device_fingerprint public_key_pem = do
    public_key ← load_public_key public_key_pem
    let digest = crypto.sha256 (crypto.der public_key)
    ok (append device_id_prefix (append "sha256:" digest))

  -- The part that `generate` and `from_private_key_pem` share.
  pub identity_of : crypto.PrivateKey → Result DeviceError (DeviceIdentity crypto)
  unfolding device_fingerprint load_public_key
  identity_of private_key = do
    let public_key_pem = crypto.pem (crypto.public_key private_key)
    device_id ← device_fingerprint public_key_pem
    ok (record {
      device_id = device_id;
      public_key_pem = public_key_pem;
      private_key = private_key;
    })

  -- `DeviceIdentity.generate`, over the randomness of the key
  unfoldable pub generate : ℕ → Result DeviceError (DeviceIdentity crypto)
  unfolding identity_of
  generate random =
      identity_of (crypto.generate_private_key rsa_public_exponent rsa_key_size random)

  -- `DeviceIdentity.from_private_key_pem`
  pub from_private_key_pem : String → Option Bytes → Result DeviceError (DeviceIdentity crypto)
  unfolding identity_of
  from_private_key_pem private_key_pem password = do
    private_key ← or_raise (crypto.load_pem_private_key private_key_pem password) bad_private_pem
    guard (crypto.is_rsa_private private_key) private_not_rsa
    identity_of private_key

  -- `DeviceIdentity.private_key_pem`
  pub private_key_pem : DeviceIdentity crypto → String
  private_key_pem identity = crypto.private_pem identity.private_key

module _ (iso : IsoFormat) where
  -- `_parse_time`
  unfoldable pub parse_time : String → String → Result DeviceError ℕ
  parse_time value key = utc_of (iso.fromisoformat (zulu_to_offset value)) key

  -- `claimed_at.astimezone(timezone.utc).isoformat().replace("+00:00", "Z")`
  unfoldable pub zulu_time : ℕ → String
  zulu_time t = offset_to_zulu (iso.isoformat t)

  -- `DeviceClaim._signing_payload`
  pub signing_payload : String → String → String → ℕ → String
  unfolding zulu_time
  signing_payload device_id public_key_pem nonce claimed_at = dumps (
      obj (
        field "device_id" (str device_id) (
          field "public_key_pem" (str public_key_pem)
            (field "nonce" (str nonce) (field "claimed_at" (str (zulu_time claimed_at)) end)))))

  -- `DeviceClaim.from_dict`
  unfoldable pub from_dict : Fields → Result DeviceError DeviceClaim
  unfolding require_string parse_time
  from_dict fields = do
    device_id ← require_string fields "device_id"
    public_key_pem ← require_string fields "public_key_pem"
    nonce ← require_string fields "nonce"
    claimed_text ← require_string fields "claimed_at"
    claimed_at ← parse_time claimed_text "claimed_at"
    signature_algorithm ← require_string fields "signature_algorithm"
    crypto_profile ← require_string fields "crypto_profile"
    signature_hex ← require_string fields "signature_hex"
    guard (signature_algorithm == fips_ready_algorithm) wrong_algorithm
    guard (crypto_profile == fips_ready_profile) wrong_profile
    guard (starts_with device_id device_id_prefix) not_device_urn
    ok (record {
      device_id = device_id;
      public_key_pem = public_key_pem;
      nonce = nonce;
      claimed_at = claimed_at;
      signature_algorithm = signature_algorithm;
      crypto_profile = crypto_profile;
      signature_hex = signature_hex;
    })

  -- `DeviceClaim.to_dict`
  unfoldable pub to_dict : DeviceClaim → Fields
  unfolding zulu_time
  to_dict claim = field "device_id" (str claim.device_id) (
      field "public_key_pem" (str claim.public_key_pem) (
        field "nonce" (str claim.nonce) (
          field "claimed_at" (str (zulu_time claim.claimed_at)) (
            field "signature_algorithm" (str claim.signature_algorithm) (
              field "crypto_profile" (str claim.crypto_profile)
                (field "signature_hex" (str claim.signature_hex) end))))))

-- `expected_nonce is not None and self.nonce != expected_nonce` does not hold.
abbrev pub nonce_fits : String → Option String → Bool
nonce_fits nonce none = true
nonce_fits nonce (some expected) = nonce == expected

module _ (crypto : Crypto) (iso : IsoFormat) where
  -- `DeviceIdentity.make_claim`, over the randomness of the signature
  unfoldable pub make_claim :
      DeviceIdentity crypto → String → Option ℕ → ℕ → ℕ → Result DeviceError DeviceClaim
  make_claim identity nonce claimed_at clock random = do
    guard (has_text nonce) blank_nonce
    let when = now_or claimed_at clock
    let payload = signing_payload iso identity.device_id identity.public_key_pem nonce when
    ok (record {
      device_id = identity.device_id;
      public_key_pem = identity.public_key_pem;
      nonce = nonce;
      claimed_at = when;
      signature_algorithm = fips_ready_algorithm;
      crypto_profile = fips_ready_profile;
      signature_hex = to_hex (crypto.sign identity.private_key random payload);
    })

  -- `DeviceClaim.verify`
  unfoldable pub verify : DeviceClaim → Option String → Result DeviceError (Unit {0})
  verify claim expected_nonce = do
    fingerprint ← device_fingerprint crypto claim.public_key_pem
    guard (fingerprint == claim.device_id) fingerprint_mismatch
    guard (nonce_fits claim.nonce expected_nonce) nonce_mismatch
    public_key ← load_public_key crypto claim.public_key_pem
    signature ← or_raise (from_hex claim.signature_hex) not_hex
    let payload =
        signing_payload iso claim.device_id claim.public_key_pem claim.nonce claim.claimed_at
    guard (crypto.verify public_key signature payload) bad_signature
