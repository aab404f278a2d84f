-- ===== src/Verify.antt =====
-- verify.py: trusted keys, trust bundles and signature checks.
pub mod Lifecycle
pub mod Keys
pub mod Bundle
pub mod Payload
pub mod Sorted
pub mod Binding
use nlboot.Base.{
  ℕ, String, Bool, true, false, not, ◌||◌, Option, none, some, [], ◌==◌, Result, ok, err, ◌>>=◌,
  ◌>>◌, guard, or_raise, ltb, leb, Dict, lookup, insert, if◌then◌else◌,
}
use nlboot.Text.{non_empty, has_part}
use nlboot.Json.{
  Value, Items, Fields, null, str, arr, obj, nil, cons, end, field, get, get_or, is_text, text_of,
  array_of, object_of,
}
use nlboot.Json.Dump.{dumps}
use nlboot.Hex.{from_hex}
use nlboot.Time.{Reading, malformed, naive, aware, out_of_range, IsoFormat, zulu_to_offset, now_or}
use nlboot.Crypto.{Crypto}

pub data VerificationError : Type 0 where
  not_iso no_timezone : String → VerificationError
  -- No `VerificationError` but the `OverflowError` of `astimezone`, the `TypeError` of `in` on a
  -- value that has no hash, and the `ValueError` of `load_pem_public_key`.
  time_overflow : String → VerificationError
  unhashable_status bad_pem : VerificationError
  -- TrustedKey
  no_key_ref wrong_algorithm no_public_key unsupported_status reason_not_text : VerificationError
  key_revoked key_inactive key_early key_expired : String → VerificationError
  -- verify_rsa_pss_sha256
  not_hex not_rsa key_too_small bad_signature : VerificationError
  -- load_trusted_keys
  keys_not_array key_not_object : VerificationError
  -- load_verified_trust_bundle
  no_bundle_id no_signer_ref no_signature_hex bundle_algorithm bundle_profile : VerificationError
  unknown_root : String → VerificationError
  -- cli.verify_manifest_document
  fips_required signer_ref_not_text signature_hex_not_text key_algorithm_mismatch :
      VerificationError
  unknown_key : String → VerificationError

abbrev pub fips_ready_algorithm : String
fips_ready_algorithm = "rsa-pss-sha256"

abbrev pub fips_ready_profile : String
fips_ready_profile = "fips-140-3-compatible"

pub data KeyStatus : Type 0 where
  active retired revoked : KeyStatus

pub record TrustedKey : Type 0 where
  pub key_ref : String
  pub algorithm : String
  pub public_key_pem : String
  pub status : KeyStatus
  pub not_before : Option ℕ
  pub not_after : Option ℕ
  pub revoked_at : Option ℕ
  pub revocation_reason : Option String

-- `isinstance(value, str) and value`, with the text
abbrev pub filled_text : Value → Option String
filled_text (str s) = if non_empty s then some s else none
filled_text _ = none

abbrev pub key_status_of : String → Result VerificationError KeyStatus
key_status_of s =
    if s == "active"
    then ok active
    else if s == "retired"
    then ok retired
    else if s == "revoked"
    then ok revoked
    else err unsupported_status

-- `status not in {"active", "retired", "revoked"}`: a list or an object has no hash.
abbrev pub read_status : Value → Result VerificationError KeyStatus
read_status (str s) = key_status_of s
read_status (arr xs) = err unhashable_status
read_status (obj fs) = err unhashable_status
read_status _ = err unsupported_status

-- `isinstance(public_key_pem, str)` and it holds the header of a PEM block.
abbrev pub read_pem : Value → Option String
read_pem (str s) = if has_part s "BEGIN PUBLIC KEY" then some s else none
read_pem _ = none

abbrev pub read_reason : Value → Option (Option String)
read_reason null = some none
read_reason (str s) = some (some s)
read_reason _ = none

abbrev pub utc_of : Reading → String → Result VerificationError ℕ
utc_of malformed key = err (not_iso key)
utc_of (naive t) key = err (no_timezone key)
utc_of (aware t) key = ok t
utc_of out_of_range key = err (time_overflow key)

-- `validate_lifecycle` at the time `current`
abbrev pub too_early : Option ℕ → ℕ → Bool
too_early none current = false
too_early (some t) current = ltb current t

abbrev pub too_late : Option ℕ → ℕ → Bool
too_late none current = false
too_late (some t) current = leb t current

abbrev pub is_revoked : KeyStatus → Bool
is_revoked revoked = true
is_revoked _ = false

abbrev pub is_active : KeyStatus → Bool
is_active active = true
is_active _ = false

abbrev pub is_some : Option ℕ → Bool
is_some none = false
is_some (some t) = true

unfoldable pub validate_lifecycle : TrustedKey → Option ℕ → ℕ → Result VerificationError (Unit {0})
validate_lifecycle key now clock = do
  let current = now_or now clock
  guard (not (is_revoked key.status || is_some key.revoked_at)) (key_revoked key.key_ref)
  guard (is_active key.status) (key_inactive key.key_ref)
  guard (not (too_early key.not_before current)) (key_early key.key_ref)
  guard (not (too_late key.not_after current)) (key_expired key.key_ref)

-- `{k: v for k, v in data.items() if k != skipped}`
abbrev pub without : String → Fields → Fields
without skipped end = end
without skipped (field k v rest) =
    if k == skipped then without skipped rest else field k v (without skipped rest)

unfoldable pub canonical_payload : Fields → String
canonical_payload fields = dumps (obj (without "signature_hex" fields))

unfoldable pub canonical_trust_bundle_payload : Fields → String
canonical_trust_bundle_payload fields =
    dumps (obj (without "signatures" (without "signature_hex" fields)))

module _ (iso : IsoFormat) where
  -- `_parse_time(raw, field=…) if isinstance(raw, str) else None`
  pub optional_time : Value → String → Result VerificationError (Option ℕ)
  optional_time (str s) key = do t ← utc_of (iso.fromisoformat (zulu_to_offset s)) key; ok (some t)
  optional_time _ key = ok none

  -- `TrustedKey.from_dict`
  unfoldable pub from_dict : Fields → Result VerificationError TrustedKey
  unfolding optional_time
  from_dict fields = do
    key_ref ← or_raise (filled_text (get fields "key_ref")) no_key_ref
    algorithm ← or_raise (text_of (get fields "algorithm")) wrong_algorithm
    guard (algorithm == fips_ready_algorithm) wrong_algorithm
    public_key_pem ← or_raise (read_pem (get fields "public_key_pem")) no_public_key
    status ← read_status (get_or fields "status" (str "active"))
    revocation_reason ← or_raise (read_reason (get fields "revocation_reason")) reason_not_text
    not_before ← optional_time (get fields "not_before") "not_before"
    not_after ← optional_time (get fields "not_after") "not_after"
    revoked_at ← optional_time (get fields "revoked_at") "revoked_at"
    ok (record {
      key_ref = key_ref;
      algorithm = algorithm;
      public_key_pem = public_key_pem;
      status = status;
      not_before = not_before;
      not_after = not_after;
      revoked_at = revoked_at;
      revocation_reason = revocation_reason;
    })

  -- The loop of `load_trusted_keys`, over the dictionary so far.
  pub load_keys :
      Option ℕ → ℕ → Dict TrustedKey → Items → Result VerificationError (Dict TrustedKey)
  load_keys now clock loaded nil = ok loaded
  load_keys now clock loaded (cons item rest) = do
    fields ← or_raise (object_of item) key_not_object
    key ← from_dict fields
    validate_lifecycle key now clock
    load_keys now clock (insert key.key_ref key loaded) rest

  unfoldable pub load_trusted_keys :
      Fields → Option ℕ → ℕ → Result VerificationError (Dict TrustedKey)
  unfolding load_keys
  load_trusted_keys fields now clock = do
    keys ← or_raise (array_of (get fields "keys")) keys_not_array
    load_keys now clock [] keys

module _ (crypto : Crypto) where
  unfoldable pub verify_rsa_pss_sha256 :
      String → String → TrustedKey → Result VerificationError (Unit {0})
  verify_rsa_pss_sha256 payload signature_hex trusted_key = do
    signature ← or_raise (from_hex signature_hex) not_hex
    public_key ← or_raise (crypto.load_pem_public_key trusted_key.public_key_pem) bad_pem
    guard (crypto.is_rsa public_key) not_rsa
    guard (leb 2048 (crypto.key_size public_key)) key_too_small
    guard (crypto.verify public_key signature payload) bad_signature

module _ (crypto : Crypto) (iso : IsoFormat) where
  unfoldable pub load_verified_trust_bundle :
      Fields → Dict TrustedKey → Option ℕ → ℕ → Result VerificationError (Dict TrustedKey)
  load_verified_trust_bundle fields root_keys now clock = do
    bundle_id ← or_raise (filled_text (get fields "bundle_id")) no_bundle_id
    signer_ref ← or_raise (filled_text (get fields "signer_ref")) no_signer_ref
    signature_hex ← or_raise (filled_text (get fields "signature_hex")) no_signature_hex
    guard (is_text (get fields "signature_algorithm") fips_ready_algorithm) bundle_algorithm
    guard (is_text (get fields "crypto_profile") fips_ready_profile) bundle_profile
    signer ← or_raise (lookup signer_ref root_keys) (unknown_root signer_ref)
    validate_lifecycle signer now clock
    verify_rsa_pss_sha256 crypto (canonical_trust_bundle_payload fields) signature_hex signer
    load_trusted_keys iso fields now clock
