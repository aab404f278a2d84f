-- ===== src/Device/Conforms.antt =====
-- The documents that `DeviceClaim.to_dict` of device.py writes, and the schema of device claims.
use Prim.Native.Nat.{◌/◌, ◌%◌}
use Prim.Native.Char.{code}
use Prim.Native.String.{[] as empty, ◌∷◌ as cons_char, ◌++◌ as append}
use mathlib.Core.Path.{subst}
use text.Mathlib.TextLemmas.{nil-append, cons-append, append_assoc}
use nlboot.Base.{
  ℕ, ◌<◌, ◌≤◌, String, ◌≡◌, refl, sym, ap, ◌∙◌, Bool, true, false, ◌&&◌, arith, Option, some, [],
  ◌∷◌, ◌==◌, eq_iff, eqb, ok, All, Yields, Yields-bind, Yields-guard, Yields-ok,
}
use nlboot.Text.{has_text, non_empty, has_part}
use nlboot.Hex.{Bytes, hex_digit, to_hex}
use nlboot.Hex.Laws.{passes_below, passed}
use nlboot.Json.{str, Fields, field}
use nlboot.Time.{now_or, last_instant}
use nlboot.Time.Utc.{utc_format}
use nlboot.Time.Stamp.{offset_to_zulu-isoformat}
use nlboot.Time.Rfc3339.{is_date_time}
use nlboot.Time.Stamped.{is_date_time-stamp}
use nlboot.Crypto.{Crypto, RsaLaws}
use nlboot.Device.{
  zulu_time, DeviceIdentity, DeviceClaim, device_id_prefix, rsa_public_exponent, rsa_key_size,
  device_fingerprint, identity_of, generate, make_claim, to_dict, fips_ready_algorithm,
  fips_ready_profile,
}
use nlboot.Device.Keys.{fingerprint_sound, device_id_of}
use nlboot.Device.Schema.{
  is_digit, digits, all_digits, after, is_digest, is_device_id, admits, conforms,
}

-- What is documented of SHA-256 and of RSA: a digest is 64 lower-case hexadecimal digits, and a
-- signature is not empty.
pub record Shapes (crypto : Crypto) (key : crypto.PrivateKey) : Type 0 where
  pub digest : (bytes : Bytes) → digits 64 (crypto.sha256 bytes) ≡ true
  pub signature :
      (random : ℕ) (payload : String) → non_empty (to_hex (crypto.sign key random payload)) ≡ true

eqb_same : (n : ℕ) → eqb n n ≡ true
eqb_same n = ground arith

both : {a b : Bool} → a ≡ true → b ≡ true → (a && b) ≡ true
both e f = rw e f

equal : {s t : String} → s ≡ t → (s == t) ≡ true
equal {s} {t} e = (eq_iff s t).1 e

after-append : (part s : String) → after part (append part s) ≡ some s
unfolding after
after-append empty s = ap some (nil-append s)
after-append (cons_char c part) s =
    ap (after (cons_char c part)) (cons-append c part s)
    ∙ rw (eqb_same (code c)) (after-append part s)

digit_table : passes_below (λ n. is_digit (code (hex_digit n))) 16 ≡ true
unfolding passes_below hex_digit
digit_table = refl

is_digit-hex_digit : (n : ℕ) → n < 16 → is_digit (code (hex_digit n)) ≡ true
is_digit-hex_digit n h = passed (λ n. is_digit (code (hex_digit n))) 16 n h digit_table

all_digits-to_hex : (bs : Bytes) → All (λ b. b < 256) bs → all_digits (to_hex bs) ≡ true
unfolding all_digits to_hex
all_digits-to_hex [] h = refl
all_digits-to_hex (b ∷ bs) (lt, h) =
    rw (is_digit-hex_digit (b / 16) (omega arith), is_digit-hex_digit (b % 16) (omega arith))
      (all_digits-to_hex bs h)

has_text-non_empty : (s : String) → has_text s ≡ true → non_empty s ≡ true
unfolding has_text
has_text-non_empty empty h = cc
has_text-non_empty (cons_char c s) h = refl

-- A claim whose parts have the shapes that the schema asks for.
record HasShape (claim : DeviceClaim) : Type 0 where
  device_id : is_device_id claim.device_id ≡ true
  public_key_pem : has_part claim.public_key_pem "BEGIN PUBLIC KEY" ≡ true
  nonce : non_empty claim.nonce ≡ true
  signature_algorithm : claim.signature_algorithm ≡ fips_ready_algorithm
  crypto_profile : claim.crypto_profile ≡ fips_ready_profile
  filled : non_empty claim.signature_hex ≡ true
  hexadecimal : all_digits claim.signature_hex ≡ true
  claimed_at : claim.claimed_at ≤ last_instant

-- the document with the two members that only the schema has
abbrev pub labelled : Fields → Fields
labelled fs = field "schemaVersion" (str "v0.1") (field "kind" (str "DeviceClaim") fs)

zulu_time-is_date_time : (t : ℕ) → t ≤ last_instant → is_date_time (zulu_time utc_format t) ≡ true
unfolding zulu_time
zulu_time-is_date_time t h = ap is_date_time (offset_to_zulu-isoformat t) ∙ is_date_time-stamp t h

HasShape-conforms :
    (claim : DeviceClaim) → HasShape claim → conforms (labelled (to_dict utc_format claim)) ≡ true
unfolding conforms to_dict admits
HasShape-conforms claim h = both h.device_id (
    both h.public_key_pem (
      both h.nonce (
        both (zulu_time-is_date_time claim.claimed_at h.claimed_at) (
          both (equal h.signature_algorithm)
            (both (equal h.crypto_profile) (both (both h.filled h.hexadecimal) refl))))))

lacks_label : (claim : DeviceClaim) → conforms (to_dict utc_format claim) ≡ false
unfolding conforms to_dict
lacks_label claim = refl

module _ (crypto : Crypto) where
  device_id_of-shape :
      (key : crypto.PublicKey)
      → digits 64 (crypto.sha256 (crypto.der key)) ≡ true
      → is_device_id (device_id_of crypto key) ≡ true
  device_id_of-shape key h =
      ap is_device_id
        (sym (append_assoc device_id_prefix "sha256:" (crypto.sha256 (crypto.der key))))
      ∙ ap is_digest (after-append "urn:srcos:device:sha256:" (crypto.sha256 (crypto.der key)))
      ∙ h

  -- An identity's key is a PEM block, and its id is that key's.
  abbrev OwnsBlock : crypto.PrivateKey → DeviceIdentity crypto → Type 0
  OwnsBlock private identity =
      (has_part identity.public_key_pem "BEGIN PUBLIC KEY" ≡ true)
      × (is_device_id identity.device_id ≡ true)
      × (identity.private_key ≡ private)

  identity_of-OwnsBlock :
      (private : crypto.PrivateKey)
      → ((bytes : Bytes) → digits 64 (crypto.sha256 bytes) ≡ true)
      → Yields (OwnsBlock private) (identity_of crypto private)
  unfolding identity_of
  identity_of-OwnsBlock private digest =
      Yields-bind (device_fingerprint crypto (crypto.pem (crypto.public_key private))) _ λ id e.
        let (key, holds, same) = (fingerprint_sound crypto _).at id e in
        Yields-ok _ (
          holds.block,
          ap is_device_id same ∙ device_id_of-shape key (digest (crypto.der key)),
          refl,
        )

  make_claim-HasShape :
      (identity : DeviceIdentity crypto) (nonce : String) (claimed_at : Option ℕ) (clock random : ℕ)
      → now_or claimed_at clock ≤ last_instant
      → Shapes crypto identity.private_key
      → ((payload : String) → All (λ b. b < 256) (crypto.sign identity.private_key random payload))
      → has_part identity.public_key_pem "BEGIN PUBLIC KEY" ≡ true
      → is_device_id identity.device_id ≡ true
      → Yields HasShape (make_claim crypto utc_format identity nonce claimed_at clock random)
  unfolding make_claim
  make_claim-HasShape identity nonce claimed_at clock random early shapes bytes block id =
      Yields-guard (has_text nonce) _ _ λ filled. Yields-ok _ (record {
        device_id = id;
        public_key_pem = block;
        nonce = has_text-non_empty nonce filled;
        signature_algorithm = refl;
        crypto_profile = refl;
        filled = shapes.signature random _;
        hexadecimal = all_digits-to_hex _ (bytes _);
        claimed_at = early;
      })

  -- A claim that an identity with a generated key makes for a time up to the year 9999, where the
  -- key obeys the documented laws, digests are 64 lower-case hexadecimal digits and signatures are
  -- not empty, is written by `to_dict`, with times in the format of Python's `datetime`, as a
  -- document that conforms to device-claim.schema.v0.1.json, the format of its time included, once
  -- "schemaVersion" and "kind" are added; as it is written, without these two, it does not
  -- conform.
  pub generated_claim_conforms :
      (seed : ℕ) (identity : DeviceIdentity crypto) (nonce : String) (claimed_at : Option ℕ)
      → (clock random : ℕ) (claim : DeviceClaim) → now_or claimed_at clock ≤ last_instant
      → RsaLaws crypto (crypto.generate_private_key rsa_public_exponent rsa_key_size seed)
      → Shapes crypto (crypto.generate_private_key rsa_public_exponent rsa_key_size seed)
      → generate crypto seed ≡ ok identity
      → make_claim crypto utc_format identity nonce claimed_at clock random ≡ ok claim
      → (conforms (labelled (to_dict utc_format claim)) ≡ true)
        × (conforms (to_dict utc_format claim) ≡ false)
  unfolding generate
  generated_claim_conforms seed identity nonce claimed_at clock random claim early laws shapes made
        claimed =
      let key = crypto.generate_private_key rsa_public_exponent rsa_key_size seed in
      let (block, id, own) = (identity_of-OwnsBlock key shapes.digest).at identity made in
      let shape =
        (make_claim-HasShape identity nonce claimed_at clock random early
            (subst (Shapes crypto) (sym own) shapes)
            (subst (λ k. (payload : String) → All (λ b. b < 256) (crypto.sign k random payload))
              (sym own) (laws.sign_bytes random))
            block id).at
          claim claimed in
      (HasShape-conforms claim shape, lacks_label claim)
