-- ===== src/Enrollment.antt =====
-- enrollment.py: single-use enrollment codes.
pub mod Credential
pub mod Redeem
pub mod Issue
pub mod Invariant
pub mod Trace
pub mod Bridge
pub mod Overflow
pub mod Refine
pub mod Elsewhere
pub mod Lifetime
pub mod Boot
pub mod Commute
use Prim.Native.String.{◌++◌ as append}
use nlboot.Base.{
  ℕ, ◌-◌, String, Bool, true, not, Option, none, some, List, [], ◌∷◌, ◌==◌, Result, ok, err, ◌>>=◌,
  ◌>>◌, guard, or_raise, map_err, ltb, leb, ℤ, pos, is_positive, Dict, lookup, insert,
  if◌then◌else◌,
}
use nlboot.Text.{non_empty}
use nlboot.Json.{Value, str, bool, obj, Fields, end, field}
use nlboot.Time.{IsoFormat, now_or, shift}
use nlboot.Crypto.{Crypto}
use nlboot.Device.{DeviceClaim, DeviceError, verify, zulu_time}
use nlboot.Protocol.Modes.{TokenPurpose, purpose_name, purpose_of}

pub data EnrollmentError : Type 0 where
  -- issue
  unsupported_purpose : String → EnrollmentError
  ttl_not_positive release_not_text boot_release_not_text artifacts_not_texts : EnrollmentError
  -- both
  invalid_claim : DeviceError → EnrollmentError
  -- No `EnrollmentError` but the `OverflowError` of an addition past the year 9999.
  time_overflow : EnrollmentError
  -- redeem
  code_not_text unknown_code already_redeemed code_expired release_mismatch device_mismatch :
      EnrollmentError

-- CODE_BYTES, DEFAULT_TTL_SECONDS and SESSION_TTL_SECONDS
abbrev pub default_ttl_seconds : ℤ
default_ttl_seconds = pos 900

abbrev pub session_ttl_seconds : ℤ
session_ttl_seconds = pos 300

pub record EnrollmentCodeBinding : Type 0 where
  pub code_hash : String
  pub purpose : TokenPurpose
  pub device_id : String
  pub nonce : String
  pub release_set_ref : String
  pub boot_release_set_ref : String
  pub artifact_refs : List String
  pub issued_at : ℕ
  pub expires_at : ℕ
  pub remaining_uses : ℕ

pub record SessionCredential : Type 0 where
  pub session_id : String
  pub device_id : String
  pub purpose : TokenPurpose
  pub release_set_ref : String
  pub boot_release_set_ref : String
  pub artifact_refs : List String
  pub issued_at : ℕ
  pub expires_at : ℕ

-- The registry's `_bindings`.
abbrev pub Registry : Type 0
Registry = Dict EnrollmentCodeBinding

abbrev pub is_spent : EnrollmentCodeBinding → Bool
is_spent b = leb b.remaining_uses 0

-- `replace(binding, remaining_uses=binding.remaining_uses - 1)`
abbrev pub spend : EnrollmentCodeBinding → EnrollmentCodeBinding
spend b = record b { remaining_uses = b.remaining_uses - 1 }

-- The value is a text that is not empty.
abbrev pub filled_text : Value → Option String
filled_text (str s) = if non_empty s then some s else none
filled_text _ = none

-- `all(isinstance(r, str) and r for r in refs)`, with the texts
abbrev pub filled_texts : List Value → Option (List String)
filled_texts [] = some []
filled_texts (v ∷ vs) = elim (filled_text v) [
  | none ↦ none
  | some s ↦ elim (filled_texts vs) [ none ↦ none | some ss ↦ some (s ∷ ss) ]
]

-- `not refs or not all(…)` does not hold.
abbrev pub filled_refs : List Value → Option (List String)
filled_refs [] = none
filled_refs (v ∷ vs) = filled_texts (v ∷ vs)

-- The arguments of `issue`, with the text that `secrets.token_urlsafe` returns.
pub record IssueArgs : Type 0 where
  pub device_claim : DeviceClaim
  pub purpose : String
  pub release_set_ref : Value
  pub boot_release_set_ref : Value
  pub artifact_refs : List Value
  pub ttl_seconds : ℤ
  pub now : Option ℕ
  pub code : String

-- The arguments of `redeem`, with the text that `secrets.token_hex` returns.
pub record RedeemArgs : Type 0 where
  pub code : String
  pub device_claim : DeviceClaim
  pub release_set_ref : String
  pub session_ttl_seconds : ℤ
  pub now : Option ℕ
  pub session_hex : String

module _ (crypto : Crypto) (iso : IsoFormat) where
  -- `_hash_code`
  abbrev pub hash_code : String → String
  hash_code code = crypto.sha256_text code

  -- `issue` up to the binding that it stores
  pub new_binding : IssueArgs → ℕ → Result EnrollmentError EnrollmentCodeBinding
  new_binding args clock = do
    purpose ← or_raise (purpose_of args.purpose) (unsupported_purpose args.purpose)
    guard (is_positive args.ttl_seconds) ttl_not_positive
    release_set_ref ← or_raise (filled_text args.release_set_ref) release_not_text
    boot_release_set_ref ← or_raise (filled_text args.boot_release_set_ref) boot_release_not_text
    artifact_refs ← or_raise (filled_refs args.artifact_refs) artifacts_not_texts
    map_err invalid_claim (verify crypto iso args.device_claim (some args.device_claim.nonce))
    let issued_at = now_or args.now clock
    expires_at ← or_raise (shift issued_at args.ttl_seconds) time_overflow
    ok (record {
      code_hash = hash_code args.code;
      purpose = purpose;
      device_id = args.device_claim.device_id;
      nonce = args.device_claim.nonce;
      release_set_ref = release_set_ref;
      boot_release_set_ref = boot_release_set_ref;
      artifact_refs = artifact_refs;
      issued_at = issued_at;
      expires_at = expires_at;
      remaining_uses = 1;
    })

  pub store :
      Result EnrollmentError EnrollmentCodeBinding
      → String
      → Registry
      → Result EnrollmentError (String × EnrollmentCodeBinding) × Registry
  store (err e) code bindings = (err e, bindings)
  store (ok b) code bindings = (ok (code, b), insert b.code_hash b bindings)

  -- `EnrollmentRegistry.issue`
  unfoldable pub issue :
      IssueArgs → ℕ → Registry → Result EnrollmentError (String × EnrollmentCodeBinding) × Registry
  unfolding new_binding store
  issue args clock bindings = store (new_binding args clock) args.code bindings

  -- The checks of `redeem`, with the binding that they let through.
  pub check_redeem : RedeemArgs → ℕ → Registry → Result EnrollmentError EnrollmentCodeBinding
  check_redeem args clock bindings = do
    guard (non_empty args.code) code_not_text
    let current = now_or args.now clock
    binding ← or_raise (lookup (hash_code args.code) bindings) unknown_code
    guard (not (is_spent binding)) already_redeemed
    guard (ltb current binding.expires_at) code_expired
    guard (args.release_set_ref == binding.release_set_ref) release_mismatch
    map_err invalid_claim (verify crypto iso args.device_claim (some binding.nonce))
    guard (args.device_claim.device_id == binding.device_id) device_mismatch
    ok binding

  -- The credential that `redeem` returns; its end may overflow.
  unfoldable pub credential_of :
      RedeemArgs → ℕ → EnrollmentCodeBinding → Result EnrollmentError SessionCredential
  credential_of args clock binding = do
    let current = now_or args.now clock
    expires_at ← or_raise (shift current args.session_ttl_seconds) time_overflow
    ok (record {
      session_id = append "urn:srcos:enrollment-session:" args.session_hex;
      device_id = binding.device_id;
      purpose = binding.purpose;
      release_set_ref = binding.release_set_ref;
      boot_release_set_ref = binding.boot_release_set_ref;
      artifact_refs = binding.artifact_refs;
      issued_at = current;
      expires_at = expires_at;
    })

  -- The use is spent before the credential is built.
  pub grant :
      RedeemArgs
      → ℕ
      → Result EnrollmentError EnrollmentCodeBinding
      → Registry
      → Result EnrollmentError SessionCredential × Registry
  grant args clock (err e) bindings = (err e, bindings)
  grant args clock (ok b) bindings =
      (credential_of args clock b, insert b.code_hash (spend b) bindings)

  -- `EnrollmentRegistry.redeem`
  unfoldable pub redeem :
      RedeemArgs → ℕ → Registry → Result EnrollmentError SessionCredential × Registry
  unfolding check_redeem grant
  redeem args clock bindings = grant args clock (check_redeem args clock bindings) bindings

  -- `EnrollmentRegistry.binding_for`
  pub binding_for : String → Registry → Option EnrollmentCodeBinding
  binding_for code bindings = lookup (hash_code code) bindings

-- `issue_enrollment_token_payload`
pub issue_enrollment_token_payload : IsoFormat → EnrollmentCodeBinding → String → String → Fields
issue_enrollment_token_payload iso binding token_id subject_kind = field "token_id" (str token_id) (
    field "purpose" (str (purpose_name binding.purpose)) (
      field "audience"
        (obj (
          field "subject_kind" (str subject_kind) (field "subject_id" (str binding.device_id) end)))
        (field "release_set_ref" (str binding.release_set_ref) (
          field "boot_release_set_ref" (str binding.boot_release_set_ref) (
            field "one_time_use" (bool true) (
              field "issued_at" (str (zulu_time iso binding.issued_at)) (
                field "expires_at" (str (zulu_time iso binding.expires_at))
                  (field "status" (str "issued") end))))))))
