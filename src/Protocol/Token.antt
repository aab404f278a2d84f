-- ===== src/Protocol/Token.antt =====
-- `EnrollmentToken` of protocol.py.
pub mod Laws
pub mod Validity
use nlboot.Base.{
  ℕ, String, Bool, true, false, Option, none, some, Result, ok, err, ◌>>=◌, ◌>>◌, guard, or_raise,
  ltb,
}
use nlboot.Json.{Value, null, str, Fields, get, object_of, bool_of, is_text}
use nlboot.Time.{Reading, malformed, naive, aware, out_of_range, IsoFormat, zulu_to_offset, now_or}
use nlboot.Protocol.Errors.{
  NlbootError, not_iso, no_timezone, time_overflow, unsupported_purpose, audience_not_object,
  subject_not_text, one_time_not_boolean, unsupported_status, not_issued, token_expired,
  not_one_time, boot_release_mismatch, release_mismatch, purpose_not_valid,
}
use nlboot.Protocol.Modes.{BootMode, TokenPurpose, TokenStatus, issued, purpose_of, status_of}
use nlboot.Protocol.Checks.{require_string}
use nlboot.Protocol.Manifest.{SignedBootManifest}

-- The two references are what the document holds, of whatever type.
pub record EnrollmentToken : Type 0 where
  pub token_id : String
  pub purpose : TokenPurpose
  pub subject_kind : String
  pub subject_id : Option String
  pub release_set_ref : Value
  pub boot_release_set_ref : Value
  pub one_time_use : Bool
  pub issued_at : ℕ
  pub expires_at : ℕ
  pub status : TokenStatus

abbrev pub utc_of : Reading → String → Result NlbootError ℕ
utc_of malformed key = err (not_iso key)
utc_of (naive t) key = err (no_timezone key)
utc_of (aware t) key = ok t
utc_of out_of_range key = err (time_overflow key)

-- "null or string"
abbrev pub text_or_null : Value → Option (Option String)
text_or_null null = some none
text_or_null (str s) = some (some s)
text_or_null _ = none

abbrev pub is_issued : TokenStatus → Bool
is_issued issued = true
is_issued _ = false

-- `purpose in purpose_by_mode[boot_mode]`
abbrev pub purpose_fits : BootMode → TokenPurpose → Bool
purpose_fits BootMode.recovery TokenPurpose.recovery = true
purpose_fits BootMode.recovery TokenPurpose.repair = true
purpose_fits BootMode.installer TokenPurpose.enroll = true
purpose_fits BootMode.installer TokenPurpose.boot = true
purpose_fits BootMode.ephemeral TokenPurpose.boot = true
purpose_fits BootMode.bootstrap TokenPurpose.enroll = true
purpose_fits BootMode.bootstrap TokenPurpose.boot = true
purpose_fits _ _ = false

module _ (iso : IsoFormat) where
  -- `_parse_time`
  unfoldable pub parse_time : String → String → Result NlbootError ℕ
  parse_time value key = utc_of (iso.fromisoformat (zulu_to_offset value)) key

  unfoldable pub from_dict : Fields → Result NlbootError EnrollmentToken
  from_dict fields = do
    token_id ← require_string fields "token_id"
    purpose_text ← require_string fields "purpose"
    purpose ← or_raise (purpose_of purpose_text) (unsupported_purpose purpose_text)
    audience ← or_raise (object_of (get fields "audience")) audience_not_object
    subject_kind ← require_string audience "subject_kind"
    subject_id ← or_raise (text_or_null (get audience "subject_id")) subject_not_text
    issued_text ← require_string fields "issued_at"
    issued_at ← parse_time issued_text "issued_at"
    expires_text ← require_string fields "expires_at"
    expires_at ← parse_time expires_text "expires_at"
    one_time_use ← or_raise (bool_of (get fields "one_time_use")) one_time_not_boolean
    status_text ← require_string fields "status"
    status ← or_raise (status_of status_text) (unsupported_status status_text)
    ok (record {
      token_id = token_id;
      purpose = purpose;
      subject_kind = subject_kind;
      subject_id = subject_id;
      release_set_ref = get fields "release_set_ref";
      boot_release_set_ref = get fields "boot_release_set_ref";
      one_time_use = one_time_use;
      issued_at = issued_at;
      expires_at = expires_at;
      status = status;
    })

-- `validate_for_manifest`; `clock` is what `datetime.now` would answer.
unfoldable pub validate_for_manifest :
    EnrollmentToken → SignedBootManifest → Option ℕ → ℕ → Result NlbootError (Unit {0})
validate_for_manifest token manifest now clock = do
  let current = now_or now clock
  guard (is_issued token.status) not_issued
  guard (ltb current token.expires_at) token_expired
  guard token.one_time_use not_one_time
  guard (is_text token.boot_release_set_ref manifest.boot_release_set_id) boot_release_mismatch
  guard (is_text token.release_set_ref manifest.base_release_set_ref) release_mismatch
  guard (purpose_fits manifest.boot_mode token.purpose) purpose_not_valid
