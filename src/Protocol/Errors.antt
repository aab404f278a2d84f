-- ===== src/Protocol/Errors.antt =====
-- What protocol.py raises: `NlbootError`, a constructor for each message, with its parameters.
use nlboot.Base.{String, List}

pub data NlbootError : Type 0 where
  -- "{key} must be a non-empty string"
  must_be_text : String → NlbootError
  -- "{key} must be an ISO-8601 datetime", "{key} must include timezone information"
  not_iso no_timezone : String → NlbootError
  -- No `NlbootError` but the `OverflowError` of `astimezone`, for years outside 1 to 9999.
  time_overflow : String → NlbootError
  -- BootMenuEntry.from_dict
  unsupported_entry_mode unsupported_role : String → NlbootError
  default_not_boolean eligible_not_boolean rollback_not_eligible : NlbootError
  -- BootMenu
  entries_not_array entry_not_object default_unknown many_defaults default_mismatch : NlbootError
  duplicate_entry : String → NlbootError
  default_missing default_not_for_manifest : NlbootError
  -- SignedBootManifest.from_dict
  wrong_algorithm wrong_profile artifacts_not_object bad_signature_ref : NlbootError
  menu_not_object : NlbootError
  unsupported_mode : String → NlbootError
  missing_artifacts : List String → NlbootError
  -- EnrollmentToken
  unsupported_purpose unsupported_status : String → NlbootError
  audience_not_object subject_not_text one_time_not_boolean : NlbootError
  not_issued token_expired not_one_time boot_release_mismatch release_mismatch : NlbootError
  purpose_not_valid : NlbootError
