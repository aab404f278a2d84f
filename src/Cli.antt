-- ===== src/Cli.antt =====
-- cli.py: the command `nlboot-plan`, from the contents of its files to what it prints or raises.
-- The clock is read once for all keys (`key_clock`) and once for the plan (`plan_clock`).
pub mod Verified
pub mod Bound
pub mod Now
pub mod Main
pub mod Enrolled
use Prim.Native.String.{◌++◌ as append}
use nlboot.Base.{
  ℕ, String, Bool, true, false, not, ◌||◌, ◌&&◌, Option, none, some, Result, ok, err, ◌>>=◌, ◌>>◌,
  guard, or_raise, map_err, lookup, if◌then◌else◌,
}
use nlboot.Text.{non_empty}
use nlboot.Json.{Value, bool, obj, Fields, end, field, get, is_text, text_of, object_of}
use nlboot.Json.Pretty.{pretty}
use nlboot.Time.{Reading, malformed, naive, aware, out_of_range, IsoFormat, zulu_to_offset}
use nlboot.Crypto.{Crypto}
use nlboot.Protocol.Errors.{NlbootError}
use nlboot.Protocol.Errors as Errors
use nlboot.Protocol.Manifest as Manifest
use nlboot.Protocol.Token as Token
use nlboot.Protocol.Plan as Plan
use nlboot.Verify.{
  VerificationError, time_overflow, unhashable_status, fips_required, signer_ref_not_text,
  signature_hex_not_text, unknown_key, key_algorithm_mismatch, fips_ready_algorithm,
  fips_ready_profile, canonical_payload, load_trusted_keys, verify_rsa_pss_sha256,
}

-- What reading a file and `json.loads` give: an `OSError`, a `ValueError`, or a value.
pub data Content : Type 0 where
  unreadable malformed_json : Content
  parsed : Value → Content

pub data CliError : Type 0 where
  protocol : NlbootError → CliError
  verification : VerificationError → CliError
  not_json not_object bad_now : CliError
  -- The `OSError` of `read_text` and the `OverflowError` of `astimezone`.
  os_error now_overflow : CliError

pub record Args : Type 0 where
  pub manifest : Content
  pub token : Content
  pub trusted_keys : Content
  pub require_fips : Bool
  pub now : Option String

-- `load_json`
abbrev pub load_json : Content → Result CliError Fields
load_json unreadable = err os_error
load_json malformed_json = err not_json
load_json (parsed value) = or_raise (object_of value) not_object

-- What `main` does not catch: errors that are no `ValueError`.
abbrev pub escapes : CliError → Bool
escapes (protocol (Errors.time_overflow key)) = true
escapes (verification (time_overflow key)) = true
escapes (verification unhashable_status) = true
escapes os_error = true
escapes now_overflow = true
escapes _ = false

-- What a run of the command does: it prints a value and returns 0, it returns 2, or it raises.
pub data Outcome : Type 0 where
  printed : Value → Outcome
  exit_2 raised : CliError → Outcome

-- The `except` clause and the printing at the end of `main`.
abbrev pub finish : Result CliError Fields → Outcome
finish (ok plan) = printed (obj (field "ok" (bool true) (field "plan" (obj plan) end)))
finish (err e) = if escapes e then raised e else exit_2 e

-- What it prints to the standard output.
unfoldable pub stdout : Outcome → String
stdout (printed value) = append (pretty 0 value) "\n"
stdout _ = ""

module _ (crypto : Crypto) (iso : IsoFormat) where
  unfoldable pub verify_manifest_document :
      Fields → Fields → Bool → ℕ → Result VerificationError (Unit {0})
  verify_manifest_document manifest_doc trusted_keys_doc require_fips clock = do
    let algorithm = get manifest_doc "signature_algorithm"
    let profile = get manifest_doc "crypto_profile"
    guard
        (not require_fips
          || is_text algorithm fips_ready_algorithm && is_text profile fips_ready_profile)
        fips_required
    signer_ref ← or_raise (text_of (get manifest_doc "signer_ref")) signer_ref_not_text
    signature_hex ← or_raise (text_of (get manifest_doc "signature_hex")) signature_hex_not_text
    trusted_keys ← load_trusted_keys iso trusted_keys_doc none clock
    trusted_key ← or_raise (lookup signer_ref trusted_keys) (unknown_key signer_ref)
    guard (is_text algorithm trusted_key.algorithm) key_algorithm_mismatch
    verify_rsa_pss_sha256 crypto (canonical_payload manifest_doc) signature_hex trusted_key

-- over `local_to_utc`, the system's time zone (`none` is the `OverflowError`)
module _ (iso : IsoFormat) (local_to_utc : ℕ → Option ℕ) where
  abbrev pub utc_of : Reading → Result CliError (Option ℕ)
  utc_of malformed = err bad_now
  utc_of (naive t) = do u ← or_raise (local_to_utc t) now_overflow; ok (some u)
  utc_of (aware t) = ok (some t)
  utc_of out_of_range = err now_overflow

  -- `datetime.fromisoformat(…).astimezone(timezone.utc) if args.now else None`
  abbrev pub read_now : Option String → Result CliError (Option ℕ)
  read_now none = ok none
  read_now (some text) =
      if non_empty text then utc_of (iso.fromisoformat (zulu_to_offset text)) else ok none

module _ (crypto : Crypto) (iso : IsoFormat) (local_to_utc : ℕ → Option ℕ)
    (show : Value → String) where
  -- The body of the `try` statement, with the plan as `to_dict` gives it.
  pub plan_document : Args → ℕ → ℕ → Result CliError Fields
  plan_document args key_clock plan_clock = do
    now ← read_now iso local_to_utc args.now
    manifest_doc ← load_json args.manifest
    trusted_keys_doc ← load_json args.trusted_keys
    map_err verification (
        verify_manifest_document crypto iso manifest_doc trusted_keys_doc args.require_fips
          key_clock)
    manifest ← map_err protocol (Manifest.from_dict manifest_doc)
    token_doc ← load_json args.token
    token ← map_err protocol (Token.from_dict iso token_doc)
    plan ← map_err protocol (Plan.build_boot_plan manifest token now plan_clock)
    ok (Plan.to_dict show plan)

  unfoldable pub main : Args → ℕ → ℕ → Outcome
  unfolding plan_document
  main args key_clock plan_clock = finish (plan_document args key_clock plan_clock)
