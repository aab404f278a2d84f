-- ===== src/Examples/Codes.antt =====
-- Enrollment codes.
use nlboot.Base.{
  ◌+◌, ◌≤◌, ◌≡◌, refl, ap, ◌⊎◌, ok, err, some, List, [], ◌∷◌, arith, pos, lookup, insert,
}
use mathlib.Core.Path.{subst}
use nlboot.Json.{str}
use nlboot.Protocol.Modes.{TokenPurpose, BootMode}
use nlboot.Device.{DeviceClaim}
use nlboot.Enrollment.{
  EnrollmentError, already_redeemed, unknown_code, time_overflow, ttl_not_positive,
  EnrollmentCodeBinding, SessionCredential, Registry, IssueArgs, RedeemArgs, issue, redeem, spend,
  issue_enrollment_token_payload,
}
use nlboot.Enrollment.Redeem.{Granted, Redeemable, redeem-eq-ok_iff, redeem-eq-err}
use nlboot.Enrollment.Issue.{Issued, issue-eq-ok_iff, issue_stores, issue_raises}
use nlboot.Enrollment.Invariant.{
  IsSingleUse, IsSingleUse-empty, issue-IsSingleUse, redeem_spends, redeem_twice,
}
use nlboot.Enrollment.Trace.{
  Call, issuing, redeeming, run, times_issued, times_redeemed, uses_left, run-IsSingleUse,
  run_accounts, redeemed-le-issued,
}
use nlboot.Examples.Fixtures.{toy_crypto, unary_iso}
use nlboot.Examples.Claims.{sample_claim, sample_claim_verifies}

abbrev pub issue_args : IssueArgs
issue_args = record {
  device_claim = sample_claim;
  purpose = "enroll";
  release_set_ref = str "urn:base";
  boot_release_set_ref = str "urn:boot";
  artifact_refs = str "urn:kernel" ∷ [];
  ttl_seconds = pos 900;
  now = some 5;
  code = "c1";
}

abbrev pub redeem_args : RedeemArgs
redeem_args = record {
  code = "c1";
  device_claim = sample_claim;
  release_set_ref = "urn:base";
  session_ttl_seconds = pos 300;
  now = some 6;
  session_hex = "00";
}

abbrev pub binding : EnrollmentCodeBinding
binding = record {
  code_hash = "c1";
  purpose = TokenPurpose.enroll;
  device_id = "urn:srcos:device:sha256:ab";
  nonce = "n1";
  release_set_ref = "urn:base";
  boot_release_set_ref = "urn:boot";
  artifact_refs = "urn:kernel" ∷ [];
  issued_at = 5;
  expires_at = 900000005;
  remaining_uses = 1;
}

abbrev pub credential : SessionCredential
credential = record {
  session_id = "urn:srcos:enrollment-session:00";
  device_id = "urn:srcos:device:sha256:ab";
  purpose = TokenPurpose.enroll;
  release_set_ref = "urn:base";
  boot_release_set_ref = "urn:boot";
  artifact_refs = "urn:kernel" ∷ [];
  issued_at = 6;
  expires_at = 300000006;
}

abbrev pub one_code : Registry
one_code = ("c1", binding) ∷ []

pub issues_binding : issue toy_crypto unary_iso issue_args 0 [] ≡ (ok ("c1", binding), one_code)
unfolding issue nlboot.Protocol.Modes.purpose_of nlboot.Device.verify
    nlboot.Device.device_fingerprint nlboot.Device.load_public_key nlboot.Hex.from_hex
    nlboot.Hex.hex_value nlboot.Time.shift insert
issues_binding = refl

redeems_binding :
    redeem toy_crypto unary_iso redeem_args 0 one_code ≡ (ok credential, ("c1", spend binding) ∷ [])
unfolding redeem lookup nlboot.Device.verify nlboot.Device.device_fingerprint
    nlboot.Device.load_public_key nlboot.Hex.from_hex nlboot.Hex.hex_value
    nlboot.Enrollment.credential_of insert nlboot.Time.shift
redeems_binding = refl

redeems_ok : (redeem toy_crypto unary_iso redeem_args 0 one_code).0 ≡ ok credential
redeems_ok = ap (λ r. r.0) redeems_binding

pub issues_ok : (issue toy_crypto unary_iso issue_args 0 []).0 ≡ ok ("c1", binding)
issues_ok = ap (λ r. r.0) issues_binding

pub one_code-IsSingleUse : IsSingleUse one_code
one_code-IsSingleUse =
    subst IsSingleUse (ap (λ r. r.1) issues_binding)
      (issue-IsSingleUse toy_crypto unary_iso issue_args 0 [] IsSingleUse-empty)

-- The same code twice, and once in between for a code that nobody issued.
abbrev pub calls : List Call
calls =
    issuing issue_args 0
    ∷ redeeming redeem_args 0
    ∷ redeeming (record redeem_args { code = "c2" }) 0
    ∷ redeeming redeem_args 7
    ∷ []

redeemed-le-issued_example :
    times_redeemed toy_crypto unary_iso "c1" calls []
    ≤ times_issued toy_crypto unary_iso "c1" calls []
redeemed-le-issued_example = redeemed-le-issued toy_crypto unary_iso "c1" calls

counts :
    (times_issued toy_crypto unary_iso "c1" calls [] ≡ 1)
    × (times_redeemed toy_crypto unary_iso "c1" calls [] ≡ 1)
unfolding times_issued times_redeemed issue nlboot.Protocol.Modes.purpose_of nlboot.Device.verify
    nlboot.Device.device_fingerprint nlboot.Device.load_public_key nlboot.Hex.from_hex
    nlboot.Hex.hex_value nlboot.Time.shift redeem lookup nlboot.Enrollment.Trace.after insert
    nlboot.Enrollment.credential_of
counts = (refl, refl)

run_accounts_example :
    times_redeemed toy_crypto unary_iso "c1" calls one_code
      + uses_left toy_crypto unary_iso "c1" (run toy_crypto unary_iso calls one_code)
    ≤ times_issued toy_crypto unary_iso "c1" calls one_code
      + uses_left toy_crypto unary_iso "c1" one_code
run_accounts_example = run_accounts toy_crypto unary_iso "c1" calls one_code one_code-IsSingleUse

run-IsSingleUse_test : IsSingleUse (run toy_crypto unary_iso calls one_code)
run-IsSingleUse_test = run-IsSingleUse toy_crypto unary_iso calls one_code one_code-IsSingleUse

redeem_twice_example :
    redeem toy_crypto unary_iso redeem_args 9 (redeem toy_crypto unary_iso redeem_args 0 one_code).1
    ≡ (err already_redeemed, (redeem toy_crypto unary_iso redeem_args 0 one_code).1)
redeem_twice_example =
    redeem_twice toy_crypto unary_iso redeem_args redeem_args 0 9 one_code credential
      one_code-IsSingleUse redeems_ok refl

redeem-eq-ok_iff_example : Granted toy_crypto unary_iso redeem_args 0 one_code credential
redeem-eq-ok_iff_example =
    (redeem-eq-ok_iff toy_crypto unary_iso redeem_args 0 one_code credential).0 redeems_ok

redeemable : Redeemable toy_crypto unary_iso redeem_args 6 one_code binding
unfolding lookup
redeemable = record {
  code = refl;
  found = refl;
  unspent = omega arith;
  unexpired = omega arith;
  release = refl;
  claim = sample_claim_verifies;
  device = refl;
}

redeem_spends_test :
    lookup "c1" (redeem toy_crypto unary_iso redeem_args 0 one_code).1 ≡ some (spend binding)
redeem_spends_test =
    redeem_spends toy_crypto unary_iso redeem_args 0 one_code binding "c1" one_code-IsSingleUse
      redeemable

issue-eq-ok_iff_example : Issued toy_crypto unary_iso issue_args 5 binding
issue-eq-ok_iff_example = (issue-eq-ok_iff toy_crypto unary_iso issue_args 0 [] binding).0 issues_ok

issue_stores_test : lookup "c1" (issue toy_crypto unary_iso issue_args 0 []).1 ≡ some binding
issue_stores_test = issue_stores toy_crypto unary_iso issue_args 0 [] binding "c1" issues_ok

-- A code that is issued for no time at all.
abbrev no_time : IssueArgs
no_time = record issue_args { ttl_seconds = pos 0 }

no_time_refused : (issue toy_crypto unary_iso no_time 0 one_code).0 ≡ err ttl_not_positive
unfolding issue nlboot.Protocol.Modes.purpose_of
no_time_refused = refl

issue_raises_test : (issue toy_crypto unary_iso no_time 0 one_code).1 ≡ one_code
issue_raises_test =
    issue_raises toy_crypto unary_iso no_time 0 one_code ttl_not_positive no_time_refused

-- A session that would end after the year 9999.
abbrev endless : RedeemArgs
endless = record redeem_args { session_ttl_seconds = pos 400000000000 }

endless_raises : (redeem toy_crypto unary_iso endless 0 one_code).0 ≡ err time_overflow
unfolding redeem lookup nlboot.Device.verify nlboot.Device.device_fingerprint
    nlboot.Device.load_public_key nlboot.Hex.from_hex nlboot.Hex.hex_value
    nlboot.Enrollment.credential_of nlboot.Time.shift
endless_raises = refl

redeem-eq-err_example :
    ((redeem toy_crypto unary_iso endless 0 one_code).1 ≡ one_code)
    ⊎ ((time_overflow ≡ time_overflow)
        × ((b : EnrollmentCodeBinding) × Redeemable toy_crypto unary_iso endless 6 one_code b
            × ((redeem toy_crypto unary_iso endless 0 one_code).1
                ≡ insert b.code_hash (spend b) one_code)))
redeem-eq-err_example =
    redeem-eq-err toy_crypto unary_iso endless 0 one_code time_overflow endless_raises
