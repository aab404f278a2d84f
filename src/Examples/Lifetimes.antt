-- ===== src/Examples/Lifetimes.antt =====
-- A code from its issue to its boot, and the registry's promise over a few calls.
use nlboot.Base.{
  none, String, lookup, eq_iff, ◌==◌, ◌+◌, ◌*◌, ◌≤◌, ◌<◌, ◌≡◌, refl, true, ok, some, List, [], ◌∷◌,
  arith, pos,
}
use nlboot.Text.{has_text}
use nlboot.Time.{last_instant}
use nlboot.Device.{DeviceIdentity, generate, make_claim, from_private_key_pem, private_key_pem}
use nlboot.Device.Persisted.{StoredLaws, from_private_key_pem-private_key_pem}
use nlboot.Protocol.Plan.{plan_of, build_boot_plan, to_dict}
use nlboot.Protocol.Token.{from_dict}
use nlboot.Protocol.Token.Validity.{enroll_install}
use nlboot.Protocol.Manifest.Matching.{validate_menu_iff}
use nlboot.Enrollment.{RedeemArgs, issue, redeem, issue_enrollment_token_payload}
use nlboot.Enrollment.Bridge.{token_of}
use nlboot.Enrollment.Invariant.{IsSingleUse-empty}
use nlboot.Enrollment.Commute.{Apart, response, calls_commute}
use nlboot.Cli.{Args, parsed, printed, main}
use nlboot.Cli.Main.{shown_plan}
use nlboot.Cli.Enrolled.{issued_code_prints}
use nlboot.Examples.Keys.{keys_fields, document_verifies, show}
use nlboot.Json.{obj}
use nlboot.Enrollment.Trace.{Call, issuing, redeeming, after, run}
use nlboot.Enrollment.Refine.{Steps, view, events_of, run_refines}
use nlboot.Enrollment.Lifetime.{IsInTime, IsInTime-empty, run-IsInTime, issue_lifetime}
use nlboot.Enrollment.Boot.{own_code_redeems, issued_token_boots}
use nlboot.Examples.Fixtures.{toy_crypto, toy_laws, unary_iso, pem_block}
use nlboot.Examples.Claims.{sample_claim}
use nlboot.Examples.Codes.{
  issue_args, redeem_args, binding, credential, calls, one_code, one_code-IsSingleUse, issues_ok,
}
use nlboot.Examples.Boot.{menu, manifest, manifest_fields, manifest_reads, menu_passes}

run_refines_example :
    Steps
      (view one_code)
      (events_of toy_crypto unary_iso calls one_code)
      (view (run toy_crypto unary_iso calls one_code))
run_refines_example = run_refines toy_crypto unary_iso calls one_code one_code-IsSingleUse

run-IsInTime_example : IsInTime (run toy_crypto unary_iso calls [])
run-IsInTime_example = run-IsInTime toy_crypto unary_iso calls [] IsInTime-empty

issue_lifetime_test : (900000005 ≡ 5 + 900 * 1000000) × (5 < 900000005) × (900000005 ≤ last_instant)
issue_lifetime_test = issue_lifetime toy_crypto unary_iso issue_args 0 900 [] binding refl issues_ok

abbrev own_identity : DeviceIdentity toy_crypto
own_identity = record {
  device_id = "urn:srcos:device:sha256:ab";
  public_key_pem = pem_block;
  private_key = 2048;
}

generates : generate toy_crypto 5 ≡ ok own_identity
unfolding generate
generates = refl

claims : make_claim toy_crypto unary_iso own_identity "n1" (some 3) 0 0 ≡ ok issue_args.device_claim
unfolding make_claim has_text nlboot.Hex.to_hex
claims = refl

-- The device claims the code again at another time.
abbrev own_request : RedeemArgs
own_request = record redeem_args { device_claim = record sample_claim { claimed_at = 6 } }

claims_again :
    make_claim toy_crypto unary_iso own_identity "n1" (some 6) 0 0 ≡ ok own_request.device_claim
unfolding make_claim has_text nlboot.Hex.to_hex
claims_again = refl

-- A call for a code that nobody issued.
abbrev stray : List Call
stray = redeeming (record redeem_args { code = "c2" }) 0 ∷ []

session_ends : nlboot.Time.shift 6 (pos 300) ≡ some 300000006
unfolding nlboot.Time.shift
session_ends = refl

own_code_redeems_example :
    (redeem toy_crypto unary_iso own_request 0
      (run toy_crypto unary_iso stray (issue toy_crypto unary_iso issue_args 0 []).1)).0
    ≡ ok credential
own_code_redeems_example =
    own_code_redeems toy_crypto unary_iso 5 own_identity "n1" (some 3) (some 6) 0 0 0 0 issue_args 0
      [] binding stray own_request 0 300000006 toy_laws (omega arith) generates claims claims_again
      IsSingleUse-empty issues_ok (refl, tt) refl refl refl (omega arith) session_ends

id_filled : has_text "t2" ≡ true
unfolding has_text
id_filled = refl

kind_filled : has_text "device" ≡ true
unfolding has_text
kind_filled = refl

issued_token_boots_test :
    (from_dict unary_iso (issue_enrollment_token_payload unary_iso binding "t2" "device")
      ≡ ok (token_of binding "t2" "device"))
    × (build_boot_plan manifest (token_of binding "t2" "device") (some 8) 0
        ≡ ok (plan_of manifest (token_of binding "t2" "device") (some "install")))
issued_token_boots_test =
    issued_token_boots toy_crypto unary_iso issue_args 0 [] binding "t2" "device" manifest (some 8)
      0 issues_ok id_filled kind_filled refl refl enroll_install
      ((validate_menu_iff (some menu) manifest).0 menu_passes) (omega arith)

-- The command with that token, at the time 5.
abbrev enrolled_args : Args
enrolled_args = record {
  manifest = parsed (obj manifest_fields);
  token = parsed (obj (issue_enrollment_token_payload unary_iso binding "t2" "device"));
  trusted_keys = parsed (obj keys_fields);
  require_fips = true;
  now = some "111111";
}

issued_code_prints_example :
    main toy_crypto unary_iso (λ t. some t) show enrolled_args 5 0
    ≡ printed (
        shown_plan
          (to_dict show (plan_of manifest (token_of binding "t2" "device") (some "install"))))
unfolding nlboot.Time.zulu_to_offset
issued_code_prints_example =
    issued_code_prints toy_crypto unary_iso (λ t. some t) show issue_args 0 [] binding "t2" "device"
      enrolled_args 5 0 (some 5) manifest_fields keys_fields manifest issues_ok id_filled
      kind_filled refl refl refl refl document_verifies manifest_reads refl refl enroll_install
      (omega arith)

-- A code is issued, and a stray call redeems another one.
stray-Apart :
    Apart toy_crypto unary_iso
      (issuing issue_args 0)
      (redeeming (record redeem_args { code = "c2" }) 0)
stray-Apart e = let equal : ("c1" == "c2") ≡ true = (eq_iff "c1" "c2").1 e in cc

calls_commute_example :
    (response toy_crypto unary_iso
        (redeeming (record redeem_args { code = "c2" }) 0)
        (after toy_crypto unary_iso (issuing issue_args 0) one_code)
      ≡ response toy_crypto unary_iso (redeeming (record redeem_args { code = "c2" }) 0) one_code)
    × (response toy_crypto unary_iso
          (issuing issue_args 0)
          (after toy_crypto unary_iso (redeeming (record redeem_args { code = "c2" }) 0) one_code)
        ≡ response toy_crypto unary_iso (issuing issue_args 0) one_code)
    × ((h : String)
        → lookup h (
            after toy_crypto unary_iso
              (redeeming (record redeem_args { code = "c2" }) 0)
              (after toy_crypto unary_iso (issuing issue_args 0) one_code))
          ≡ lookup h (
              after toy_crypto unary_iso (issuing issue_args 0) (
                after toy_crypto unary_iso
                  (redeeming (record redeem_args { code = "c2" }) 0)
                  one_code)))
calls_commute_example =
    calls_commute toy_crypto unary_iso (issuing issue_args 0)
      (redeeming (record redeem_args { code = "c2" }) 0) one_code one_code-IsSingleUse stray-Apart

toy_stored : StoredLaws toy_crypto 2048
toy_stored = record { load_private = refl; rsa_private = refl }

from_private_key_pem-private_key_pem_test :
    from_private_key_pem toy_crypto (private_key_pem toy_crypto own_identity) none ≡ ok own_identity
from_private_key_pem-private_key_pem_test =
    from_private_key_pem-private_key_pem toy_crypto 5 own_identity toy_stored generates
