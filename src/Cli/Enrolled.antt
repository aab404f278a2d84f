-- ===== src/Cli/Enrolled.antt =====
-- From a code of enrollment.py to a plan of the command: the token file holds the payload that the
-- code's binding renders.
use nlboot.Base.{ℕ, ◌<◌, String, ◌≡◌, refl, sym, ap, true, Option, ok}
use nlboot.Text.{has_text}
use nlboot.Json.{Value, str, obj, Fields}
use nlboot.Time.{IsoFormat, now_or}
use nlboot.Crypto.{Crypto}
use nlboot.Protocol.Manifest.{SignedBootManifest}
use nlboot.Protocol.Manifest as Manifest
use nlboot.Protocol.Manifest.Laws as ManifestLaws
use nlboot.Protocol.Token.Laws as TokenLaws
use nlboot.Protocol.Token.Validity.{MayBoot}
use nlboot.Protocol.Plan as Plan
use nlboot.Enrollment.{
  EnrollmentCodeBinding, Registry, IssueArgs, issue, issue_enrollment_token_payload,
}
use nlboot.Enrollment.Bridge.{token_of, from_dict-payload}
use nlboot.Enrollment.Lifetime.{issued_in_range}
use nlboot.Cli.{parsed, Args, printed, verify_manifest_document, read_now, main}
use nlboot.Cli.Now.{read_now_iff}
use nlboot.Protocol.Plan.Contract.{selection, plan_of-IsPlan}
use nlboot.Cli.Verified.{verify_manifest_document_iff}
use nlboot.Cli.Main.{shown_plan, main_prints_iff}

module _ (crypto : Crypto) (iso : IsoFormat) (local_to_utc : ℕ → Option ℕ)
    (show : Value → String) where
  -- The command prints a plan for an issued code: with the payload of the code's binding as the
  -- token file, a token id and a subject kind that are not blank, a manifest that verifies under
  -- the trusted keys and is of the bound release sets, with a mode that admits the bound purpose,
  -- and a time before the code expires; and the plan is that of the manifest and the binding's
  -- token.
  pub issued_code_prints :
      (issue_args : IssueArgs) (issued_clock : ℕ) (bindings : Registry) (b : EnrollmentCodeBinding)
      → (token_id subject_kind : String) (args : Args) (key_clock plan_clock : ℕ) (now : Option ℕ)
      → (manifest_doc keys_doc : Fields) (m : SignedBootManifest)
      → (issue crypto iso issue_args issued_clock bindings).0 ≡ ok (issue_args.code, b)
      → has_text token_id ≡ true
      → has_text subject_kind ≡ true
      → args.token ≡ parsed (obj (issue_enrollment_token_payload iso b token_id subject_kind))
      → args.manifest ≡ parsed (obj manifest_doc)
      → args.trusted_keys ≡ parsed (obj keys_doc)
      → read_now iso local_to_utc args.now ≡ ok now
      → verify_manifest_document crypto iso manifest_doc keys_doc args.require_fips key_clock
        ≡ ok tt
      → Manifest.from_dict manifest_doc ≡ ok m
      → m.boot_release_set_id ≡ b.boot_release_set_ref
      → m.base_release_set_ref ≡ b.release_set_ref
      → MayBoot b.purpose m.boot_mode
      → now_or now plan_clock < b.expires_at
      → main crypto iso local_to_utc show args key_clock plan_clock
        ≡ printed (
            shown_plan (
              Plan.to_dict show
                (Plan.plan_of m (token_of b token_id subject_kind) (selection m.boot_menu))))
  issued_code_prints issue_args issued_clock bindings b token_id subject_kind args key_clock
        plan_clock now manifest_doc keys_doc m issued id kind token_file manifest_file keys_file
        reads verified read boot base purpose early =
      let (starts, ends) = issued_in_range crypto iso issue_args issued_clock bindings b issued in
      (main_prints_iff crypto iso local_to_utc show args key_clock plan_clock _).1 (record {
        now = now;
        states_now = (read_now_iff iso local_to_utc args.now now).0 reads;
        manifest_doc = manifest_doc;
        manifest_file = manifest_file;
        keys_doc = keys_doc;
        keys_file = keys_file;
        verified =
            (verify_manifest_document_iff crypto iso manifest_doc keys_doc args.require_fips
                key_clock).0
              verified;
        manifest = m;
        encodes_manifest = (ManifestLaws.manifest_from_dict_iff manifest_doc m).0 read;
        token_doc = issue_enrollment_token_payload iso b token_id subject_kind;
        token_file = token_file;
        token = token_of b token_id subject_kind;
        encodes_token =
            (TokenLaws.token_from_dict_iff iso _ _).0
              (from_dict-payload iso b token_id subject_kind id kind starts ends);
        authorizes = record {
          status = refl;
          unexpired = early;
          one_time = refl;
          boot_release = ap str (sym boot);
          base_release = ap str (sym base);
          purpose = purpose;
        };
        boot_plan = Plan.plan_of m (token_of b token_id subject_kind) (selection m.boot_menu);
        planned = plan_of-IsPlan m (token_of b token_id subject_kind);
        output = refl;
      })
