-- ===== src/Cli/Main.antt =====
-- `main` of cli.py: what it takes for the command to print a plan.
use nlboot.Base.{
  ℕ, String, ◌≡◌, refl, sym, ap, ◌∙◌, ◌↔◌, true, Option, Result, ok, err, map_err, arith, Yields,
  Yields-bind, Yields-ok, bind_ok, ok-injective,
}
use nlboot.Json.{Value, bool, obj, Fields, end, field}
use nlboot.Time.{IsoFormat, now_or}
use nlboot.Crypto.{Crypto}
use nlboot.Protocol.Manifest.{SignedBootManifest}
use nlboot.Protocol.Manifest as Manifest
use nlboot.Protocol.Manifest.Laws as ManifestLaws
use nlboot.Protocol.Token.{EnrollmentToken}
use nlboot.Protocol.Token as Token
use nlboot.Protocol.Token.Laws as TokenLaws
use nlboot.Protocol.Token.Validity.{Authorizes}
use nlboot.Protocol.Plan.{BootPlan, build_boot_plan, plan_of}
use nlboot.Protocol.Plan as Plan
use nlboot.Protocol.Plan.Contract.{IsPlan}
use nlboot.Protocol.Plan.Laws.{build_boot_plan_iff, build_boot_plan_of_read}
use nlboot.Cli.{
  Content, parsed, CliError, protocol, verification, Args, load_json, printed, finish,
  verify_manifest_document, read_now, plan_document, main,
}
use nlboot.Cli.Now.{StatesNow, read_now_iff}
use nlboot.Cli.Verified.{IsVerified, verify_manifest_document_iff}

map_err_ok : {E F A : Type 0} (f : E → F) (r : Result E A) {a : A} → map_err f r ≡ ok a → r ≡ ok a
map_err_ok f (ok a) h = ap ok (ok-injective _ _ h)
map_err_ok f (err e) h = cc

load_json_sound :
    (c : Content) {fields : Fields} → load_json c ≡ ok fields → c ≡ parsed (obj fields)
load_json_sound (parsed (obj fields)) h = ground arith
load_json_sound _ h = cc

-- What `main` prints for a plan.
abbrev pub shown_plan : Fields → Value
shown_plan plan = obj (field "ok" (bool true) (field "plan" (obj plan) end))

finish_sound :
    (r : Result CliError Fields) {v : Value}
    → finish r ≡ printed v
    → (plan : Fields) × (r ≡ ok plan) × (v ≡ shown_plan plan)
finish_sound (ok plan) h = (plan, refl, ground arith)
finish_sound (err e) h = ground arith

module _ (crypto : Crypto) (iso : IsoFormat) (local_to_utc : ℕ → Option ℕ)
    (show : Value → String) where
  -- The documents, times and keys with which the command prints a plan.
  pub record Accepts (args : Args) (key_clock plan_clock : ℕ) (plan : Fields) : Type 0 where
    pub now : Option ℕ
    pub states_now : StatesNow iso local_to_utc args.now now
    pub manifest_doc : Fields
    pub manifest_file : args.manifest ≡ parsed (obj manifest_doc)
    pub keys_doc : Fields
    pub keys_file : args.trusted_keys ≡ parsed (obj keys_doc)
    pub verified : IsVerified crypto iso manifest_doc keys_doc args.require_fips key_clock
    pub manifest : SignedBootManifest
    pub encodes_manifest : ManifestLaws.Encodes manifest_doc manifest
    pub token_doc : Fields
    pub token_file : args.token ≡ parsed (obj token_doc)
    pub token : EnrollmentToken
    pub encodes_token : TokenLaws.Encodes iso token_doc token
    pub authorizes : Authorizes token manifest (now_or now plan_clock)
    pub boot_plan : BootPlan
    pub planned : IsPlan manifest token boot_plan
    pub output : plan ≡ Plan.to_dict show boot_plan

  module _ (args : Args) (key_clock plan_clock : ℕ) where
    plan-Yields :
        Yields
          (Accepts args key_clock plan_clock)
          (plan_document crypto iso local_to_utc show args key_clock plan_clock)
    unfolding plan_document
    plan-Yields = Yields-bind (read_now iso local_to_utc args.now) _ λ now e1.
        Yields-bind (load_json args.manifest) _ λ manifest_doc e2.
          Yields-bind (load_json args.trusted_keys) _ λ keys_doc e3.
            Yields-bind
              (map_err verification (
                verify_manifest_document crypto iso manifest_doc keys_doc args.require_fips
                  key_clock))
              _
              λ u e4.
                Yields-bind (map_err protocol (Manifest.from_dict manifest_doc)) _ λ manifest e5.
                  Yields-bind (load_json args.token) _ λ token_doc e6.
                    Yields-bind (map_err protocol (Token.from_dict iso token_doc)) _ λ token e7.
                      Yields-bind (map_err protocol (build_boot_plan manifest token now plan_clock))
                        _
                        λ plan e8.
                          let (authorizes, _, planned) =
                            (build_boot_plan_iff manifest token now plan_clock plan).0
                              (map_err_ok protocol _ e8) in
                          Yields-ok _ (record {
                            now = now;
                            states_now = (read_now_iff iso local_to_utc args.now now).0 e1;
                            manifest_doc = manifest_doc;
                            manifest_file = load_json_sound _ e2;
                            keys_doc = keys_doc;
                            keys_file = load_json_sound _ e3;
                            verified =
                                (verify_manifest_document_iff crypto iso manifest_doc keys_doc
                                    args.require_fips key_clock).0
                                  (map_err_ok verification _ e4);
                            manifest = manifest;
                            encodes_manifest =
                                (ManifestLaws.manifest_from_dict_iff manifest_doc manifest).0
                                  (map_err_ok protocol _ e5);
                            token_doc = token_doc;
                            token_file = load_json_sound _ e6;
                            token = token;
                            encodes_token =
                                (TokenLaws.token_from_dict_iff iso token_doc token).0
                                  (map_err_ok protocol _ e7);
                            authorizes = authorizes;
                            boot_plan = plan;
                            planned = planned;
                            output = refl;
                          })

    plan_complete :
        (plan : Fields)
        → Accepts args key_clock plan_clock plan
        → plan_document crypto iso local_to_utc show args key_clock plan_clock ≡ ok plan
    unfolding plan_document
    plan_complete plan a =
        let read =
          (ManifestLaws.manifest_from_dict_iff a.manifest_doc a.manifest).1 a.encodes_manifest in
        bind_ok _ ((read_now_iff iso local_to_utc args.now a.now).1 a.states_now) (
          bind_ok _ (ap load_json a.manifest_file) (
            bind_ok _ (ap load_json a.keys_file) (
              bind_ok _
                (ap (map_err verification) (
                  (verify_manifest_document_iff crypto iso a.manifest_doc a.keys_doc
                      args.require_fips key_clock).1
                    a.verified))
                (bind_ok _ (ap (map_err protocol) read) (
                  bind_ok _ (ap load_json a.token_file) (
                    bind_ok _
                      (ap (map_err protocol)
                        ((TokenLaws.token_from_dict_iff iso a.token_doc a.token).1 a.encodes_token))
                      (bind_ok _
                        (ap (map_err protocol) (
                          build_boot_plan_of_read a.manifest a.token a.now plan_clock a.manifest_doc
                            a.boot_plan read a.authorizes a.planned))
                        (ap ok (sym a.output)))))))))

    -- The command prints a plan exactly if the `--now` text is a time, which is one of the
    -- system's time zone where it states none, or is empty or not given, the manifest's file holds
    -- a manifest whose signature verifies under one of the trusted keys, and the token's file
    -- holds a token that authorizes that manifest; and it prints the plan of that manifest and
    -- that token, with the menu's default entry selected.
    pub main_prints_iff :
        (plan : Fields)
        → (main crypto iso local_to_utc show args key_clock plan_clock ≡ printed (shown_plan plan))
          ↔ Accepts args key_clock plan_clock plan
    unfolding main
    main_prints_iff plan = (
      λ h.
          let (found, made, same) = finish_sound _ h in
          plan-Yields.at plan (made ∙ ap ok (ground arith)),
      λ a. ap finish (plan_complete plan a),
    )
