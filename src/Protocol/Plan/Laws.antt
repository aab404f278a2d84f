-- ===== src/Protocol/Plan/Laws.antt =====
-- `build_boot_plan` of protocol.py: what it asks, and what a plan promises.
use text.Mathlib.Text.{starts_with}
use nlboot.Base.{
  ℕ, String, ◌≡◌, refl, sym, ap, ◌∙◌, ◌↔◌, Bool, true, false, ◌||◌, Option, none, some, [], ◌∷◌,
  contains, All, ok, arith, >>=-eq-ok, bind_ok, ok-injective,
}
use nlboot.Json.{Fields}
use nlboot.Time.{now_or}
use nlboot.Protocol.Modes.{BootMode}
use nlboot.Protocol.Menu.{BootMenu, default_entry}
use nlboot.Protocol.Menu.Laws.{default_entry-id}
use nlboot.Protocol.Manifest.{SignedBootManifest}
use nlboot.Protocol.Manifest as Manifests
use nlboot.Protocol.Manifest.Matching.{MenuMatches, validate_menu_iff}
use nlboot.Protocol.Manifest.Laws as ManifestLaws
use nlboot.Protocol.Token.{EnrollmentToken, validate_for_manifest}
use nlboot.Protocol.Token.Validity.{Authorizes, validate_for_manifest_iff}
use nlboot.Protocol.Plan.Contract.{selection, IsPlan, plan_of_iff}
use nlboot.Protocol.Plan.{
  BootPlan, plan_of, select_entry, build_boot_plan, allowed_operations_for_mode,
  proof_requirements_for_mode,
}

select_entry_sound :
    (menu : Option BootMenu) (m : SignedBootManifest) {id : Option String}
    → select_entry menu m ≡ ok id
    → MenuMatches menu m × (id ≡ selection menu)
unfolding select_entry
select_entry_sound none m h = (tt, ground arith)
select_entry_sound (some menu) m h =
    let (u, valid, chosen) = >>=-eq-ok (Manifests.validate_for_manifest menu m) _ h in
    let (e, found, same) = >>=-eq-ok (default_entry menu) _ chosen in
    (
      (validate_menu_iff (some menu) m).0 valid,
      sym (ok-injective _ _ same) ∙ ap some (default_entry-id menu found),
    )

select_entry_complete :
    (menu : Option BootMenu) (m : SignedBootManifest)
    → MenuMatches menu m
    → select_entry menu m ≡ ok (selection menu)
unfolding select_entry
select_entry_complete none m c = refl
select_entry_complete (some menu) m (e, found, c) =
    bind_ok _ ((validate_menu_iff (some menu) m).1 (e, found, c))
      (bind_ok _ found (ap (λ id. ok (some id)) (default_entry-id menu found)))

module _ (m : SignedBootManifest) (t : EnrollmentToken) (now : Option ℕ) (clock : ℕ) where
  build_sound :
      {p : BootPlan}
      → build_boot_plan m t now clock ≡ ok p
      → Authorizes t m (now_or now clock)
        × MenuMatches m.boot_menu m
        × (p ≡ plan_of m t (selection m.boot_menu))
  unfolding build_boot_plan
  build_sound h =
      let (u, valid, rest) = >>=-eq-ok (validate_for_manifest t m now clock) _ h in
      let (id, selected, same) = >>=-eq-ok (select_entry m.boot_menu m) _ rest in
      let (matched, which) = select_entry_sound m.boot_menu m selected in
      (
        (validate_for_manifest_iff t m now clock).0 valid,
        matched,
        sym (ok-injective _ _ same) ∙ ap (plan_of m t) which,
      )

  build_complete :
      Authorizes t m (now_or now clock)
      → MenuMatches m.boot_menu m
      → build_boot_plan m t now clock ≡ ok (plan_of m t (selection m.boot_menu))
  unfolding build_boot_plan
  build_complete a c =
      bind_ok _ ((validate_for_manifest_iff t m now clock).1 a)
        (bind_ok _ (select_entry_complete m.boot_menu m c) refl)

  -- `build_boot_plan` returns a plan exactly if the token authorizes the manifest at the given
  -- time, or at the clock's, and the menu, where there is one, has a default entry that matches
  -- the manifest; the plan then has the action, policy, operations, proofs and offline fallback of
  -- the manifest's mode, does not execute, selects the menu's default entry, and carries the
  -- manifest's id, releases, artifacts, algorithm, profile and menu, and the token's id.
  pub build_boot_plan_iff :
      (p : BootPlan)
      → (build_boot_plan m t now clock ≡ ok p)
        ↔ (Authorizes t m (now_or now clock) × MenuMatches m.boot_menu m × IsPlan m t p)
  build_boot_plan_iff p = (
    λ h. let (a, c, same) = build_sound h in (a, c, (plan_of_iff m t p).0 same),
    λ (a, c, planned). build_complete a c ∙ ap ok (sym ((plan_of_iff m t p).1 planned)),
  )

  -- For a manifest that `SignedBootManifest.from_dict` returned, the menu's check cannot fail: its
  -- plan is built if the token authorizes the manifest.
  pub build_boot_plan_of_read :
      (fields : Fields) (p : BootPlan)
      → Manifests.from_dict fields ≡ ok m
      → Authorizes t m (now_or now clock)
      → IsPlan m t p
      → build_boot_plan m t now clock ≡ ok p
  build_boot_plan_of_read fields p h a planned =
      (build_boot_plan_iff p).1
        (a, ((ManifestLaws.manifest_from_dict_iff fields m).0 h).menu_matches, planned)

-- An operation that plans, shows the menu or verifies artifacts.
abbrev pub is_planning : String → Bool
is_planning op = contains op ("present-menu" ∷ "verify-artifacts" ∷ []) || starts_with op "plan-"

operations_are_planning :
    (mode : BootMode) → All (λ op. is_planning op ≡ true) (allowed_operations_for_mode mode)
unfolding allowed_operations_for_mode
operations_are_planning BootMode.installer = (refl, (refl, (refl, tt)))
operations_are_planning BootMode.recovery = (refl, (refl, (refl, (refl, tt))))
operations_are_planning BootMode.ephemeral = (refl, (refl, (refl, tt)))
operations_are_planning BootMode.bootstrap = (refl, (refl, (refl, tt)))

-- What every plan promises.
pub record IsSafe (m : SignedBootManifest) (t : EnrollmentToken) (p : BootPlan) : Type 0 where
  pub no_execution : p.execute ≡ false
  pub operations : All (λ op. is_planning op ≡ true) p.allowed_operations
  pub no_unsigned : p.offline_fallback.allows_unsigned_artifacts ≡ false
  pub signature_required : p.offline_fallback.requires_signature_verification ≡ true
  pub one_time_proof : contains "validated_one_time_token" p.proof_requirements ≡ true
  pub signature_proof : contains "verified_manifest_signature" p.proof_requirements ≡ true
  pub boot_release : p.boot_release_set_id ≡ m.boot_release_set_id
  pub base_release : p.release_set_ref ≡ m.base_release_set_ref
  pub artifacts : p.artifacts ≡ m.artifacts
  pub authorized_by : p.authorized_by ≡ t.token_id

proofs_are_required :
    (mode : BootMode)
    → (contains "validated_one_time_token" (proof_requirements_for_mode mode) ≡ true)
      × (contains "verified_manifest_signature" (proof_requirements_for_mode mode) ≡ true)
unfolding proof_requirements_for_mode
proofs_are_required BootMode.recovery = (refl, refl)
proofs_are_required BootMode.installer = (refl, refl)
proofs_are_required _ = (refl, refl)

plan_of-IsSafe :
    (m : SignedBootManifest) (t : EnrollmentToken) (id : Option String)
    → IsSafe m t (plan_of m t id)
unfolding plan_of
plan_of-IsSafe m t id = record {
  no_execution = refl;
  operations = operations_are_planning m.boot_mode;
  no_unsigned = refl;
  signature_required = refl;
  one_time_proof = (proofs_are_required m.boot_mode).0;
  signature_proof = (proofs_are_required m.boot_mode).1;
  boot_release = refl;
  base_release = refl;
  artifacts = refl;
  authorized_by = refl;
}

-- Every plan that is built leaves `execute` false, allows only operations that plan, show the menu
-- or verify artifacts, never allows unsigned artifacts, asks for the proofs of the signature and
-- of the one-time token, and carries the manifest's releases and artifacts and the token's id.
pub build_boot_plan-IsSafe :
    (m : SignedBootManifest) (t : EnrollmentToken) (now : Option ℕ) (clock : ℕ) (p : BootPlan)
    → build_boot_plan m t now clock ≡ ok p
    → IsSafe m t p
build_boot_plan-IsSafe m t now clock p h =
    rw (build_sound m t now clock h).2 (plan_of-IsSafe m t (selection m.boot_menu))
