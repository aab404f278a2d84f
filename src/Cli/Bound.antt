-- ===== src/Cli/Bound.antt =====
-- cli.py on two manifest documents with one canonical payload and one signature: the command makes
-- the same of both.
use mathlib.Core.Path.{subst}
use mathlib.Core.Bool.{false≢true}
use nlboot.Base.{
  ◌⊎◌, inl, inr, err, Result-cases, ℕ, false, eq_iff, String, ◌≡◌, refl, sym, ap, ◌∙◌, Bool, true,
  Option, none, some, ok, ◌==◌,
}
use nlboot.Json.{Value, Fields, str, obj, get, is_text, text_of}
use nlboot.Json.Write.{sorted, sorted_fields}
use nlboot.Json.Numbers.{numbers_fields}
use nlboot.Json.Faithful.{get-sorted_fields}
use nlboot.Time.{IsoFormat}
use nlboot.Crypto.{Crypto}
use nlboot.Protocol.Errors.{NlbootError}
use nlboot.Protocol.Checks.{TextAt}
use nlboot.Protocol.Manifest.{SignedBootManifest, shown_items, read_menu, from_dict}
use nlboot.Protocol.Manifest.Matching.{MenuMatches, EncodesMenu, read_menu_iff}
use nlboot.Protocol.Manifest.Laws.{IsFilled, HasArtifacts, Encodes, manifest_from_dict_iff}
use nlboot.Protocol.Sorted.{read_menu-sorted}
use nlboot.Verify.{canonical_payload, fips_ready_profile}
use nlboot.Protocol.Menu.{BootMenu}
use nlboot.Verify.Binding.{get_binds}
use nlboot.Verify.Sorted.{is_text-sorted, text_of-sorted}
use nlboot.Cli.{verify_manifest_document}

str_of_sorted : (v : Value) {s : String} → sorted v ≡ str s → v ≡ str s
unfolding sorted
str_of_sorted (str t) h = h
str_of_sorted _ h = cc

-- An object that agrees with a sorted object is one, with the same sorted members.
obj_of_sorted :
    (v : Value) (fs : Fields)
    → sorted v ≡ sorted (obj fs)
    → (gs : Fields) × (v ≡ obj gs) × (sorted_fields gs ≡ sorted_fields fs)
unfolding sorted
obj_of_sorted (obj gs) fs h = (gs, refl, cc h)
obj_of_sorted _ fs h = cc h

IsFilled-same : (v w : Value) → sorted v ≡ sorted w → IsFilled v → IsFilled w
unfolding sorted
IsFilled-same v w h (s, e, filled) = (s, str_of_sorted w (sym h ∙ ap sorted e), filled)

IsFilled-ref :
    (fs gs : Fields) (key : String)
    → sorted_fields gs ≡ sorted_fields fs
    → IsFilled (get fs key)
    → IsFilled (get gs key)
IsFilled-ref fs gs key h =
    IsFilled-same (get fs key) (get gs key)
      (sym (get-sorted_fields fs key) ∙ ap (λ ms. get ms key) (sym h) ∙ get-sorted_fields gs key)

-- the manifest with other artifacts
abbrev pub with_artifacts : SignedBootManifest → Fields → SignedBootManifest
with_artifacts m refs = record m { artifacts = shown_items refs }

MenuMatches-with_artifacts :
    (menu : Option BootMenu) (m : SignedBootManifest) (refs : Fields)
    → MenuMatches menu m
    → MenuMatches menu (with_artifacts m refs)
MenuMatches-with_artifacts none m refs h = tt
MenuMatches-with_artifacts (some menu) m refs (e, d, c) =
    (e, d, record { boot_release = c.boot_release; base_release = c.base_release; mode = c.mode })

module _ (a b : Fields) (a_numbers : numbers_fields a ≡ true) (b_numbers : numbers_fields b ≡ true)
    (same_payload : canonical_payload a ≡ canonical_payload b)
    (same_signature : get a "signature_hex" ≡ get b "signature_hex") where
  bound :
      (key : String) → (key == "signature_hex") ≡ false → sorted (get a key) ≡ sorted (get b key)
  bound key other =
      get_binds a b key a_numbers b_numbers
        (λ e. false≢true (sym other ∙ (eq_iff key "signature_hex").1 e)) same_payload

  bound_text :
      (key : String) {s : String}
      → (key == "signature_hex") ≡ false
      → TextAt a key s
      → TextAt b key s
  unfolding sorted
  bound_text key other (e, h) = (str_of_sorted (get b key) (sym (bound key other) ∙ ap sorted e), h)

  bound_menu :
      (menu : Option BootMenu)
      → EncodesMenu (get a "boot_menu") menu
      → EncodesMenu (get b "boot_menu") menu
  bound_menu menu h = (read_menu_iff (get b "boot_menu") menu).0 (
      sym (read_menu-sorted (get b "boot_menu"))
      ∙ ap read_menu (sym (bound "boot_menu" refl))
      ∙ read_menu-sorted (get a "boot_menu")
      ∙ (read_menu_iff (get a "boot_menu") menu).1 h)

  Encodes-bound :
      (m : SignedBootManifest) (refs shown : Fields)
      → get a "artifacts" ≡ obj refs
      → get b "artifacts" ≡ obj shown
      → sorted_fields shown ≡ sorted_fields refs
      → Encodes a m
      → Encodes b (with_artifacts m shown)
  unfolding sorted
  Encodes-bound m refs shown d e same h =
      let arts : HasArtifacts refs =
        subst HasArtifacts (cc (sym h.artifacts ∙ d)) h.has_artifacts in
      record {
        manifest_id = bound_text "manifest_id" refl h.manifest_id;
        boot_release_set_id = bound_text "boot_release_set_id" refl h.boot_release_set_id;
        base_release_set_ref = bound_text "base_release_set_ref" refl h.base_release_set_ref;
        signature_ref = bound_text "signature_ref" refl h.signature_ref;
        signer_ref = bound_text "signer_ref" refl h.signer_ref;
        signature_algorithm = bound_text "signature_algorithm" refl h.signature_algorithm;
        crypto_profile = bound_text "crypto_profile" refl h.crypto_profile;
        signature_hex = (sym same_signature ∙ h.signature_hex.0, h.signature_hex.1);
        algorithm_is_fips = h.algorithm_is_fips;
        profile_is_fips = h.profile_is_fips;
        boot_mode =
            str_of_sorted (get b "boot_mode")
              (sym (bound "boot_mode" refl) ∙ ap sorted h.boot_mode);
        refs = shown;
        artifacts = e;
        shown_refs = refl;
        has_artifacts = record {
          kernel = IsFilled-ref refs shown _ same arts.kernel;
          initrd = IsFilled-ref refs shown _ same arts.initrd;
          rootfs = IsFilled-ref refs shown _ same arts.rootfs;
        };
        signature_urn = h.signature_urn;
        boot_menu = bound_menu m.boot_menu h.boot_menu;
        menu_matches = MenuMatches-with_artifacts m.boot_menu m shown h.menu_matches;
      }

  is_text-bound :
      (key text : String)
      → (key == "signature_hex") ≡ false
      → is_text (get a key) text ≡ is_text (get b key) text
  is_text-bound key text other =
      sym (is_text-sorted (get a key) text)
      ∙ ap (λ v. is_text v text) (bound key other)
      ∙ is_text-sorted (get b key) text

  verify_manifest_document-bound :
      (crypto : Crypto) (iso : IsoFormat) (keys : Fields) (require_fips : Bool) (clock : ℕ)
      → verify_manifest_document crypto iso a keys require_fips clock
        ≡ verify_manifest_document crypto iso b keys require_fips clock
  unfolding verify_manifest_document
  verify_manifest_document-bound crypto iso keys require_fips clock =
      let signer : text_of (get a "signer_ref") ≡ text_of (get b "signer_ref") =
        sym (text_of-sorted (get a "signer_ref"))
        ∙ ap text_of (bound "signer_ref" refl)
        ∙ text_of-sorted (get b "signer_ref") in
      let algorithm : (text : String)
          → is_text (get a "signature_algorithm") text
            ≡ is_text (get b "signature_algorithm") text =
        λ text. is_text-bound "signature_algorithm" text refl in
      simp (
        same_payload,
        same_signature,
        signer,
        algorithm,
        is_text-bound "crypto_profile" fips_ready_profile refl,
      )

  -- If one document is read as a manifest, the other is read as that manifest with the same
  -- artifacts, which may stand in another order.
  from_dict-bound :
      (m : SignedBootManifest)
      → from_dict a ≡ ok m
      → (refs : Fields) × (shown : Fields) × (get a "artifacts" ≡ obj refs)
        × (get b "artifacts" ≡ obj shown)
        × (sorted_fields shown ≡ sorted_fields refs)
        × (from_dict b ≡ ok (with_artifacts m shown))
  from_dict-bound m read =
      let h = (manifest_from_dict_iff a m).0 read in
      let (shown, e, same) =
        obj_of_sorted (get b "artifacts") h.refs
          (sym (bound "artifacts" refl) ∙ ap sorted h.artifacts) in
      (
        h.refs,
        shown,
        h.artifacts,
        e,
        same,
        (manifest_from_dict_iff b (with_artifacts m shown)).1
            (Encodes-bound m h.refs shown h.artifacts e same h),
      )

-- Both documents are read as one manifest, but for the order of its artifacts.
pub record IsSameManifest (a b : Fields) : Type 0 where
  pub manifest : SignedBootManifest
  pub refs : Fields
  pub shown : Fields
  pub artifacts : get a "artifacts" ≡ obj refs
  pub other_artifacts : get b "artifacts" ≡ obj shown
  pub same_artifacts : sorted_fields shown ≡ sorted_fields refs
  pub read : from_dict a ≡ ok manifest
  pub other_read : from_dict b ≡ ok (with_artifacts manifest shown)

-- Neither document is read as a manifest.
pub record IsRefused (a b : Fields) : Type 0 where
  pub raised : NlbootError
  pub other_raised : NlbootError
  pub read : from_dict a ≡ err raised
  pub other_read : from_dict b ≡ err other_raised

-- A signature binds the whole manifest: of two documents that have the same canonical payload and
-- the same "signature_hex", and whose numbers stand as Python prints numbers, both pass
-- `verify_manifest_document` or both raise the same, with any keys and at any time; and either
-- `SignedBootManifest.from_dict` raises for both, or it reads both as one manifest, with the same
-- artifacts, which may stand in another order.
pub manifest_bound :
    (a b : Fields)
    → numbers_fields a ≡ true
    → numbers_fields b ≡ true
    → canonical_payload a ≡ canonical_payload b
    → get a "signature_hex" ≡ get b "signature_hex"
    → (crypto : Crypto) (iso : IsoFormat) (keys : Fields) (require_fips : Bool) (clock : ℕ)
    → (verify_manifest_document crypto iso b keys require_fips clock
        ≡ verify_manifest_document crypto iso a keys require_fips clock)
      × (IsSameManifest a b ⊎ IsRefused a b)
manifest_bound a b a_numbers b_numbers payload signature crypto iso keys require_fips clock = (
  sym (
      verify_manifest_document-bound a b a_numbers b_numbers payload signature crypto iso keys
        require_fips clock),
  elim (Result-cases (from_dict a)) [
    | inl (m, e) ↦
        let (refs, shown, f, g, same, read) =
          from_dict-bound a b a_numbers b_numbers payload signature m e in
        inl (record {
          manifest = m;
          refs = refs;
          shown = shown;
          artifacts = f;
          other_artifacts = g;
          same_artifacts = same;
          read = e;
          other_read = read;
        })
    | inr (raised, e) ↦ elim (Result-cases (from_dict b)) [
      | inl (m, f) ↦
          let (refs, shown, _, _, _, read) =
            from_dict-bound b a b_numbers a_numbers (sym payload) (sym signature) m f in
          cc (e, read)
      | inr (other, f) ↦
          inr (record { raised = raised; other_raised = other; read = e; other_read = f })
    ]
  ],
)
