-- ===== src/Tools/Lifecycle/Laws.antt =====
-- validate_lifecycle_contracts.py: when the groups of requirements pass.
use Prim.Native.String.{◌++◌ as append}
use nlboot.Base.{
  String, ◌≡◌, refl, ap, ◌∙◌, ◌↔◌, inl, inr, true, false, some, [], ◌∷◌, Result, ok, ◌>>=◌, eq_refl,
  bind_ok, >>=-eq-ok, >>-eq-ok_iff, true_of_guard,
}
use nlboot.Json.{Value, Fields, null, str, obj, get_or, is_text}
use nlboot.Json.Paths.{HoldsAt, get_or-cases, member, get_or_of_member, is_text_sound}
use nlboot.Tools.Lifecycle.{
  Raised, require, get_from, empty, check_release_set, check_boot_release_set,
  check_lifecycle_record, check_schema, check_header,
}
use nlboot.Tools.Lifecycle.Documents.{
  IsSchema, HasHeader, IsReleaseSet, IsBootReleaseSet, IsLifecycleRecord, fields_of, get_from_sound,
  nested_sound, nested_complete, require_flag_iff, require_start_iff, require_inner_start_iff,
  require_text_iff,
}

module _ (rel : String) (example : Fields) where
  pub check_release_set_iff : (check_release_set rel example ≡ ok tt) ↔ IsReleaseSet example
  unfolding check_release_set
  check_release_set_iff =
      >>-eq-ok_iff
        (require_start_iff example "releaseSetId" "urn:srcos:release-set:" refl rel
          "invalid releaseSetId")
        (>>-eq-ok_iff
          (require_inner_start_iff example "signing" "signatureRef" "urn:srcos:signature:" refl rel
            "signatureRef required")
          (>>-eq-ok_iff
            (require_flag_iff example "rollback" "lastKnownGoodRequired" true rel
              "last-known-good rollback required")
            (require_flag_iff example "evidence" "emitFingerprint" true rel
              "fingerprint evidence required")))

  pub check_boot_release_set_iff :
      (check_boot_release_set rel example ≡ ok tt) ↔ IsBootReleaseSet example
  unfolding check_boot_release_set
  check_boot_release_set_iff =
      >>-eq-ok_iff
        (require_start_iff example "bootReleaseSetId" "urn:srcos:boot-release-set:" refl rel
          "invalid bootReleaseSetId")
        (>>-eq-ok_iff
          (require_flag_iff example "authorization" "oneTimeUseRequired" true rel
            "one-time enrollment required")
          (>>-eq-ok_iff
            (require_flag_iff example "authorization" "deviceClaimRequired" true rel
              "device claim required")
            (>>-eq-ok_iff
              (require_flag_iff example "offlineFallback" "allowUnsignedFallback" false rel
                "unsigned fallback must be denied")
              (require_flag_iff example "proofs" "emitAdapterRecord" true rel
                "adapter evidence required"))))

  pub check_lifecycle_record_iff :
      (check_lifecycle_record rel example ≡ ok tt) ↔ IsLifecycleRecord example
  unfolding check_lifecycle_record
  check_lifecycle_record_iff =
      >>-eq-ok_iff
        (require_start_iff example "recordId" "urn:srcos:lifecycle-state-record:" refl rel
          "invalid recordId")
        (>>-eq-ok_iff
          (require_flag_iff example "transition" "allowed" true rel
            "example transition should be allowed")
          (>>-eq-ok_iff
            (require_flag_iff example "policy" "approvalRequired" true rel
              "lifecycle approval required")
            (require_flag_iff example "sideEffects" "hostMutation" false rel
              "signing example must not mutate host")))

  pub check_header_iff :
      (kind : String) → (check_header kind rel example ≡ ok tt) ↔ HasHeader kind example
  unfolding check_header
  check_header_iff kind =
      >>-eq-ok_iff
        (require_text_iff example "schemaVersion" "v0.1" rel "schemaVersion must be v0.1")
        (require_text_iff example "kind" kind rel (append "kind must be " kind))

  -- What the chain of three lookups finds.
  const_sound :
      (kind_schema const : Value) (kind : String)
      → get_from (get_or example "properties" empty) "kind" empty ≡ ok kind_schema
      → get_from kind_schema "const" null ≡ ok const
      → is_text const kind ≡ true
      → HoldsAt example ("properties" ∷ "kind" ∷ "const" ∷ []) (str kind)
  const_sound kind_schema const kind e f test =
      let (object, inside) = get_from_sound kind_schema "const" null const f in
      let same = is_text_sound const kind test in
      let listed : member "const" (fields_of kind_schema) ≡ some (str kind) =
        elim (get_or-cases (fields_of kind_schema) "const" null) [
          | inl blank ↦ cc (same, inside, blank)
          | inr found ↦ found ∙ ap some (inside ∙ same)
        ] in
      let (properties, outer, held) =
        nested_sound example "properties" "kind" empty kind_schema e
          (λ blank. cc (listed, ap (λ v. member "const" (fields_of v)) blank)) in
      (properties, outer, (fields_of kind_schema, held ∙ ap some object, listed))

  const_complete :
      (kind : String)
      → HoldsAt example ("properties" ∷ "kind" ∷ "const" ∷ []) (str kind)
      → (kind_schema : Value) × (get_from (get_or example "properties" empty) "kind" empty
          ≡ ok kind_schema)
        × (get_from kind_schema "const" null ≡ ok (str kind))
  const_complete kind (properties, e, (inner, f, listed)) = (
    obj inner,
    nested_complete example "properties" "kind" empty (obj inner) (properties, e, f),
    ap ok (get_or_of_member inner "const" null (str kind) listed),
  )

  -- The requirement on the `const` of the schema.
  const_check : String → Result Raised (Unit {0})
  const_check kind = get_from (get_or example "properties" empty) "kind" empty >>= λ kind_schema.
      get_from kind_schema "const" null >>= λ const.
      require (is_text const kind) rel (append "kind const must be " kind)

  const_check_iff :
      (kind : String)
      → (const_check kind ≡ ok tt)
        ↔ HoldsAt example ("properties" ∷ "kind" ∷ "const" ∷ []) (str kind)
  unfolding const_check
  const_check_iff kind = (
    λ h.
        let (kind_schema, e, rest) =
          >>=-eq-ok (get_from (get_or example "properties" empty) "kind" empty)
            (λ v. get_from v "const" null >>= λ c.
              require (is_text c kind) rel (append "kind const must be " kind))
            h in
        let (const, f, test) =
          >>=-eq-ok (get_from kind_schema "const" null)
            (λ c. require (is_text c kind) rel (append "kind const must be " kind)) rest in
        const_sound kind_schema const kind e f (true_of_guard _ _ test),
    λ held.
        let (kind_schema, e, f) = const_complete kind held in
        bind_ok _ e (
          bind_ok _ f (ap (λ b. require b rel (append "kind const must be " kind)) (eq_refl kind))),
  )

  pub check_schema_iff :
      (kind : String) → (check_schema kind rel example ≡ ok tt) ↔ IsSchema kind example
  unfolding check_schema const_check
  check_schema_iff kind =
      >>-eq-ok_iff
        (require_text_iff example "$schema" "https://json-schema.org/draft/2020-12/schema" rel
          "must use JSON Schema draft 2020-12")
        (>>-eq-ok_iff (require_text_iff example "type" "object" rel "must describe an object")
          (const_check_iff kind))
