-- ===== src/Verify/Binding.antt =====
-- What a signature over a canonical payload of verify.py binds: documents with the same payload.
use mathlib.Core.Option
use nlboot.Base.{
  ℕ, String, ◌≡◌, refl, sym, ap, ◌∙◌, ◌==◌, eq_iff, true, arith, Option, Bool-cases, inl, inr,
}
use nlboot.Json.{Fields, null, obj, end, field, get, array_of}
use nlboot.Json.Dump.{dumps}
use nlboot.Json.Paths.{member, get_or-member, or_default}
use nlboot.Json.Write.{sorted, sorted_fields}
use nlboot.Json.Numbers.{numbers, numbers_fields}
use nlboot.Json.Faithful.{dumps_iff, or_default-map, member-sorted_fields}
use nlboot.Time.{IsoFormat}
use nlboot.Verify.{without, canonical_payload, canonical_trust_bundle_payload, load_trusted_keys}
use nlboot.Verify.Sorted.{keys_in, load_trusted_keys-sorted}

numbers-without :
    (skipped : String) (fs : Fields)
    → numbers_fields fs ≡ true
    → numbers_fields (without skipped fs) ≡ true
unfolding numbers
numbers-without skipped end h = refl
numbers-without skipped (field k v fs) h = elim (Bool-cases (k == skipped)) [
  | inl e ↦ rw e (numbers-without skipped fs (ground arith))
  | inr e ↦ let ih = numbers-without skipped fs (ground arith) in rw e (ground arith)
]

member-without :
    (skipped key : String) (fs : Fields)
    → (key ≡ skipped → ⊥)
    → member key (without skipped fs) ≡ member key fs
member-without skipped key end differ = refl
member-without skipped key (field k v fs) differ = elim (Bool-cases (k == skipped)) [
  | inl e ↦ elim (Bool-cases (k == key)) [
    | inl f ↦ absurd (differ (sym ((eq_iff k key).0 f) ∙ (eq_iff k skipped).0 e))
    | inr f ↦ rw (e, f) (member-without skipped key fs differ)
  ]
  | inr e ↦ rw (e, member-without skipped key fs differ) refl
]

-- Objects with the same text have the same sorted members.
same_fields :
    (fs gs : Fields)
    → numbers_fields fs ≡ true
    → numbers_fields gs ≡ true
    → dumps (obj fs) ≡ dumps (obj gs)
    → sorted_fields fs ≡ sorted_fields gs
unfolding numbers sorted
same_fields fs gs p q h = let same = (dumps_iff (obj fs) (obj gs) p q).0 h in cc same

-- Two documents with the same canonical payload, whose numbers stand as Python prints numbers,
-- have the same members but for "signature_hex", up to the order of the members of the objects in
-- them.
pub canonical_payload_binds :
    (a b : Fields) (key : String)
    → numbers_fields a ≡ true
    → numbers_fields b ≡ true
    → (key ≡ "signature_hex" → ⊥)
    → canonical_payload a ≡ canonical_payload b
    → Option.map sorted (member key a) ≡ Option.map sorted (member key b)
unfolding canonical_payload
canonical_payload_binds a b key p q differ h =
    ap (Option.map sorted) (sym (member-without "signature_hex" key a differ))
    ∙ sym (member-sorted_fields key _)
    ∙ ap (member key) (same_fields _ _ (numbers-without _ a p) (numbers-without _ b q) h)
    ∙ member-sorted_fields key _
    ∙ ap (Option.map sorted) (member-without "signature_hex" key b differ)

-- So `get` finds the same in both, up to the order of members.
pub get_binds :
    (a b : Fields) (key : String)
    → numbers_fields a ≡ true
    → numbers_fields b ≡ true
    → (key ≡ "signature_hex" → ⊥)
    → canonical_payload a ≡ canonical_payload b
    → sorted (get a key) ≡ sorted (get b key)
unfolding sorted
get_binds a b key p q differ h =
    ap sorted (get_or-member a key null)
    ∙ sym (or_default-map (member key a) null refl)
    ∙ ap (λ o. or_default o null) (canonical_payload_binds a b key p q differ h)
    ∙ or_default-map (member key b) null refl
    ∙ ap sorted (sym (get_or-member b key null))

module _ (iso : IsoFormat) where
  -- The keys of a document are those of the document without a member of another name.
  load_trusted_keys-without :
      (skipped : String) (fs : Fields) (now : Option ℕ) (clock : ℕ)
      → ("keys" ≡ skipped → ⊥)
      → load_trusted_keys iso (without skipped fs) now clock ≡ load_trusted_keys iso fs now clock
  unfolding load_trusted_keys keys_in
  load_trusted_keys-without skipped fs now clock differ =
      ap (λ v. keys_in iso now clock (array_of v))
        (get_or-member (without skipped fs) "keys" null
          ∙ ap (λ o. or_default o null) (member-without skipped "keys" fs differ)
          ∙ sym (get_or-member fs "keys" null))

  -- the members that the signature of a bundle covers
  abbrev signed : Fields → Fields
  signed fs = without "signatures" (without "signature_hex" fs)

  load_signed :
      (fs : Fields) (now : Option ℕ) (clock : ℕ)
      → load_trusted_keys iso (sorted_fields (signed fs)) now clock
        ≡ load_trusted_keys iso fs now clock
  load_signed fs now clock =
      load_trusted_keys-sorted iso _ now clock
      ∙ load_trusted_keys-without "signatures" _ now clock (λ e. cc e)
      ∙ load_trusted_keys-without "signature_hex" fs now clock (λ e. cc e)

  -- A signature binds the keys of a trust bundle: from two bundles with the same canonical
  -- payload, whose numbers stand as Python prints numbers, `load_trusted_keys` returns the same
  -- keys or raises the same.
  pub trust_bundle_binds :
      (a b : Fields) (now : Option ℕ) (clock : ℕ)
      → numbers_fields a ≡ true
      → numbers_fields b ≡ true
      → canonical_trust_bundle_payload a ≡ canonical_trust_bundle_payload b
      → load_trusted_keys iso a now clock ≡ load_trusted_keys iso b now clock
  unfolding canonical_trust_bundle_payload
  trust_bundle_binds a b now clock p q h =
      sym (load_signed a now clock)
      ∙ ap (λ fs. load_trusted_keys iso fs now clock)
          (same_fields _ _ (numbers-without _ _ (numbers-without _ a p))
            (numbers-without _ _ (numbers-without _ b q)) h)
      ∙ load_signed b now clock
