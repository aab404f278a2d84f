-- ===== src/Examples/Payloads.antt =====
-- Canonical payloads of two small documents.
use nlboot.Base.{String, ◌≡◌, refl, ◌==◌, eq_iff, true, false}
use nlboot.Json.{Fields, field, end, str, num, arr, obj, cons, nil}
use nlboot.Json.Pretty.{pretty}
use nlboot.Json.Canonical.{Reordered, keep, swap}
use nlboot.Verify.{canonical_payload, canonical_trust_bundle_payload}
use nlboot.Verify.Payload.{canonical_payload-signed, canonical_trust_bundle_payload-signed}

abbrev unsigned : Fields
unsigned = field "signer_ref" (str "k1") (field "manifest_id" (str "urn:m") end)

-- The signature stands between the two members.
abbrev signed : Fields
signed =
    field "signer_ref" (str "k1")
      (field "signature_hex" (str "07") (field "manifest_id" (str "urn:m") end))

differ : (a b : String) → (a == b) ≡ false → a ≡ b → ⊥
differ a b h e = let equal : (a == b) ≡ true = (eq_iff a b).1 e in cc

moved : Reordered (field "signature_hex" (str "07") unsigned) signed
moved =
    swap "signature_hex" "signer_ref" (str "07") (str "k1") (field "manifest_id" (str "urn:m") end)
      (differ "signature_hex" "signer_ref" refl)

canonical_payload-signed_example : canonical_payload signed ≡ canonical_payload unsigned
canonical_payload-signed_example = canonical_payload-signed unsigned signed (str "07") moved

payload_text : canonical_payload signed ≡ "{\"manifest_id\":\"urn:m\",\"signer_ref\":\"k1\"}"
unfolding canonical_payload nlboot.Json.Dump.dumps
payload_text = refl

abbrev bundle : Fields
bundle = field "signature_hex" (str "07") (
    field "signer_ref" (str "k1")
      (field "signatures" (str "x") (field "manifest_id" (str "urn:m") end)))

bundle_moved :
    Reordered (field "signature_hex" (str "07") (field "signatures" (str "x") unsigned)) bundle
bundle_moved = keep "signature_hex" (str "07") (
    swap "signatures" "signer_ref" (str "x") (str "k1") (field "manifest_id" (str "urn:m") end)
      (differ "signatures" "signer_ref" refl))

canonical_trust_bundle_payload-signed_test :
    canonical_trust_bundle_payload bundle ≡ canonical_trust_bundle_payload unsigned
canonical_trust_bundle_payload-signed_test =
    canonical_trust_bundle_payload-signed unsigned bundle (str "07") (str "x") bundle_moved

pretty_text :
    pretty 0 (obj (field "b" (arr (cons (num "1") (cons (obj end) nil))) (field "a" (str "x") end)))
    ≡ "{\n  \"a\": \"x\",\n  \"b\": [\n    1,\n    {}\n  ]\n}"
unfolding pretty nlboot.Json.Dump.quote nlboot.Json.Dump.join nlboot.Json.Dump.sort_members
    nlboot.Json.Dump.dumps
pretty_text = refl
