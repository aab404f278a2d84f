-- ===== src/Verify/Payload.antt =====
-- The canonical payloads of verify.py: what a signature covers.
use nlboot.Base.{String, ◌≡◌, sym, ◌∙◌, ◌==◌, eq_iff, Bool-cases, inl, inr}
use nlboot.Json.{Value, Fields, field}
use nlboot.Json.Canonical.{Reordered, same, keep, swap, chain, dumps-Reordered}
use nlboot.Verify.{without, canonical_payload, canonical_trust_bundle_payload}

-- Leaving a member out keeps the order of the others.
without-Reordered :
    (skipped : String) {fs gs : Fields}
    → Reordered fs gs
    → Reordered (without skipped fs) (without skipped gs)
without-Reordered skipped (same fs) = same (without skipped fs)
without-Reordered skipped (chain r q) =
    chain (without-Reordered skipped r) (without-Reordered skipped q)
without-Reordered skipped (keep k v r) = elim (Bool-cases (k == skipped)) [
  | inl e ↦ rw e (without-Reordered skipped r)
  | inr e ↦ rw e (keep k v (without-Reordered skipped r))
]
without-Reordered skipped (swap j k v w fs differ) = elim (Bool-cases (j == skipped)) [
  | inl e ↦ elim (Bool-cases (k == skipped)) [
    | inl f ↦ absurd (differ ((eq_iff j skipped).0 e ∙ sym ((eq_iff k skipped).0 f)))
    | inr f ↦ rw (e, f) (same (field k w (without skipped fs)))
  ]
  | inr e ↦ elim (Bool-cases (k == skipped)) [
    | inl f ↦ rw (e, f) (same (field j v (without skipped fs)))
    | inr f ↦ rw (e, f) (swap j k v w (without skipped fs) differ)
  ]
]

-- The canonical payload of a document is the same with its signature as without it, wherever
-- "signature_hex" stands among the members and in whatever order the members stand.
pub canonical_payload-signed :
    (unsigned signed : Fields) (signature : Value)
    → Reordered (field "signature_hex" signature unsigned) signed
    → canonical_payload signed ≡ canonical_payload unsigned
unfolding canonical_payload
canonical_payload-signed unsigned signed signature r =
    sym (dumps-Reordered (without-Reordered "signature_hex" r))

-- The canonical payload of a trust bundle is the same with "signature_hex" and "signatures" as
-- without them, in whatever order its members stand.
pub canonical_trust_bundle_payload-signed :
    (unsigned signed : Fields) (signature signatures : Value)
    → Reordered (field "signature_hex" signature (field "signatures" signatures unsigned)) signed
    → canonical_trust_bundle_payload signed ≡ canonical_trust_bundle_payload unsigned
unfolding canonical_trust_bundle_payload
canonical_trust_bundle_payload-signed unsigned signed signature signatures r =
    sym (dumps-Reordered (without-Reordered "signatures" (without-Reordered "signature_hex" r)))
