-- ===== src/Enrollment/Issue.antt =====
-- What `issue` asks, and the binding that it stores.
use nlboot.Base.{
  ℕ, ◌<◌, String, ◌≡◌, refl, sym, ap, ◌∙◌, ◌↔◌, inl, inr, true, some, ok, err, map_err, is_positive,
  lookup, insert, lookup-insert, if◌then◌else◌, Yields, Yields-bind, Yields-or_raise, Yields-guard,
  Yields-ok, bind_ok, or_raise_ok, guard_ok, Result-cases, ok-injective, ◌==◌,
}
use nlboot.Time.{IsoFormat, now_or, shift}
use nlboot.Time.Laws.{shift-lt}
use nlboot.Crypto.{Crypto}
use nlboot.Device.{verify}
use nlboot.Protocol.Modes.{purpose_of}
use nlboot.Enrollment.{
  EnrollmentError, invalid_claim, EnrollmentCodeBinding, Registry, IssueArgs, filled_text,
  filled_refs, hash_code, new_binding, store, issue,
}
use nlboot.Enrollment.Redeem.{map_err-eq-ok}

module _ (crypto : Crypto) (iso : IsoFormat) where
  -- What `issue` asks of its arguments, and the binding `b` that it makes of them at the time
  -- `current`.
  pub record Issued (args : IssueArgs) (current : ℕ) (b : EnrollmentCodeBinding) : Type 0 where
    pub purpose : purpose_of args.purpose ≡ some b.purpose
    pub ttl_positive : is_positive args.ttl_seconds ≡ true
    pub release : filled_text args.release_set_ref ≡ some b.release_set_ref
    pub boot_release : filled_text args.boot_release_set_ref ≡ some b.boot_release_set_ref
    pub artifacts : filled_refs args.artifact_refs ≡ some b.artifact_refs
    pub claim : verify crypto iso args.device_claim (some args.device_claim.nonce) ≡ ok tt
    pub expires : shift current args.ttl_seconds ≡ some b.expires_at
    pub issued_at : b.issued_at ≡ current
    pub code_hash : b.code_hash ≡ hash_code crypto iso args.code
    pub device : b.device_id ≡ args.device_claim.device_id
    pub nonce : b.nonce ≡ args.device_claim.nonce
    pub one_use : b.remaining_uses ≡ 1

  module _ (args : IssueArgs) (clock : ℕ) where
    pub new_binding_sound :
        Yields (Issued args (now_or args.now clock)) (new_binding crypto iso args clock)
    unfolding new_binding
    new_binding_sound = Yields-or_raise (purpose_of args.purpose) _ _ λ purpose e1.
        Yields-guard (is_positive args.ttl_seconds) _ _ λ e2.
          Yields-or_raise (filled_text args.release_set_ref) _ _ λ release e3.
            Yields-or_raise (filled_text args.boot_release_set_ref) _ _ λ boot_release e4.
              Yields-or_raise (filled_refs args.artifact_refs) _ _ λ artifacts e5.
                Yields-bind
                  (map_err invalid_claim
                    (verify crypto iso args.device_claim (some args.device_claim.nonce)))
                  _
                  λ u e6.
                    Yields-or_raise (shift (now_or args.now clock) args.ttl_seconds) _ _
                      λ expires e7. Yields-ok _ (record {
                        purpose = e1;
                        ttl_positive = e2;
                        release = e3;
                        boot_release = e4;
                        artifacts = e5;
                        claim = map_err-eq-ok invalid_claim _ e6;
                        expires = e7;
                        issued_at = refl;
                        code_hash = refl;
                        device = refl;
                        nonce = refl;
                        one_use = refl;
                      })

    new_binding_complete :
        (b : EnrollmentCodeBinding)
        → Issued args (now_or args.now clock) b
        → new_binding crypto iso args clock ≡ ok b
    unfolding new_binding
    new_binding_complete b h = or_raise_ok _ _ h.purpose (
        guard_ok _ h.ttl_positive (
          or_raise_ok _ _ h.release (
            or_raise_ok _ _ h.boot_release (
              or_raise_ok _ _ h.artifacts (
                bind_ok _ (ap (map_err invalid_claim) h.claim) (
                  or_raise_ok _ _ h.expires
                    (rw (← h.issued_at, ← h.code_hash, ← h.device, ← h.nonce, ← h.one_use))))))))

    module _ (bindings : Registry) where
      pub issue_stored :
          (b : EnrollmentCodeBinding)
          → new_binding crypto iso args clock ≡ ok b
          → issue crypto iso args clock bindings
            ≡ (ok (args.code, b), insert b.code_hash b bindings)
      unfolding issue
      issue_stored b e = rw (e, store)

      pub issue_refused :
          (e : EnrollmentError)
          → new_binding crypto iso args clock ≡ err e
          → issue crypto iso args clock bindings ≡ (err e, bindings)
      unfolding issue
      issue_refused e refused = rw (refused, store)

      issue_sound :
          (code : String) (b : EnrollmentCodeBinding)
          → (issue crypto iso args clock bindings).0 ≡ ok (code, b)
          → (code ≡ args.code) × (new_binding crypto iso args clock ≡ ok b)
      issue_sound code b h = elim (Result-cases (new_binding crypto iso args clock)) [
        | inl (b', e) ↦
            let same : (args.code, b') ≡ (code, b) =
              ok-injective {E = EnrollmentError} _ _
                (sym (ap (λ r. r.0) (issue_stored b' e)) ∙ h) in
            (sym (ap (λ p. p.0) same), e ∙ ap ok (ap (λ p. p.1) same))
        | inr (e, refused) ↦ cc (ap (λ r. r.0) (issue_refused e refused))
      ]

      -- `issue` returns its code and a binding exactly if the purpose, the lifetime, the
      -- references and the device claim pass all checks and the expiry is in range; the binding
      -- holds the hash of the code, the claim's device and nonce, and one use.
      pub issue-eq-ok_iff :
          (b : EnrollmentCodeBinding)
          → ((issue crypto iso args clock bindings).0 ≡ ok (args.code, b))
            ↔ Issued args (now_or args.now clock) b
      issue-eq-ok_iff b = (
        λ h. new_binding_sound.at b (issue_sound args.code b h).1,
        λ i. ap (λ r. r.0) (issue_stored b (new_binding_complete b i)),
      )

      -- An `issue` that returns a code and a binding stores that binding under the hash of the
      -- code and leaves what every other hash holds.
      pub issue_stores :
          (b : EnrollmentCodeBinding) (j : String)
          → (issue crypto iso args clock bindings).0 ≡ ok (args.code, b)
          → lookup j (issue crypto iso args clock bindings).1
            ≡ (if hash_code crypto iso args.code == j then some b else lookup j bindings)
      issue_stores b j h =
          let made = (issue_sound args.code b h).1 in
          let i = new_binding_sound.at b made in
          ap (λ r. lookup j r.1) (issue_stored b made)
          ∙ lookup-insert b.code_hash j b bindings
          ∙ ap (λ k. if k == j then some b else lookup j bindings) i.code_hash

      -- An `issue` that raises leaves the registry as it was.
      pub issue_raises :
          (e : EnrollmentError)
          → (issue crypto iso args clock bindings).0 ≡ err e
          → (issue crypto iso args clock bindings).1 ≡ bindings
      issue_raises e h = elim (Result-cases (new_binding crypto iso args clock)) [
        | inl (b, made) ↦ cc (ap (λ r. r.0) (issue_stored b made))
        | inr (f, refused) ↦ ap (λ r. r.1) (issue_refused f refused)
      ]

  -- A binding that is issued expires later than it was issued, and starts with one use.
  pub Issued-lifetime :
      {args : IssueArgs} {current : ℕ} {b : EnrollmentCodeBinding}
      → Issued args current b
      → (b.issued_at < b.expires_at) × (b.remaining_uses ≡ 1)
  Issued-lifetime {args} {current} i =
      (rw i.issued_at (shift-lt current args.ttl_seconds i.expires i.ttl_positive), i.one_use)
