-- ===== src/Enrollment/Redeem.antt =====
-- `redeem` of enrollment.py: what it asks, and the registry that it leaves behind.
use nlboot.Base.{
  ℕ, ◌<◌, ◌≡◌, refl, sym, ap, ◌∙◌, ◌↔◌, ◌⊎◌, inl, inr, true, not, some, ◌==◌, eq_iff, Result, ok,
  err, map_err, arith, ltb, lt→ltb, lt→leb, lookup, insert, Yields, Yields-bind, Yields-or_raise,
  Yields-guard, Yields-ok, bind_ok, or_raise_ok, guard_ok, Result-cases,
}
use nlboot.Text.{non_empty}
use nlboot.Time.{IsoFormat, now_or}
use nlboot.Crypto.{Crypto}
use nlboot.Device.{verify}
use nlboot.Enrollment.{
  EnrollmentError, invalid_claim, already_redeemed, time_overflow, EnrollmentCodeBinding,
  SessionCredential, Registry, RedeemArgs, hash_code, is_spent, spend, check_redeem, credential_of,
  grant, redeem,
}
use nlboot.Enrollment.Credential.{IsCredential, credential_of_iff}

pub map_err-eq-ok {ℓ κ μ} :
    {E : Type ℓ} {F : Type κ} {A : Type μ} (f : E → F) (r : Result E A) {a : A}
    → map_err f r ≡ ok a
    → r ≡ ok a
map_err-eq-ok f (ok b) h = cc
map_err-eq-ok f (err e) h = cc

module _ (crypto : Crypto) (iso : IsoFormat) where
  -- What `redeem` asks of a code, a claim and a release set, for the binding `b`.
  pub record Redeemable (args : RedeemArgs) (current : ℕ) (bindings : Registry)
      (b : EnrollmentCodeBinding) : Type 0 where
    pub code : non_empty args.code ≡ true
    pub found : lookup (hash_code crypto iso args.code) bindings ≡ some b
    pub unspent : 0 < b.remaining_uses
    pub unexpired : current < b.expires_at
    pub release : args.release_set_ref ≡ b.release_set_ref
    pub claim : verify crypto iso args.device_claim (some b.nonce) ≡ ok tt
    pub device : args.device_claim.device_id ≡ b.device_id

  module _ (args : RedeemArgs) (clock : ℕ) (bindings : Registry) where
    check_sound :
        Yields
          (Redeemable args (now_or args.now clock) bindings)
          (check_redeem crypto iso args clock bindings)
    unfolding check_redeem
    check_sound = Yields-guard (non_empty args.code) _ _ λ e1.
        Yields-or_raise (lookup (hash_code crypto iso args.code) bindings) _ _ λ b e2.
          Yields-guard (not (is_spent b)) _ _ λ e3.
            Yields-guard (ltb (now_or args.now clock) b.expires_at) _ _ λ e4.
              Yields-guard (args.release_set_ref == b.release_set_ref) _ _ λ e5.
                Yields-bind
                  (map_err invalid_claim (verify crypto iso args.device_claim (some b.nonce))) _
                  λ u e6. Yields-guard (args.device_claim.device_id == b.device_id) _ _ λ e7.
                    Yields-ok _ (record {
                      code = e1;
                      found = e2;
                      unspent = ground arith;
                      unexpired = ground arith;
                      release = (eq_iff _ _).0 e5;
                      claim = map_err-eq-ok invalid_claim _ e6;
                      device = (eq_iff _ _).0 e7;
                    })

    check_complete :
        (b : EnrollmentCodeBinding)
        → Redeemable args (now_or args.now clock) bindings b
        → check_redeem crypto iso args clock bindings ≡ ok b
    unfolding check_redeem
    check_complete b h = guard_ok _ h.code (
        or_raise_ok _ _ h.found (
          guard_ok _ (rw (lt→leb _ _ h.unspent)) (
            guard_ok _ (lt→ltb _ _ h.unexpired) (
              guard_ok _ ((eq_iff _ _).1 h.release) (
                bind_ok _ (ap (map_err invalid_claim) h.claim)
                  (guard_ok _ ((eq_iff _ _).1 h.device) refl))))))

    pub check_redeem_iff :
        (b : EnrollmentCodeBinding)
        → (check_redeem crypto iso args clock bindings ≡ ok b)
          ↔ Redeemable args (now_or args.now clock) bindings b
    check_redeem_iff b = (check_sound.at b, check_complete b)

    pub redeem_granted :
        (b : EnrollmentCodeBinding)
        → check_redeem crypto iso args clock bindings ≡ ok b
        → redeem crypto iso args clock bindings
          ≡ (credential_of crypto iso args clock b, insert b.code_hash (spend b) bindings)
    unfolding redeem
    redeem_granted b e = rw (e, grant)

    pub redeem_refused :
        (e : EnrollmentError)
        → check_redeem crypto iso args clock bindings ≡ err e
        → redeem crypto iso args clock bindings ≡ (err e, bindings)
    unfolding redeem
    redeem_refused e refused = rw (refused, grant)

    -- The first check that a spent binding meets refuses it.
    pub spent_refused :
        (b : EnrollmentCodeBinding)
        → non_empty args.code ≡ true
        → lookup (hash_code crypto iso args.code) bindings ≡ some b
        → b.remaining_uses ≡ 0
        → check_redeem crypto iso args clock bindings ≡ err already_redeemed
    unfolding check_redeem
    spent_refused b e found spent = rw (e, found, spent)

    -- What a returned credential rests on: a redeemable binding, and the credential for it.
    abbrev pub Granted : SessionCredential → Type 0
    Granted c =
        (b : EnrollmentCodeBinding) × Redeemable args (now_or args.now clock) bindings b
        × IsCredential args (now_or args.now clock) b c

    redeem-Granted :
        (c : SessionCredential) → (redeem crypto iso args clock bindings).0 ≡ ok c → Granted c
    redeem-Granted c h = elim (Result-cases (check_redeem crypto iso args clock bindings)) [
      | inl (b, e) ↦ (
        b,
        check_sound.at b e,
        (credential_of_iff crypto iso args clock b c).0
            (sym (ap (λ r. r.0) (redeem_granted b e)) ∙ h),
      )
      | inr (e, refused) ↦ cc (ap (λ r. r.0) (redeem_refused e refused))
    ]

    redeem_of_Granted :
        (c : SessionCredential) → Granted c → (redeem crypto iso args clock bindings).0 ≡ ok c
    redeem_of_Granted c (b, r, e) =
        ap (λ x. x.0) (redeem_granted b (check_complete b r))
        ∙ (credential_of_iff crypto iso args clock b c).1 e

    -- `redeem` returns a credential exactly if the code is not empty and known, has a use left and
    -- has not expired, the release set is the bound one, the claim verifies with the bound nonce
    -- and is the bound device's, and the end of the session is in range; the credential then has
    -- the session's id, names the bound device, purpose, release sets and artifacts, and lasts
    -- from that time to that end.
    pub redeem-eq-ok_iff :
        (c : SessionCredential) → ((redeem crypto iso args clock bindings).0 ≡ ok c) ↔ Granted c
    redeem-eq-ok_iff c = (redeem-Granted c, redeem_of_Granted c)

    pub credential_overflow :
        (b : EnrollmentCodeBinding) {e : EnrollmentError}
        → credential_of crypto iso args clock b ≡ err e
        → e ≡ time_overflow
    unfolding credential_of
    credential_overflow b h = ground arith

    -- A `redeem` that raises leaves the registry as it was, with one exception: where only the end
    -- of the session is out of range, the use is spent and the `OverflowError` escapes.
    pub redeem-eq-err :
        (e : EnrollmentError)
        → (redeem crypto iso args clock bindings).0 ≡ err e
        → ((redeem crypto iso args clock bindings).1 ≡ bindings)
          ⊎ ((e ≡ time_overflow)
              × ((b : EnrollmentCodeBinding) × Redeemable args (now_or args.now clock) bindings b
                  × ((redeem crypto iso args clock bindings).1
                      ≡ insert b.code_hash (spend b) bindings)))
    redeem-eq-err e h = elim (Result-cases (check_redeem crypto iso args clock bindings)) [
      | inl (b, g) ↦ inr (
        credential_overflow b (sym (ap (λ r. r.0) (redeem_granted b g)) ∙ h),
        (b, check_sound.at b g, ap (λ r. r.1) (redeem_granted b g)),
      )
      | inr (f, refused) ↦ inl (ap (λ r. r.1) (redeem_refused f refused))
    ]
