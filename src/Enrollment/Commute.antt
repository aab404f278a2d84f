-- ===== src/Enrollment/Commute.antt =====
-- Calls of enrollment.py's registry for different codes, in either order: what a call returns and
-- leaves behind depends on nothing but the binding of its own code.
use nlboot.Base.{
  eq_of_differ, ℕ, String, ◌≡◌, refl, sym, ap, ◌∙◌, ◌⊎◌, inl, inr, false, Bool-cases, Result,
  Result-cases, ok, err, some, lookup, lookup-insert, eq_iff, eq_refl, ◌==◌,
}
use mathlib.Core.Path.{subst}
use nlboot.Time.{IsoFormat}
use nlboot.Crypto.{Crypto}
use nlboot.Enrollment.{
  EnrollmentError, EnrollmentCodeBinding, SessionCredential, Registry, IssueArgs, RedeemArgs,
  hash_code, spend, new_binding, issue, check_redeem, grant, redeem, store,
}
use nlboot.Enrollment.Redeem.{check_redeem_iff, redeem_refused}
use nlboot.Enrollment.Issue.{issue_stored, issue_refused, new_binding_sound}
use nlboot.Enrollment.Invariant.{IsSingleUse, redeem_spends}
use nlboot.Enrollment.Trace.{Call, issuing, redeeming, after, after-IsSingleUse}
use nlboot.Enrollment.Elsewhere.{Elsewhere, after-Elsewhere}

-- What `issue` or `redeem` returns.
abbrev pub Response : Type 0
Response =
    Result EnrollmentError (String × EnrollmentCodeBinding)
    ⊎ Result EnrollmentError SessionCredential

module _ (crypto : Crypto) (iso : IsoFormat) where
  abbrev pub key_of : Call → String
  key_of (issuing args clock) = hash_code crypto iso args.code
  key_of (redeeming args clock) = hash_code crypto iso args.code

  abbrev pub response : Call → Registry → Response
  response (issuing args clock) bindings = inl (issue crypto iso args clock bindings).0
  response (redeeming args clock) bindings = inr (redeem crypto iso args clock bindings).0

  issued_binding :
      (args : IssueArgs) (clock : ℕ) (b : EnrollmentCodeBinding)
      → new_binding crypto iso args clock ≡ ok b
      → (bindings : Registry)
      → lookup (hash_code crypto iso args.code) (issue crypto iso args clock bindings).1 ≡ some b
  issued_binding args clock b made bindings =
      let key = hash_code crypto iso args.code in
      let i = (new_binding_sound crypto iso args clock).at b made in
      ap (λ r. lookup key r.1) (issue_stored crypto iso args clock bindings b made)
      ∙ lookup-insert b.code_hash key b bindings
      ∙ rw (i.code_hash, eq_refl key)

  redeemed_binding :
      (args : RedeemArgs) (clock : ℕ) (b : EnrollmentCodeBinding) (bindings : Registry)
      → IsSingleUse bindings
      → check_redeem crypto iso args clock bindings ≡ ok b
      → lookup (hash_code crypto iso args.code) (redeem crypto iso args clock bindings).1
        ≡ some (spend b)
  redeemed_binding args clock b bindings v g =
      let key = hash_code crypto iso args.code in
      let r = (check_redeem_iff crypto iso args clock bindings b).0 g in
      redeem_spends crypto iso args clock bindings b key v r ∙ rw (eq_refl key)

  module _ (bindings others : Registry) where
    check_redeem_local :
        (args : RedeemArgs) (clock : ℕ)
        → lookup (hash_code crypto iso args.code) bindings
          ≡ lookup (hash_code crypto iso args.code) others
        → check_redeem crypto iso args clock bindings ≡ check_redeem crypto iso args clock others
    unfolding check_redeem
    check_redeem_local args clock e = rw e

    stored_response :
        (made : Result EnrollmentError EnrollmentCodeBinding) (code : String)
        → (store crypto iso made code bindings).0 ≡ (store crypto iso made code others).0
    unfolding store
    stored_response (ok b) code = refl
    stored_response (err e) code = refl

    granted_response :
        (args : RedeemArgs) (clock : ℕ) (passed : Result EnrollmentError EnrollmentCodeBinding)
        → (grant crypto iso args clock passed bindings).0
          ≡ (grant crypto iso args clock passed others).0
    unfolding grant
    granted_response args clock (ok b) = refl
    granted_response args clock (err e) = refl

    response_local :
        (call : Call)
        → lookup (key_of call) bindings ≡ lookup (key_of call) others
        → response call bindings ≡ response call others
    unfolding issue redeem
    response_local (issuing args clock) e =
        ap inl (stored_response (new_binding crypto iso args clock) args.code)
    response_local (redeeming args clock) e = ap inr (
        granted_response args clock (check_redeem crypto iso args clock bindings)
        ∙ ap (λ r. (grant crypto iso args clock r others).0) (check_redeem_local args clock e))

    after_local :
        (call : Call)
        → IsSingleUse bindings
        → IsSingleUse others
        → lookup (key_of call) bindings ≡ lookup (key_of call) others
        → lookup (key_of call) (after crypto iso call bindings)
          ≡ lookup (key_of call) (after crypto iso call others)
    unfolding after
    after_local (issuing args clock) v w e =
        elim (Result-cases (new_binding crypto iso args clock)) [
          | inl (b, made) ↦
              issued_binding args clock b made bindings
              ∙ sym (issued_binding args clock b made others)
          | inr (f, failed) ↦
              ap (λ r. lookup (hash_code crypto iso args.code) r.1)
                (issue_refused crypto iso args clock bindings f failed)
              ∙ e
              ∙ sym (
                  ap (λ r. lookup (hash_code crypto iso args.code) r.1)
                    (issue_refused crypto iso args clock others f failed))
        ]
    after_local (redeeming args clock) v w e =
        let alike = check_redeem_local args clock e in
        elim (Result-cases (check_redeem crypto iso args clock bindings)) [
          | inl (b, g) ↦
              redeemed_binding args clock b bindings v g
              ∙ sym (redeemed_binding args clock b others w (sym alike ∙ g))
          | inr (f, failed) ↦
              ap (λ r. lookup (hash_code crypto iso args.code) r.1)
                (redeem_refused crypto iso args clock bindings f failed)
              ∙ e
              ∙ sym (
                  ap (λ r. lookup (hash_code crypto iso args.code) r.1)
                    (redeem_refused crypto iso args clock others f (sym alike ∙ failed)))
        ]

  -- The two calls are for codes with different hashes.
  abbrev pub Apart : Call → Call → Type 0
  Apart first second = key_of first ≡ key_of second → ⊥

  elsewhere : (call : Call) (h : String) → (key_of call == h) ≡ false → Elsewhere crypto iso h call
  elsewhere (issuing args clock) h e = e
  elsewhere (redeeming args clock) h e = e

  module _ (bindings : Registry) (v : IsSingleUse bindings) where
    -- A call leaves the binding of another code.
    kept :
        (call : Call) (h : String)
        → (key_of call ≡ h → ⊥)
        → lookup h (after crypto iso call bindings) ≡ lookup h bindings
    kept call h differ =
        after-Elsewhere crypto iso h call bindings v (elsewhere call h (eq_of_differ _ h differ))

  -- The binding of the first call's code, after both.
  own_binding :
      (first second : Call) (bindings : Registry)
      → IsSingleUse bindings
      → Apart first second
      → lookup (key_of first) (after crypto iso second (after crypto iso first bindings))
        ≡ lookup (key_of first) (after crypto iso first (after crypto iso second bindings))
  own_binding first second bindings v apart =
      let differ : key_of second ≡ key_of first → ⊥ = λ e. apart (sym e) in
      kept (after crypto iso first bindings) (after-IsSingleUse crypto iso first bindings v) second
        (key_of first) differ
      ∙ after_local bindings (after crypto iso second bindings) first v
          (after-IsSingleUse crypto iso second bindings v)
          (sym (kept bindings v second (key_of first) differ))

  both_bindings :
      (first second : Call) (bindings : Registry)
      → IsSingleUse bindings
      → Apart first second
      → (h : String)
      → lookup h (after crypto iso second (after crypto iso first bindings))
        ≡ lookup h (after crypto iso first (after crypto iso second bindings))
  both_bindings first second bindings v apart h = elim (Bool-cases (key_of first == h)) [
    | inl e ↦
        subst
          (λ k.
            lookup k (after crypto iso second (after crypto iso first bindings))
            ≡ lookup k (after crypto iso first (after crypto iso second bindings)))
          ((eq_iff _ h).0 e) (own_binding first second bindings v apart)
    | inr e ↦ elim (Bool-cases (key_of second == h)) [
      | inl f ↦
          subst
            (λ k.
              lookup k (after crypto iso second (after crypto iso first bindings))
              ≡ lookup k (after crypto iso first (after crypto iso second bindings)))
            ((eq_iff _ h).0 f) (sym (own_binding second first bindings v (λ g. apart (sym g))))
      | inr f ↦
          after-Elsewhere crypto iso h second (after crypto iso first bindings)
            (after-IsSingleUse crypto iso first bindings v) (elsewhere second h f)
          ∙ after-Elsewhere crypto iso h first bindings v (elsewhere first h e)
          ∙ sym (
              after-Elsewhere crypto iso h first (after crypto iso second bindings)
                (after-IsSingleUse crypto iso second bindings v) (elsewhere first h e)
              ∙ after-Elsewhere crypto iso h second bindings v (elsewhere second h f))
    ]
  ]

  -- In a registry that satisfies the invariant, two calls of `issue` or `redeem` for codes with
  -- different hashes return the same in either order, each what it returns alone, and leave the
  -- same binding under every hash.
  pub calls_commute :
      (first second : Call) (bindings : Registry)
      → IsSingleUse bindings
      → Apart first second
      → (response second (after crypto iso first bindings) ≡ response second bindings)
        × (response first (after crypto iso second bindings) ≡ response first bindings)
        × ((h : String)
            → lookup h (after crypto iso second (after crypto iso first bindings))
              ≡ lookup h (after crypto iso first (after crypto iso second bindings)))
  calls_commute first second bindings v apart = (
    response_local (after crypto iso first bindings) bindings second
        (kept bindings v first (key_of second) apart),
    response_local (after crypto iso second bindings) bindings first
        (kept bindings v second (key_of first) (λ e. apart (sym e))),
    both_bindings first second bindings v apart,
  )
