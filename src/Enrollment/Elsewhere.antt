-- ===== src/Enrollment/Elsewhere.antt =====
-- What calls for other codes leave of a code's binding in enrollment.py's registry.
use nlboot.Base.{
  String, ◌≡◌, refl, ap, ◌∙◌, inl, inr, false, List, [], ◌∷◌, All, lookup, lookup-insert, ◌==◌,
  Result-cases,
}
use nlboot.Time.{IsoFormat}
use nlboot.Crypto.{Crypto}
use nlboot.Enrollment.{Registry, hash_code, new_binding, check_redeem}
use nlboot.Enrollment.Redeem.{check_redeem_iff, redeem_refused}
use nlboot.Enrollment.Issue.{issue_stored, issue_refused, new_binding_sound}
use nlboot.Enrollment.Invariant.{IsSingleUse, redeem_spends}
use nlboot.Enrollment.Trace.{Call, issuing, redeeming, after, run, after-IsSingleUse}

module _ (crypto : Crypto) (iso : IsoFormat) where
  -- The call is for a code with another hash.
  abbrev pub Elsewhere : String → Call → Type 0
  Elsewhere h (issuing args clock) = (hash_code crypto iso args.code == h) ≡ false
  Elsewhere h (redeeming args clock) = (hash_code crypto iso args.code == h) ≡ false

  -- A call for another code leaves the binding.
  pub after-Elsewhere :
      (h : String) (call : Call) (bindings : Registry)
      → IsSingleUse bindings
      → Elsewhere h call
      → lookup h (after crypto iso call bindings) ≡ lookup h bindings
  unfolding after
  after-Elsewhere h (issuing args clock) bindings v other =
      elim (Result-cases (new_binding crypto iso args clock)) [
        | inl (b, made) ↦
            let i = (new_binding_sound crypto iso args clock).at b made in
            ap (λ r. lookup h r.1) (issue_stored crypto iso args clock bindings b made)
            ∙ lookup-insert b.code_hash h b bindings
            ∙ rw (i.code_hash, other)
        | inr (e, failed) ↦
            ap (λ r. lookup h r.1) (issue_refused crypto iso args clock bindings e failed)
      ]
  after-Elsewhere h (redeeming args clock) bindings v other =
      elim (Result-cases (check_redeem crypto iso args clock bindings)) [
        | inl (b, g) ↦
            let r = (check_redeem_iff crypto iso args clock bindings b).0 g in
            redeem_spends crypto iso args clock bindings b h v r ∙ rw other
        | inr (e, failed) ↦
            ap (λ r. lookup h r.1) (redeem_refused crypto iso args clock bindings e failed)
      ]

  pub run-Elsewhere :
      (h : String) (calls : List Call) (bindings : Registry)
      → IsSingleUse bindings
      → All (Elsewhere h) calls
      → lookup h (run crypto iso calls bindings) ≡ lookup h bindings
  unfolding run
  run-Elsewhere h [] bindings v others = refl
  run-Elsewhere h (call ∷ calls) bindings v (other, others) =
      run-Elsewhere h calls (after crypto iso call bindings)
        (after-IsSingleUse crypto iso call bindings v) others
      ∙ after-Elsewhere h call bindings v other
