-- ===== src/Enrollment/Invariant.antt =====
-- The invariant of enrollment.py's registry: a binding stands under its own hash and has at most
-- one use left.
use nlboot.Base.{
  ℕ, ◌≤◌, String, ◌≡◌, ap, ◌∙◌, inl, inr, some, [], ok, err, arith, lookup, insert, lookup-insert,
  if◌then◌else◌, eq_iff, eq_refl, ◌==◌, Result-cases,
}
use nlboot.Text.{non_empty}
use nlboot.Time.{IsoFormat, now_or}
use nlboot.Crypto.{Crypto}
use nlboot.Enrollment.{
  already_redeemed, EnrollmentCodeBinding, SessionCredential, Registry, IssueArgs, RedeemArgs,
  hash_code, spend, new_binding, issue, check_redeem, redeem,
}
use nlboot.Enrollment.Redeem.{
  Redeemable, check_redeem_iff, redeem_granted, redeem_refused, spent_refused, redeem-eq-ok_iff,
}
use nlboot.Enrollment.Issue.{issue_stored, issue_refused, new_binding_sound}

pub record IsSingleUse (bindings : Registry) : Type 0 where
  pub own_hash :
      (h : String) (b : EnrollmentCodeBinding) → lookup h bindings ≡ some b → b.code_hash ≡ h
  pub one_use :
      (h : String) (b : EnrollmentCodeBinding) → lookup h bindings ≡ some b → b.remaining_uses ≤ 1

pub IsSingleUse-empty : IsSingleUse []
unfolding lookup
IsSingleUse-empty = record { own_hash = λ h b e. cc; one_use = λ h b e. cc }

insert-IsSingleUse :
    (b : EnrollmentCodeBinding) (bindings : Registry)
    → b.remaining_uses ≤ 1
    → IsSingleUse bindings
    → IsSingleUse (insert b.code_hash b bindings)
insert-IsSingleUse b bindings few v = record {
  own_hash = λ h c e.
      ground (arith, lookup-insert b.code_hash h b bindings, eq_iff b.code_hash h, v.own_hash h c);
  one_use = λ h c e.
      ground (arith, lookup-insert b.code_hash h b bindings, eq_iff b.code_hash h, v.one_use h c);
}

module _ (crypto : Crypto) (iso : IsoFormat) where
  -- Whatever its arguments and its outcome, `issue` keeps the invariant.
  pub issue-IsSingleUse :
      (args : IssueArgs) (clock : ℕ) (bindings : Registry)
      → IsSingleUse bindings
      → IsSingleUse (issue crypto iso args clock bindings).1
  issue-IsSingleUse args clock bindings v =
      elim (Result-cases (new_binding crypto iso args clock)) [
        | inl (b, made) ↦
            let i = (new_binding_sound crypto iso args clock).at b made in
            rw (issue_stored crypto iso args clock bindings b made)
              (insert-IsSingleUse b bindings (omega (arith, i.one_use)) v)
        | inr (e, refused) ↦ rw (issue_refused crypto iso args clock bindings e refused) v
      ]

  -- So does `redeem`.
  pub redeem-IsSingleUse :
      (args : RedeemArgs) (clock : ℕ) (bindings : Registry)
      → IsSingleUse bindings
      → IsSingleUse (redeem crypto iso args clock bindings).1
  redeem-IsSingleUse args clock bindings v =
      elim (Result-cases (check_redeem crypto iso args clock bindings)) [
        | inl (b, g) ↦
            let r = (check_redeem_iff crypto iso args clock bindings b).0 g in
            rw (redeem_granted crypto iso args clock bindings b g)
              (insert-IsSingleUse (spend b) bindings (omega (arith, v.one_use _ b r.found)) v)
        | inr (e, refused) ↦ rw (redeem_refused crypto iso args clock bindings e refused) v
      ]

  -- In a registry that satisfies the invariant, redeeming a redeemable binding takes its use and
  -- leaves what every other hash holds.
  pub redeem_spends :
      (args : RedeemArgs) (clock : ℕ) (bindings : Registry) (b : EnrollmentCodeBinding) (j : String)
      → IsSingleUse bindings
      → Redeemable crypto iso args (now_or args.now clock) bindings b
      → lookup j (redeem crypto iso args clock bindings).1
        ≡ (if hash_code crypto iso args.code == j then some (spend b) else lookup j bindings)
  redeem_spends args clock bindings b j v r =
      let g = (check_redeem_iff crypto iso args clock bindings b).1 r in
      ap (λ x. lookup j x.1) (redeem_granted crypto iso args clock bindings b g)
      ∙ lookup-insert b.code_hash j (spend b) bindings
      ∙ ap (λ k. if k == j then some (spend b) else lookup j bindings) (v.own_hash _ b r.found)

  -- In a registry that satisfies the invariant, after a redemption that returned a credential
  -- every further `redeem` of the same code, with any claim and at any time, raises that the code
  -- has been redeemed and changes nothing.
  pub redeem_twice :
      (first second : RedeemArgs) (clock later : ℕ) (bindings : Registry) (c : SessionCredential)
      → IsSingleUse bindings
      → (redeem crypto iso first clock bindings).0 ≡ ok c
      → second.code ≡ first.code
      → redeem crypto iso second later (redeem crypto iso first clock bindings).1
        ≡ (err already_redeemed, (redeem crypto iso first clock bindings).1)
  redeem_twice first second clock later bindings c v h same =
      let (b, r, made) = (redeem-eq-ok_iff crypto iso first clock bindings c).0 h in
      let after = (redeem crypto iso first clock bindings).1 in
      let few = v.one_use _ b r.found in
      let key = hash_code crypto iso first.code in
      redeem_refused crypto iso second later after already_redeemed (
        spent_refused crypto iso second later after (spend b) (ap non_empty same ∙ r.code)
          (ap (λ code. lookup (hash_code crypto iso code) after) same
            ∙ redeem_spends first clock bindings b key v r
            ∙ rw (eq_refl key))
          (omega arith))
