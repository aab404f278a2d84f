-- ===== src/Enrollment/Lifetime.antt =====
-- How long the codes of enrollment.py's registry live, and that a code can be redeemed while it
-- does, whatever is called in between for other codes.
use Prim.Native.String.{◌++◌ as append}
use nlboot.Base.{
  ℕ, ◌+◌, ◌*◌, ◌≤◌, ◌<◌, String, ◌≡◌, refl, sym, ap, ◌∙◌, inl, inr, true, some, List, [], ◌∷◌, ok,
  All, ℤ, pos, is_positive, arith, lookup, insert, lookup-insert, eq_iff, eq_refl, Result-cases,
  or_raise_ok,
}
use nlboot.Text.{non_empty}
use nlboot.Time.{IsoFormat, now_or, shift, last_instant}
use nlboot.Time.Laws.{shift-lt}
use nlboot.Crypto.{Crypto}
use nlboot.Device.{verify}
use nlboot.Enrollment.{
  EnrollmentCodeBinding, SessionCredential, Registry, IssueArgs, RedeemArgs, hash_code, spend,
  new_binding, issue, check_redeem, redeem, credential_of,
}
use nlboot.Enrollment.Credential.{credential_of_iff}
use nlboot.Enrollment.Redeem.{check_redeem_iff, redeem_granted, redeem_refused, redeem-eq-ok_iff}
use nlboot.Enrollment.Issue.{
  Issued-lifetime, issue_stored, issue_refused, new_binding_sound, issue-eq-ok_iff, issue_stores,
}
use nlboot.Enrollment.Invariant.{IsSingleUse, issue-IsSingleUse}
use nlboot.Enrollment.Elsewhere.{Elsewhere, run-Elsewhere}
use nlboot.Enrollment.Trace.{Call, issuing, redeeming, after, run}

-- Every binding expires after it was issued, and by the year 9999.
pub record IsInTime (bindings : Registry) : Type 0 where
  pub lives :
      (h : String) (b : EnrollmentCodeBinding)
      → lookup h bindings ≡ some b
      → b.issued_at < b.expires_at
  pub ends :
      (h : String) (b : EnrollmentCodeBinding)
      → lookup h bindings ≡ some b
      → b.expires_at ≤ last_instant

pub IsInTime-empty : IsInTime []
unfolding lookup
IsInTime-empty = record { lives = λ h b e. cc; ends = λ h b e. cc }

insert-IsInTime :
    (b : EnrollmentCodeBinding) (bindings : Registry)
    → b.issued_at < b.expires_at
    → b.expires_at ≤ last_instant
    → IsInTime bindings
    → IsInTime (insert b.code_hash b bindings)
insert-IsInTime b bindings lives ends v = record {
  lives = λ h c e.
      ground (arith, lookup-insert b.code_hash h b bindings, eq_iff b.code_hash h, v.lives h c);
  ends = λ h c e.
      ground (arith, lookup-insert b.code_hash h b bindings, eq_iff b.code_hash h, v.ends h c);
}

shift_bounded :
    (t : ℕ) (s : ℤ) {u : ℕ} → shift t s ≡ some u → is_positive s ≡ true → u ≤ last_instant
unfolding shift
shift_bounded t (pos n) h p = ground arith
shift_bounded t _ h p = cc

shift-pos : (t n : ℕ) {u : ℕ} → shift t (pos n) ≡ some u → u ≡ t + n * 1000000
unfolding shift
shift-pos t n h = ground arith

module _ (crypto : Crypto) (iso : IsoFormat) where
  issue-IsInTime :
      (args : IssueArgs) (clock : ℕ) (bindings : Registry)
      → IsInTime bindings
      → IsInTime (issue crypto iso args clock bindings).1
  issue-IsInTime args clock bindings v = elim (Result-cases (new_binding crypto iso args clock)) [
    | inl (b, made) ↦
        let i = (new_binding_sound crypto iso args clock).at b made in
        rw (issue_stored crypto iso args clock bindings b made) (
          insert-IsInTime b bindings (Issued-lifetime crypto iso i).0
            (shift_bounded (now_or args.now clock) args.ttl_seconds i.expires i.ttl_positive) v)
    | inr (e, failed) ↦ rw (issue_refused crypto iso args clock bindings e failed) v
  ]

  redeem-IsInTime :
      (args : RedeemArgs) (clock : ℕ) (bindings : Registry)
      → IsInTime bindings
      → IsInTime (redeem crypto iso args clock bindings).1
  redeem-IsInTime args clock bindings v =
      elim (Result-cases (check_redeem crypto iso args clock bindings)) [
        | inl (b, g) ↦
            let r = (check_redeem_iff crypto iso args clock bindings b).0 g in
            rw (redeem_granted crypto iso args clock bindings b g)
              (insert-IsInTime (spend b) bindings (v.lives _ b r.found) (v.ends _ b r.found) v)
        | inr (e, failed) ↦ rw (redeem_refused crypto iso args clock bindings e failed) v
      ]

  after-IsInTime :
      (call : Call) (bindings : Registry)
      → IsInTime bindings
      → IsInTime (after crypto iso call bindings)
  unfolding after
  after-IsInTime (issuing args clock) bindings v = issue-IsInTime args clock bindings v
  after-IsInTime (redeeming args clock) bindings v = redeem-IsInTime args clock bindings v

  -- If every binding expires later than it was issued and at most at the last microsecond of the
  -- year 9999, then so it is after any sequence of calls of `issue` and `redeem`.
  pub run-IsInTime :
      (calls : List Call) (bindings : Registry)
      → IsInTime bindings
      → IsInTime (run crypto iso calls bindings)
  unfolding run
  run-IsInTime [] bindings v = v
  run-IsInTime (call ∷ calls) bindings v =
      run-IsInTime calls (after crypto iso call bindings) (after-IsInTime call bindings v)

  -- A code that is issued for `n` seconds expires `n` million microseconds after the given time,
  -- or the clock's, which is later than that time and at most the last microsecond of the year
  -- 9999.
  pub issue_lifetime :
      (args : IssueArgs) (clock n : ℕ) (bindings : Registry) (b : EnrollmentCodeBinding)
      → args.ttl_seconds ≡ pos n
      → (issue crypto iso args clock bindings).0 ≡ ok (args.code, b)
      → (b.expires_at ≡ now_or args.now clock + n * 1000000)
        × (now_or args.now clock < b.expires_at)
        × (b.expires_at ≤ last_instant)
  issue_lifetime args clock n bindings b seconds h =
      let i = (issue-eq-ok_iff crypto iso args clock bindings b).0 h in
      let current = now_or args.now clock in
      (
        shift-pos current n (ap (shift current) (sym seconds) ∙ i.expires),
        shift-lt current args.ttl_seconds i.expires i.ttl_positive,
        shift_bounded current args.ttl_seconds i.expires i.ttl_positive,
      )

  pub issued_in_range :
      (args : IssueArgs) (clock : ℕ) (bindings : Registry) (b : EnrollmentCodeBinding)
      → (issue crypto iso args clock bindings).0 ≡ ok (args.code, b)
      → (b.issued_at ≤ last_instant) × (b.expires_at ≤ last_instant)
  issued_in_range args clock bindings b h =
      let i = (issue-eq-ok_iff crypto iso args clock bindings b).0 h in
      let ends = shift_bounded (now_or args.now clock) args.ttl_seconds i.expires i.ttl_positive in
      (omega (arith, (Issued-lifetime crypto iso i).0, ends), ends)

  -- The credential for a binding, with its end.
  abbrev pub session : RedeemArgs → ℕ → EnrollmentCodeBinding → ℕ → SessionCredential
  session args clock b expires = record {
    session_id = append "urn:srcos:enrollment-session:" args.session_hex;
    device_id = b.device_id;
    purpose = b.purpose;
    release_set_ref = b.release_set_ref;
    boot_release_set_ref = b.boot_release_set_ref;
    artifact_refs = b.artifact_refs;
    issued_at = now_or args.now clock;
    expires_at = expires;
  }

  session_made :
      (args : RedeemArgs) (clock : ℕ) (b : EnrollmentCodeBinding) (expires : ℕ)
      → shift (now_or args.now clock) args.session_ttl_seconds ≡ some expires
      → credential_of crypto iso args clock b ≡ ok (session args clock b expires)
  unfolding credential_of
  session_made args clock b expires h = or_raise_ok _ _ h refl

  -- A code that was issued is redeemed by its device before it expires, after any calls for other
  -- codes.
  pub issue-redeem :
      (args : IssueArgs) (issued_clock : ℕ) (bindings : Registry) (b : EnrollmentCodeBinding)
      → (calls : List Call) (request : RedeemArgs) (clock expires : ℕ) → IsSingleUse bindings
      → (issue crypto iso args issued_clock bindings).0 ≡ ok (args.code, b)
      → All (Elsewhere crypto iso (hash_code crypto iso args.code)) calls
      → non_empty args.code ≡ true
      → request.code ≡ args.code
      → request.release_set_ref ≡ b.release_set_ref
      → request.device_claim.device_id ≡ args.device_claim.device_id
      → verify crypto iso request.device_claim (some args.device_claim.nonce) ≡ ok tt
      → now_or request.now clock < b.expires_at
      → shift (now_or request.now clock) request.session_ttl_seconds ≡ some expires
      → (redeem crypto iso request clock
          (run crypto iso calls (issue crypto iso args issued_clock bindings).1)).0
        ≡ ok (session request clock b expires)
  issue-redeem args issued_clock bindings b calls request clock expires v made others code same
        release device claim early ends =
      let stored = (issue crypto iso args issued_clock bindings).1 in
      let later = run crypto iso calls stored in
      let i = (issue-eq-ok_iff crypto iso args issued_clock bindings b).0 made in
      let key = hash_code crypto iso args.code in
      let there : lookup key later ≡ some b =
        run-Elsewhere crypto iso key calls stored
          (issue-IsSingleUse crypto iso args issued_clock bindings v) others
        ∙ issue_stores crypto iso args issued_clock bindings b key made
        ∙ rw (eq_refl key) in
      (redeem-eq-ok_iff crypto iso request clock later (session request clock b expires)).1 (
        b,
        record {
          code = ap non_empty same ∙ code;
          found = ap (λ c. lookup (hash_code crypto iso c) later) same ∙ there;
          unspent = omega (arith, i.one_use);
          unexpired = early;
          release = release;
          claim = ap (λ n. verify crypto iso request.device_claim (some n)) i.nonce ∙ claim;
          device = device ∙ sym i.device;
        },
        (credential_of_iff crypto iso request clock b (session request clock b expires)).0
            (session_made request clock b expires ends),
      )
