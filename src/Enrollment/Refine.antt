-- ===== src/Enrollment/Refine.antt =====
-- The promise of enrollment.py's registry, without its bindings' layout: every code is unknown, open
-- for one binding, or spent. `issue` opens a code, `redeem` spends an open one, and a call that
-- raises on a check changes nothing.
use nlboot.Base.{
  ℕ, ◌≤◌, ◌<◌, String, ◌≡◌, refl, ap, ◌∙◌, inl, inr, Bool, true, false, Option, none, some, List,
  [], ◌∷◌, Result, ok, err, arith, lookup, lookup-insert, if◌then◌else◌, ◌==◌, Result-cases,
}
use nlboot.Time.{IsoFormat}
use nlboot.Crypto.{Crypto}
use mathlib.Core.Path.{subst, sym}
use nlboot.Enrollment.{
  EnrollmentError, time_overflow, EnrollmentCodeBinding, SessionCredential, Registry, IssueArgs,
  RedeemArgs, hash_code, is_spent, spend, new_binding, issue, check_redeem, credential_of, redeem,
}
use nlboot.Enrollment.Overflow.{check_redeem-Avoids}
use nlboot.Enrollment.Redeem.{credential_overflow, redeem_granted, check_redeem_iff, redeem_refused}
use nlboot.Enrollment.Issue.{issue_stored, issue_refused, new_binding_sound}
use nlboot.Enrollment.Invariant.{IsSingleUse, redeem_spends}
use nlboot.Enrollment.Trace.{Call, issuing, redeeming, after, run, after-IsSingleUse}

pub data Phase : Type 0 where
  unknown spent : Phase
  open_for : EnrollmentCodeBinding → Phase

-- The phase of every code, by the code's hash.
abbrev pub Phases : Type 0
Phases = String → Phase

pub data Event : Type 0 where
  issued : String → EnrollmentCodeBinding → Event
  redeemed : String → Event
  declined : Event

pub data Step : Phases → Event → Phases → Type 0 where
  on_issue :
      {from to : Phases} (h : String) (b : EnrollmentCodeBinding)
      → ((j : String) → to j ≡ (if h == j then open_for b else from j))
      → Step from (issued h b) to
  on_redeem :
      {from to : Phases} (h : String) (b : EnrollmentCodeBinding)
      → from h ≡ open_for b
      → ((j : String) → to j ≡ (if h == j then spent else from j))
      → Step from (redeemed h) to
  on_refusal : {from to : Phases} → ((j : String) → to j ≡ from j) → Step from declined to

pub data Steps : Phases → List Event → Phases → Type 0 where
  done : {phases : Phases} → Steps phases [] phases
  next :
      {from between to : Phases} {event : Event} {events : List Event}
      → Step from event between
      → Steps between events to
      → Steps from (event ∷ events) to

abbrev pub phase_of : Option EnrollmentCodeBinding → Phase
phase_of none = unknown
phase_of (some b) = if is_spent b then spent else open_for b

abbrev pub view : Registry → Phases
view bindings h = phase_of (lookup h bindings)

-- The event that a call is, from what it returns. A `redeem` that returns a credential, or whose
-- session would end out of range, redeems the code.
abbrev pub event_of_issue : String → Result EnrollmentError (String × EnrollmentCodeBinding) → Event
event_of_issue h (ok (code, b)) = issued h b
event_of_issue h (err e) = declined

abbrev pub event_of_redeem : String → Result EnrollmentError SessionCredential → Event
event_of_redeem h (ok c) = redeemed h
event_of_redeem h (err time_overflow) = redeemed h
event_of_redeem h (err _) = declined

declined_event :
    (h : String) (e : EnrollmentError)
    → (e ≡ time_overflow → ⊥)
    → event_of_redeem h (err e) ≡ declined
declined_event h time_overflow other = absurd (other refl)
declined_event h _ other = refl

open_of_unspent :
    (b : EnrollmentCodeBinding) → 0 < b.remaining_uses → phase_of (some b) ≡ open_for b
open_of_unspent b few = ground arith

spent_of_spend :
    (b : EnrollmentCodeBinding) → b.remaining_uses ≤ 1 → phase_of (some (spend b)) ≡ spent
spent_of_spend b few = ground arith

phase_if :
    (c : Bool) (b : EnrollmentCodeBinding) (o : Option EnrollmentCodeBinding) (p : Phase)
    → phase_of (some b) ≡ p
    → phase_of (if c then some b else o) ≡ (if c then p else phase_of o)
phase_if true b o p e = e
phase_if false b o p e = refl

module _ (crypto : Crypto) (iso : IsoFormat) where
  granted_event :
      (h : String) (args : RedeemArgs) (clock : ℕ) (b : EnrollmentCodeBinding)
      → event_of_redeem h (credential_of crypto iso args clock b) ≡ redeemed h
  granted_event h args clock b = elim (Result-cases (credential_of crypto iso args clock b)) [
    | inl (c, e) ↦ rw e
    | inr (f, e) ↦
        ap (event_of_redeem h) (e ∙ ap err (credential_overflow crypto iso args clock [] b e))
  ]

  abbrev pub event_of : Call → Registry → Event
  event_of (issuing args clock) bindings =
      event_of_issue (hash_code crypto iso args.code) (issue crypto iso args clock bindings).0
  event_of (redeeming args clock) bindings =
      event_of_redeem (hash_code crypto iso args.code) (redeem crypto iso args clock bindings).0

  abbrev pub events_of : List Call → Registry → List Event
  events_of [] bindings = []
  events_of (call ∷ calls) bindings =
      event_of call bindings ∷ events_of calls (after crypto iso call bindings)

  issue-Step :
      (args : IssueArgs) (clock : ℕ) (bindings : Registry)
      → Step
          (view bindings)
          (event_of (issuing args clock) bindings)
          (view (issue crypto iso args clock bindings).1)
  issue-Step args clock bindings = elim (Result-cases (new_binding crypto iso args clock)) [
    | inl (b, made) ↦
        let i = (new_binding_sound crypto iso args clock).at b made in
        rw (issue_stored crypto iso args clock bindings b made) (
          on_issue (hash_code crypto iso args.code) b (λ j.
            ap phase_of (lookup-insert b.code_hash j b bindings)
            ∙ ap (λ k. phase_of (if k == j then some b else lookup j bindings)) i.code_hash
            ∙ phase_if (hash_code crypto iso args.code == j) b (lookup j bindings) (open_for b)
                (open_of_unspent b (omega (arith, i.one_use)))))
    | inr (e, refused) ↦
        rw (issue_refused crypto iso args clock bindings e refused) (on_refusal (λ j. refl))
  ]

  redeem-Step :
      (args : RedeemArgs) (clock : ℕ) (bindings : Registry)
      → IsSingleUse bindings
      → Step
          (view bindings)
          (event_of (redeeming args clock) bindings)
          (view (redeem crypto iso args clock bindings).1)
  redeem-Step args clock bindings v =
      elim (Result-cases (check_redeem crypto iso args clock bindings)) [
        | inl (b, g) ↦
            let r = (check_redeem_iff crypto iso args clock bindings b).0 g in
            subst (λ e. Step (view bindings) e (view (redeem crypto iso args clock bindings).1))
              (sym (
                ap (λ x. event_of_redeem (hash_code crypto iso args.code) x.0)
                  (redeem_granted crypto iso args clock bindings b g)
                ∙ granted_event (hash_code crypto iso args.code) args clock b))
              (on_redeem (hash_code crypto iso args.code) b
                (ap phase_of r.found ∙ open_of_unspent b r.unspent)
                (λ j.
                  ap phase_of (redeem_spends crypto iso args clock bindings b j v r)
                  ∙ phase_if (hash_code crypto iso args.code == j) (spend b) (lookup j bindings)
                      spent (spent_of_spend b (v.one_use _ b r.found))))
        | inr (e, refused) ↦ rw (redeem_refused crypto iso args clock bindings e refused) (
            subst (λ x. Step (view bindings) x (view bindings))
              (sym (
                declined_event (hash_code crypto iso args.code) e
                  (λ f. check_redeem-Avoids crypto iso args clock bindings (refused ∙ ap err f))))
              (on_refusal (λ j. refl)))
      ]

  -- In a registry that satisfies the invariant every call takes a step of the promise, whatever its
  -- arguments and its outcome.
  pub call_refines :
      (call : Call) (bindings : Registry)
      → IsSingleUse bindings
      → Step (view bindings) (event_of call bindings) (view (after crypto iso call bindings))
  unfolding after
  call_refines (issuing args clock) bindings v = issue-Step args clock bindings
  call_refines (redeeming args clock) bindings v = redeem-Step args clock bindings v

  -- From a registry that satisfies the invariant, any calls of `issue` and `redeem` take the steps
  -- of a simpler machine in which every code is unknown, open for one binding, or spent. The step
  -- is told from what the call returns: an `issue` that returns a binding opens its code for it, a
  -- `redeem` that returns a credential, or that raises the `OverflowError` of its session's end,
  -- spends a code that was open, and every other call changes nothing.
  pub run_refines :
      (calls : List Call) (bindings : Registry)
      → IsSingleUse bindings
      → Steps (view bindings) (events_of calls bindings) (view (run crypto iso calls bindings))
  unfolding run
  run_refines [] bindings v = done
  run_refines (call ∷ calls) bindings v = next (call_refines call bindings v) (
      run_refines calls (after crypto iso call bindings)
        (after-IsSingleUse crypto iso call bindings v))
