-- ===== src/Enrollment/Trace.antt =====
-- Sequences of calls of enrollment.py's registry, and how often they issue and redeem a code.
use nlboot.Base.{
  ℕ, ◌+◌, ◌≤◌, String, inl, inr, Bool, true, false, Option, none, some, List, [], ◌∷◌, Result, ok,
  err, arith, lookup, lookup-insert, eq_iff, ◌==◌, Result-cases,
}
use nlboot.Time.{IsoFormat}
use nlboot.Crypto.{Crypto}
use nlboot.Enrollment.{
  EnrollmentCodeBinding, Registry, IssueArgs, RedeemArgs, hash_code, new_binding, issue,
  check_redeem, redeem,
}
use nlboot.Enrollment.Redeem.{check_redeem_iff, redeem_refused}
use nlboot.Enrollment.Issue.{issue_stored, issue_refused, new_binding_sound}
use nlboot.Enrollment.Invariant.{
  IsSingleUse, IsSingleUse-empty, issue-IsSingleUse, redeem-IsSingleUse, redeem_spends,
}

-- A call, with what the clock shows.
pub data Call : Type 0 where
  issuing : IssueArgs → ℕ → Call
  redeeming : RedeemArgs → ℕ → Call

-- 1 for a call that returned, 0 for one that raised
abbrev pub returned {ℓ κ} : {E : Type ℓ} {A : Type κ} → Result E A → ℕ
returned (ok a) = 1
returned (err e) = 0

returned_le {ℓ κ} : {E : Type ℓ} {A : Type κ} (r : Result E A) → returned r ≤ 1
returned_le (ok a) = omega arith
returned_le (err e) = omega arith

abbrev pub count_if : Bool → ℕ → ℕ
count_if true n = n
count_if false n = 0

module _ (crypto : Crypto) (iso : IsoFormat) where
  unfoldable pub after : Call → Registry → Registry
  after (issuing args clock) bindings = (issue crypto iso args clock bindings).1
  after (redeeming args clock) bindings = (redeem crypto iso args clock bindings).1

  unfoldable pub run : List Call → Registry → Registry
  unfolding after
  run [] bindings = bindings
  run (call ∷ calls) bindings = run calls (after call bindings)

  module _ (key : String) where
    -- The call issues, or redeems, a code with the hash `key`.
    abbrev pub issues : Call → Registry → ℕ
    issues (issuing args clock) bindings =
        count_if (hash_code crypto iso args.code == key)
          (returned (issue crypto iso args clock bindings).0)
    issues (redeeming args clock) bindings = 0

    abbrev pub redeems : Call → Registry → ℕ
    redeems (issuing args clock) bindings = 0
    redeems (redeeming args clock) bindings =
        count_if (hash_code crypto iso args.code == key)
          (returned (redeem crypto iso args clock bindings).0)

    unfoldable pub times_issued : List Call → Registry → ℕ
    times_issued [] bindings = 0
    times_issued (call ∷ calls) bindings =
        issues call bindings + times_issued calls (after call bindings)

    unfoldable pub times_redeemed : List Call → Registry → ℕ
    times_redeemed [] bindings = 0
    times_redeemed (call ∷ calls) bindings =
        redeems call bindings + times_redeemed calls (after call bindings)

    abbrev uses : Option EnrollmentCodeBinding → ℕ
    uses none = 0
    uses (some b) = b.remaining_uses

    -- the uses left of the code with the hash `key`
    abbrev pub uses_left : Registry → ℕ
    uses_left bindings = uses (lookup key bindings)

    issue_accounts :
        (args : IssueArgs) (clock : ℕ) (bindings : Registry)
        → IsSingleUse bindings
        → uses_left (issue crypto iso args clock bindings).1
          ≤ issues (issuing args clock) bindings + uses_left bindings
    issue_accounts args clock bindings v = elim (Result-cases (new_binding crypto iso args clock)) [
      | inl (b, made) ↦
          let i = (new_binding_sound crypto iso args clock).at b made in
          rw (issue_stored crypto iso args clock bindings b made)
            (ground (arith, lookup-insert b.code_hash key b bindings, i.code_hash, i.one_use))
      | inr (e, refused) ↦ rw (issue_refused crypto iso args clock bindings e refused) (omega arith)
    ]

    redeem_accounts :
        (args : RedeemArgs) (clock : ℕ) (bindings : Registry)
        → IsSingleUse bindings
        → redeems (redeeming args clock) bindings
            + uses_left (redeem crypto iso args clock bindings).1
          ≤ uses_left bindings
    redeem_accounts args clock bindings v =
        elim (Result-cases (check_redeem crypto iso args clock bindings)) [
          | inl (b, g) ↦
              let r = (check_redeem_iff crypto iso args clock bindings b).0 g in
              ground (
                arith,
                redeem_spends crypto iso args clock bindings b key v r,
                eq_iff (hash_code crypto iso args.code) key,
                r.found,
                r.unspent,
                returned_le (redeem crypto iso args clock bindings).0,
              )
          | inr (e, refused) ↦
              rw (redeem_refused crypto iso args clock bindings e refused) (ground arith)
        ]

    call_accounts :
        (call : Call) (bindings : Registry)
        → IsSingleUse bindings
        → redeems call bindings + uses_left (after call bindings)
          ≤ issues call bindings + uses_left bindings
    unfolding after
    call_accounts (issuing args clock) bindings v =
        omega (arith, issue_accounts args clock bindings v)
    call_accounts (redeeming args clock) bindings v =
        omega (arith, redeem_accounts args clock bindings v)

  -- Every call keeps the invariant.
  pub after-IsSingleUse :
      (call : Call) (bindings : Registry) → IsSingleUse bindings → IsSingleUse (after call bindings)
  unfolding after
  after-IsSingleUse (issuing args clock) bindings v =
      issue-IsSingleUse crypto iso args clock bindings v
  after-IsSingleUse (redeeming args clock) bindings v =
      redeem-IsSingleUse crypto iso args clock bindings v

  -- If every binding stands under its own hash and has at most one use left, then so it is after
  -- any sequence of calls of `issue` and `redeem`.
  pub run-IsSingleUse :
      (calls : List Call) (bindings : Registry)
      → IsSingleUse bindings
      → IsSingleUse (run calls bindings)
  unfolding run
  run-IsSingleUse [] bindings v = v
  run-IsSingleUse (call ∷ calls) bindings v =
      run-IsSingleUse calls (after call bindings) (after-IsSingleUse call bindings v)

  -- Over any sequence of calls from a registry that satisfies the invariant, the redemptions of a
  -- code and its uses left in the end are together at most the number of times that it was issued
  -- and its uses left before.
  pub run_accounts :
      (key : String) (calls : List Call) (bindings : Registry)
      → IsSingleUse bindings
      → times_redeemed key calls bindings + uses_left key (run calls bindings)
        ≤ times_issued key calls bindings + uses_left key bindings
  unfolding run times_redeemed times_issued
  run_accounts key [] bindings v = omega arith
  run_accounts key (call ∷ calls) bindings v = omega (
    arith,
    call_accounts key call bindings v,
    run_accounts key calls (after call bindings) (after-IsSingleUse call bindings v),
  )

  -- Starting with the empty registry, whatever the calls of `issue` and `redeem`, their order,
  -- arguments and clock readings, no code is redeemed more often than it was issued.
  pub redeemed-le-issued :
      (key : String) (calls : List Call) → times_redeemed key calls [] ≤ times_issued key calls []
  unfolding lookup
  redeemed-le-issued key calls = omega (arith, run_accounts key calls [] IsSingleUse-empty)
