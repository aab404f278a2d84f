-- ===== src/Enrollment/Overflow.antt =====
-- The checks of `redeem` in enrollment.py raise no `OverflowError`: only the end of the session does.
use nlboot.Base.{
  ℕ, ◌≡◌, ap, Bool, true, false, not, Option, none, some, Result, ok, err, ◌>>=◌, ◌>>◌, guard,
  or_raise, map_err, ltb, lookup, ◌==◌,
}
use nlboot.Text.{non_empty}
use nlboot.Time.{IsoFormat, now_or}
use nlboot.Crypto.{Crypto}
use nlboot.Device.{DeviceError, verify}
use nlboot.Enrollment.{
  EnrollmentError, invalid_claim, time_overflow, code_not_text, unknown_code, already_redeemed,
  code_expired, release_mismatch, device_mismatch, Registry, RedeemArgs, hash_code, is_spent,
  check_redeem,
}

error_or : {A : Type 0} → Result EnrollmentError A → EnrollmentError
error_or (ok a) = time_overflow
error_or (err e) = e

error_of :
    {A : Type 0} {e f : EnrollmentError}
    → ◌≡◌ {A = Result EnrollmentError A} (err e) (err f)
    → e ≡ f
unfolding error_or
error_of h = ap error_or h

-- The code raises no `OverflowError`.
abbrev pub Avoids : {A : Type 0} → Result EnrollmentError A → Type 0
Avoids r = r ≡ err time_overflow → ⊥

guard-Avoids :
    {A : Type 0} (b : Bool) (e : EnrollmentError) (k : Result EnrollmentError A)
    → (e ≡ time_overflow → ⊥)
    → Avoids k
    → Avoids (guard b e >> k)
guard-Avoids true e k other rest = rest
guard-Avoids false e k other rest = λ h. other (error_of h)

or_raise-Avoids :
    {A B : Type 0} (o : Option A) (e : EnrollmentError) (f : A → Result EnrollmentError B)
    → (e ≡ time_overflow → ⊥)
    → ((a : A) → Avoids (f a))
    → Avoids (or_raise o e >>= f)
or_raise-Avoids none e f other rest = λ h. other (error_of h)
or_raise-Avoids (some a) e f other rest = rest a

map_err-Avoids :
    {A : Type 0} (r : Result DeviceError (Unit {0})) (k : Result EnrollmentError A)
    → Avoids k
    → Avoids (map_err invalid_claim r >> k)
map_err-Avoids (ok u) k rest = rest
map_err-Avoids (err e) k rest = λ h. cc (error_of h)

module _ (crypto : Crypto) (iso : IsoFormat) where
  pub check_redeem-Avoids :
      (args : RedeemArgs) (clock : ℕ) (bindings : Registry)
      → Avoids (check_redeem crypto iso args clock bindings)
  unfolding check_redeem
  check_redeem-Avoids args clock bindings =
      guard-Avoids (non_empty args.code) code_not_text _ (λ e. cc)
        (or_raise-Avoids (lookup (hash_code crypto iso args.code) bindings) unknown_code _ (λ e. cc)
          (λ b.
            guard-Avoids (not (is_spent b)) already_redeemed _ (λ e. cc)
              (guard-Avoids (ltb (now_or args.now clock) b.expires_at) code_expired _ (λ e. cc)
                (guard-Avoids (args.release_set_ref == b.release_set_ref) release_mismatch _
                  (λ e. cc)
                  (map_err-Avoids (verify crypto iso args.device_claim (some b.nonce)) _ (
                    guard-Avoids (args.device_claim.device_id == b.device_id) device_mismatch _
                      (λ e. cc) (λ e. cc)))))))
