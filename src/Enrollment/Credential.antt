-- ===== src/Enrollment/Credential.antt =====
-- The credential that `redeem` of enrollment.py makes of a binding, by its fields.
use Prim.Native.String.{◌++◌ as append}
use nlboot.Base.{ℕ, ◌≡◌, refl, sym, ◌↔◌, some, ok, Yields, Yields-or_raise, Yields-ok, or_raise_ok}
use nlboot.Time.{IsoFormat, shift, now_or}
use nlboot.Crypto.{Crypto}
use nlboot.Enrollment.{EnrollmentCodeBinding, SessionCredential, RedeemArgs, credential_of}

-- The credential is for what the binding binds, and lasts from now for the session's seconds.
pub record IsCredential (args : RedeemArgs) (current : ℕ) (b : EnrollmentCodeBinding)
    (c : SessionCredential) : Type 0 where
  pub session_id : c.session_id ≡ append "urn:srcos:enrollment-session:" args.session_hex
  pub device_id : c.device_id ≡ b.device_id
  pub purpose : c.purpose ≡ b.purpose
  pub release_set_ref : c.release_set_ref ≡ b.release_set_ref
  pub boot_release_set_ref : c.boot_release_set_ref ≡ b.boot_release_set_ref
  pub artifact_refs : c.artifact_refs ≡ b.artifact_refs
  pub issued_at : c.issued_at ≡ current
  pub expires_at : shift current args.session_ttl_seconds ≡ some c.expires_at

module _ (crypto : Crypto) (iso : IsoFormat) (args : RedeemArgs) (clock : ℕ)
    (b : EnrollmentCodeBinding) where
  credential_of-Yields :
      Yields (IsCredential args (now_or args.now clock) b) (credential_of crypto iso args clock b)
  unfolding credential_of
  credential_of-Yields =
      Yields-or_raise (shift (now_or args.now clock) args.session_ttl_seconds) _ _ λ ends e.
        Yields-ok _ (record {
          session_id = refl;
          device_id = refl;
          purpose = refl;
          release_set_ref = refl;
          boot_release_set_ref = refl;
          artifact_refs = refl;
          issued_at = refl;
          expires_at = e;
        })

  credential_complete :
      (c : SessionCredential)
      → IsCredential args (now_or args.now clock) b c
      → credential_of crypto iso args clock b ≡ ok c
  unfolding credential_of
  credential_complete c h = or_raise_ok _ _ h.expires_at λ i. ok (record {
    session_id = sym h.session_id i;
    device_id = sym h.device_id i;
    purpose = sym h.purpose i;
    release_set_ref = sym h.release_set_ref i;
    boot_release_set_ref = sym h.boot_release_set_ref i;
    artifact_refs = sym h.artifact_refs i;
    issued_at = sym h.issued_at i;
    expires_at = c.expires_at;
  })

  pub credential_of_iff :
      (c : SessionCredential)
      → (credential_of crypto iso args clock b ≡ ok c)
        ↔ IsCredential args (now_or args.now clock) b c
  credential_of_iff c = (credential_of-Yields.at c, credential_complete c)
