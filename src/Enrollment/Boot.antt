-- ===== src/Enrollment/Boot.antt =====
-- The whole way of a device: it generates its identity, claims it for a code, redeems the code, and
-- boots with the token that the code's binding stands for.
use nlboot.Base.{ℕ, ◌≤◌, ◌<◌, String, ◌≡◌, sym, ap, ◌∙◌, true, Option, some, List, ok, All}
use nlboot.Text.{has_text, non_empty}
use nlboot.Time.{IsoFormat, now_or, shift}
use nlboot.Crypto.{Crypto, RsaLaws}
use nlboot.Device.{DeviceIdentity, rsa_public_exponent, rsa_key_size, generate, make_claim, verify}
use nlboot.Device.Own.{own_claim}
use nlboot.Protocol.Manifest.{SignedBootManifest}
use nlboot.Protocol.Manifest.Matching.{MenuMatches}
use nlboot.Protocol.Token.{from_dict}
use nlboot.Protocol.Token.Validity.{MayBoot}
use nlboot.Protocol.Plan.{plan_of, build_boot_plan}
use nlboot.Protocol.Plan.Contract.{selection}
use nlboot.Enrollment.{
  EnrollmentCodeBinding, Registry, IssueArgs, RedeemArgs, hash_code, issue, redeem,
  issue_enrollment_token_payload,
}
use nlboot.Enrollment.Invariant.{IsSingleUse}
use nlboot.Enrollment.Trace.{Call, run}
use nlboot.Enrollment.Elsewhere.{Elsewhere}
use nlboot.Enrollment.Lifetime.{session, issue-redeem, issued_in_range}
use nlboot.Enrollment.Bridge.{token_of, from_dict-payload, payload_builds_plan}

module _ (crypto : Crypto) (iso : IsoFormat) where
  -- A code that a device was issued for a claim of its own is redeemed with any other claim of its
  -- own for the same nonce: for a generated key that obeys the documented laws of RSA and has the
  -- size asked for, a registry that satisfies the invariant, a code that is not empty, the bound
  -- release set, a time before the expiry and a session that ends in range, whatever calls for
  -- other codes come in between; and the credential is the binding's.
  pub own_code_redeems :
      (seed : ℕ) (identity : DeviceIdentity crypto) (nonce : String)
      → (claimed_at again_at : Option ℕ) (clock1 clock2 random1 random2 : ℕ)
      → (args : IssueArgs) (issued_clock : ℕ) (bindings : Registry) (b : EnrollmentCodeBinding)
      → (calls : List Call) (request : RedeemArgs) (clock expires : ℕ)
      → RsaLaws crypto (crypto.generate_private_key rsa_public_exponent rsa_key_size seed)
      → rsa_key_size
        ≤ crypto.key_size
            (crypto.public_key (crypto.generate_private_key rsa_public_exponent rsa_key_size seed))
      → generate crypto seed ≡ ok identity
      → make_claim crypto iso identity nonce claimed_at clock1 random1 ≡ ok args.device_claim
      → make_claim crypto iso identity nonce again_at clock2 random2 ≡ ok request.device_claim
      → IsSingleUse bindings
      → (issue crypto iso args issued_clock bindings).0 ≡ ok (args.code, b)
      → All (Elsewhere crypto iso (hash_code crypto iso args.code)) calls
      → non_empty args.code ≡ true
      → request.code ≡ args.code
      → request.release_set_ref ≡ b.release_set_ref
      → now_or request.now clock < b.expires_at
      → shift (now_or request.now clock) request.session_ttl_seconds ≡ some expires
      → (redeem crypto iso request clock
          (run crypto iso calls (issue crypto iso args issued_clock bindings).1)).0
        ≡ ok (session crypto iso request clock b expires)
  own_code_redeems seed identity nonce claimed_at again_at clock1 clock2 random1 random2 args
        issued_clock bindings b calls request clock expires laws size made claimed again v issued
        others code same release early ends =
      let (_, device1, nonce1) =
        own_claim crypto iso seed laws size identity nonce claimed_at clock1 random1
          args.device_claim made claimed in
      let (verified, device2, _) =
        own_claim crypto iso seed laws size identity nonce again_at clock2 random2
          request.device_claim made again in
      issue-redeem crypto iso args issued_clock bindings b calls request clock expires v issued
        others code same release (device2 ∙ sym device1)
        (ap (λ n. verify crypto iso request.device_claim (some n)) nonce1 ∙ verified) early ends

  -- For a code that was issued, the payload that `issue_enrollment_token_payload` renders of its
  -- binding, with a token id and a subject kind that are not blank, is read by
  -- `EnrollmentToken.from_dict` as the binding's one-time token; and before the expiry that token
  -- builds a plan for every manifest of the bound release sets whose mode admits the purpose and
  -- whose menu matches it.
  pub issued_token_boots :
      (args : IssueArgs) (issued_clock : ℕ) (bindings : Registry) (b : EnrollmentCodeBinding)
      → (token_id subject_kind : String) (m : SignedBootManifest) (now : Option ℕ) (clock : ℕ)
      → (issue crypto iso args issued_clock bindings).0 ≡ ok (args.code, b)
      → has_text token_id ≡ true
      → has_text subject_kind ≡ true
      → m.boot_release_set_id ≡ b.boot_release_set_ref
      → m.base_release_set_ref ≡ b.release_set_ref
      → MayBoot b.purpose m.boot_mode
      → MenuMatches m.boot_menu m
      → now_or now clock < b.expires_at
      → (from_dict iso (issue_enrollment_token_payload iso b token_id subject_kind)
          ≡ ok (token_of b token_id subject_kind))
        × (build_boot_plan m (token_of b token_id subject_kind) now clock
            ≡ ok (plan_of m (token_of b token_id subject_kind) (selection m.boot_menu)))
  issued_token_boots args issued_clock bindings b token_id subject_kind m now clock issued id kind
        boot base purpose menu early =
      let (starts, ends) = issued_in_range crypto iso args issued_clock bindings b issued in
      (
        from_dict-payload iso b token_id subject_kind id kind starts ends,
        payload_builds_plan iso b token_id subject_kind m now clock boot base purpose menu early,
      )
