-- ===== src/Enrollment/Bridge.antt =====
-- The token payload that a binding renders, through the token validation of protocol.py.
use nlboot.Base.{ℕ, ◌<◌, ◌≤◌, String, ◌≡◌, refl, sym, ap, true, Option, some, ok}
use nlboot.Text.{has_text}
use nlboot.Json.{str}
use nlboot.Time.{IsoFormat, now_or, last_instant}
use nlboot.Time.Laws.{fromisoformat-zulu, has_text-zulu}
use nlboot.Device.{zulu_time}
use nlboot.Protocol.Modes.{TokenStatus}
use nlboot.Protocol.Manifest.{SignedBootManifest}
use nlboot.Protocol.Manifest.Matching.{MenuMatches}
use nlboot.Protocol.Token.{EnrollmentToken, from_dict}
use nlboot.Protocol.Token.Laws.{token_from_dict_iff}
use nlboot.Protocol.Token.Validity.{MayBoot}
use nlboot.Protocol.Plan.{plan_of, build_boot_plan}
use nlboot.Protocol.Plan.Contract.{selection, plan_of-IsPlan}
use nlboot.Protocol.Plan.Laws.{build_boot_plan_iff}
use nlboot.Enrollment.{EnrollmentCodeBinding, issue_enrollment_token_payload}

-- The token that stands for a binding.
abbrev pub token_of : EnrollmentCodeBinding → String → String → EnrollmentToken
token_of b token_id subject_kind = record {
  token_id = token_id;
  purpose = b.purpose;
  subject_kind = subject_kind;
  subject_id = some b.device_id;
  release_set_ref = str b.release_set_ref;
  boot_release_set_ref = str b.boot_release_set_ref;
  one_time_use = true;
  issued_at = b.issued_at;
  expires_at = b.expires_at;
  status = TokenStatus.issued;
}

module _ (iso : IsoFormat) (b : EnrollmentCodeBinding) (token_id subject_kind : String) where
  module _ (id_filled : has_text token_id ≡ true) (kind_filled : has_text subject_kind ≡ true)
      (issued_fits : b.issued_at ≤ last_instant) (expires_fits : b.expires_at ≤ last_instant) where
    -- The payload that `issue_enrollment_token_payload` renders for a binding, with a token id and
    -- a subject kind that are not blank and times up to the year 9999, is read by
    -- `EnrollmentToken.from_dict` as the issued one-time token of that binding, with the same
    -- times.
    pub from_dict-payload :
        from_dict iso (issue_enrollment_token_payload iso b token_id subject_kind)
        ≡ ok (token_of b token_id subject_kind)
    unfolding issue_enrollment_token_payload zulu_time
    from_dict-payload = (token_from_dict_iff iso _ _).1 (record {
      token_id = (refl, id_filled);
      purpose = refl;
      audience_fields = _;
      audience = refl;
      subject_kind = (refl, kind_filled);
      subject_id = refl;
      release_set_ref = refl;
      boot_release_set_ref = refl;
      one_time_use = refl;
      issued_at = (
        _,
        (refl, has_text-zulu iso b.issued_at),
        fromisoformat-zulu iso b.issued_at issued_fits,
      );
      expires_at = (
        _,
        (refl, has_text-zulu iso b.expires_at),
        fromisoformat-zulu iso b.expires_at expires_fits,
      );
      status = refl;
    })

  -- Before its expiry a binding's token builds a plan for every manifest of the binding's release
  -- sets whose mode admits the binding's purpose and whose menu matches it.
  pub payload_builds_plan :
      (m : SignedBootManifest) (now : Option ℕ) (clock : ℕ)
      → m.boot_release_set_id ≡ b.boot_release_set_ref
      → m.base_release_set_ref ≡ b.release_set_ref
      → MayBoot b.purpose m.boot_mode
      → MenuMatches m.boot_menu m
      → now_or now clock < b.expires_at
      → build_boot_plan m (token_of b token_id subject_kind) now clock
        ≡ ok (plan_of m (token_of b token_id subject_kind) (selection m.boot_menu))
  payload_builds_plan m now clock boot base purpose menu early =
      (build_boot_plan_iff m (token_of b token_id subject_kind) now clock _).1 (
        record {
          status = refl;
          unexpired = early;
          one_time = refl;
          boot_release = ap str (sym boot);
          base_release = ap str (sym base);
          purpose = purpose;
        },
        menu,
        plan_of-IsPlan m (token_of b token_id subject_kind),
      )
