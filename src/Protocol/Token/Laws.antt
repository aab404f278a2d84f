-- ===== src/Protocol/Token/Laws.antt =====
-- `EnrollmentToken.from_dict` of protocol.py: the documents of tokens.
use nlboot.Base.{
  ℕ, String, ◌≡◌, refl, ap, ◌∙◌, ◌↔◌, Option, none, some, ok, arith, Yields, Yields-bind,
  Yields-or_raise, Yields-ok, bind_ok, or_raise_ok,
}
use nlboot.Json.{Value, null, bool, str, obj, Fields, get, object_of, bool_of}
use nlboot.Time.{Reading, aware, IsoFormat, zulu_to_offset}
use nlboot.Protocol.Modes.{
  purpose_name, purpose_of, purpose_of-purpose_name, purpose_of_sound, has_text-purpose_name,
  status_name, status_of, status_of-status_name, status_of_sound, has_text-status_name,
}
use nlboot.Protocol.Checks.{
  TextAt, require_string, text_of_require_string, require_string_of_TextAt,
}
use nlboot.Protocol.Manifest.Laws.{object_of_sound}
use nlboot.Protocol.Entry.Laws.{bool_of_sound}
use nlboot.Protocol.Token.{EnrollmentToken, utc_of, text_or_null, parse_time, from_dict}

abbrev pub subject_value : Option String → Value
subject_value none = null
subject_value (some s) = str s

text_or_null_sound : (v : Value) {o : Option String} → text_or_null v ≡ some o → v ≡ subject_value o
text_or_null_sound null h = ground arith
text_or_null_sound (str s) h = ground arith
text_or_null_sound _ h = cc

text_or_null_complete : (o : Option String) → text_or_null (subject_value o) ≡ some o
text_or_null_complete none = refl
text_or_null_complete (some s) = refl

utc_of_sound : (r : Reading) (key : String) {t : ℕ} → utc_of r key ≡ ok t → r ≡ aware t
utc_of_sound (aware t) key h = ground arith
utc_of_sound _ key h = cc

module _ (iso : IsoFormat) where
  -- The object holds a text under `key` that stands for the time `t`.
  abbrev pub TimeAt : Fields → String → ℕ → Type 0
  TimeAt fields key t =
      (s : String) × TextAt fields key s × (iso.fromisoformat (zulu_to_offset s) ≡ aware t)

  pub parse_time_iff :
      (value key : String) {t : ℕ}
      → (parse_time iso value key ≡ ok t) ↔ (iso.fromisoformat (zulu_to_offset value) ≡ aware t)
  unfolding parse_time
  parse_time_iff value key = (utc_of_sound _ key, λ e. rw e)

  pub record Encodes (fields : Fields) (t : EnrollmentToken) : Type 0 where
    pub token_id : TextAt fields "token_id" t.token_id
    pub purpose : get fields "purpose" ≡ str (purpose_name t.purpose)
    pub audience_fields : Fields
    pub audience : get fields "audience" ≡ obj audience_fields
    pub subject_kind : TextAt audience_fields "subject_kind" t.subject_kind
    pub subject_id : get audience_fields "subject_id" ≡ subject_value t.subject_id
    pub release_set_ref : t.release_set_ref ≡ get fields "release_set_ref"
    pub boot_release_set_ref : t.boot_release_set_ref ≡ get fields "boot_release_set_ref"
    pub one_time_use : get fields "one_time_use" ≡ bool t.one_time_use
    pub issued_at : TimeAt fields "issued_at" t.issued_at
    pub expires_at : TimeAt fields "expires_at" t.expires_at
    pub status : get fields "status" ≡ str (status_name t.status)

  from_dict_sound : (fields : Fields) → Yields (Encodes fields) (from_dict iso fields)
  unfolding from_dict
  from_dict_sound fields =
      let text = require_string fields in
      Yields-bind (text "token_id") _ λ token_id e1.
        Yields-bind (text "purpose") _ λ purpose_text e2.
          Yields-or_raise (purpose_of purpose_text) _ _ λ purpose e3.
            Yields-or_raise (object_of (get fields "audience")) _ _ λ audience e4.
              Yields-bind (require_string audience "subject_kind") _ λ subject_kind e5.
                Yields-or_raise (text_or_null (get audience "subject_id")) _ _ λ subject_id e6.
                  Yields-bind (text "issued_at") _ λ issued_text e7.
                    Yields-bind (parse_time iso issued_text "issued_at") _ λ issued_at e8.
                      Yields-bind (text "expires_at") _ λ expires_text e9.
                        Yields-bind (parse_time iso expires_text "expires_at") _ λ expires_at e10.
                          Yields-or_raise (bool_of (get fields "one_time_use")) _ _
                            λ one_time_use e11. Yields-bind (text "status") _ λ status_text e12.
                              Yields-or_raise (status_of status_text) _ _ λ status e13.
                                Yields-ok (Encodes fields) (record {
                                  token_id = text_of_require_string fields "token_id" e1;
                                  purpose =
                                      (text_of_require_string fields "purpose" e2).0
                                      ∙ ap str (purpose_of_sound purpose_text e3);
                                  audience_fields = audience;
                                  audience = object_of_sound _ e4;
                                  subject_kind = text_of_require_string audience "subject_kind" e5;
                                  subject_id = text_or_null_sound _ e6;
                                  release_set_ref = refl;
                                  boot_release_set_ref = refl;
                                  one_time_use = bool_of_sound _ e11;
                                  issued_at = (
                                    issued_text,
                                    text_of_require_string fields "issued_at" e7,
                                    (parse_time_iff issued_text "issued_at").0 e8,
                                  );
                                  expires_at = (
                                    expires_text,
                                    text_of_require_string fields "expires_at" e9,
                                    (parse_time_iff expires_text "expires_at").0 e10,
                                  );
                                  status =
                                      (text_of_require_string fields "status" e12).0
                                      ∙ ap str (status_of_sound status_text e13);
                                })

  from_dict_complete :
      (fields : Fields) (t : EnrollmentToken) → Encodes fields t → from_dict iso fields ≡ ok t
  unfolding from_dict
  from_dict_complete fields t h =
      let (issued_text, issued_filled, issued_read) = h.issued_at in
      let (expires_text, expires_filled, expires_read) = h.expires_at in
      bind_ok _ (require_string_of_TextAt fields "token_id" h.token_id) (
        bind_ok _
          (require_string_of_TextAt fields "purpose" (h.purpose, has_text-purpose_name t.purpose))
          (or_raise_ok _ _ (purpose_of-purpose_name t.purpose) (
            or_raise_ok _ _ (ap object_of h.audience) (
              bind_ok _ (require_string_of_TextAt h.audience_fields "subject_kind" h.subject_kind) (
                or_raise_ok _ _ (ap text_or_null h.subject_id ∙ text_or_null_complete t.subject_id)
                  (bind_ok _ (require_string_of_TextAt fields "issued_at" issued_filled) (
                    bind_ok _ ((parse_time_iff issued_text "issued_at").1 issued_read) (
                      bind_ok _ (require_string_of_TextAt fields "expires_at" expires_filled) (
                        bind_ok _ ((parse_time_iff expires_text "expires_at").1 expires_read) (
                          or_raise_ok _ _ (ap bool_of h.one_time_use) (
                            bind_ok _
                              (require_string_of_TextAt fields "status"
                                (h.status, has_text-status_name t.status))
                              (or_raise_ok _ _ (status_of-status_name t.status)
                                (rw (← h.release_set_ref, ← h.boot_release_set_ref))))))))))))))

  -- `EnrollmentToken.from_dict` accepts exactly the documents that encode a token, and returns
  -- that token.
  pub token_from_dict_iff :
      (fields : Fields) (t : EnrollmentToken) → (from_dict iso fields ≡ ok t) ↔ Encodes fields t
  token_from_dict_iff fields t = ((from_dict_sound fields).at t, from_dict_complete fields t)
