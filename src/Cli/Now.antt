-- ===== src/Cli/Now.antt =====
-- The `--now` text of cli.py and the time that it states.
use nlboot.Base.{
  ℕ, String, ◌≡◌, refl, sym, ap, ◌∙◌, ◌↔◌, ◌⊎◌, inl, inr, true, false, Bool-cases, Option-cases,
  Option, none, some, ok, or_raise_ok, ok-injective,
}
use nlboot.Text.{non_empty}
use nlboot.Time.{Reading, malformed, naive, aware, out_of_range, IsoFormat, zulu_to_offset}
use nlboot.Cli.{utc_of, read_now}

module _ (iso : IsoFormat) (local_to_utc : ℕ → Option ℕ) where
  -- A time with a zone is itself, and a time without one is of the system's time zone.
  abbrev pub Instant : Reading → Option ℕ → Type 0
  Instant (aware t) now = now ≡ some t
  Instant (naive t) now = (u : ℕ) × (local_to_utc t ≡ some u) × (now ≡ some u)
  Instant _ now = ⊥

  -- The argument is a time, or there is none, or it is empty.
  abbrev pub StatesNow : Option String → Option ℕ → Type 0
  StatesNow none now = now ≡ none
  StatesNow (some text) now =
      ((non_empty text ≡ false) × (now ≡ none))
      ⊎ ((non_empty text ≡ true) × Instant (iso.fromisoformat (zulu_to_offset text)) now)

  utc_of_iff : (r : Reading) (now : Option ℕ) → (utc_of iso local_to_utc r ≡ ok now) ↔ Instant r now
  utc_of_iff (aware t) now = (λ h. sym (ok-injective _ _ h), λ h. ap ok (sym h))
  utc_of_iff (naive t) now = (
    λ h. elim (Option-cases (local_to_utc t)) [
      | inl e ↦ cc (h, e)
      | inr (u, e) ↦ (u, e, sym (ok-injective _ _ (sym (or_raise_ok _ _ e refl) ∙ h)))
    ],
    λ (u, e, same). or_raise_ok _ _ e (ap ok (sym same)),
  )
  utc_of_iff malformed now = (λ h. cc h, λ h. absurd h)
  utc_of_iff out_of_range now = (λ h. cc h, λ h. absurd h)

  -- `read_now` returns exactly the time that the argument states.
  pub read_now_iff :
      (text : Option String) (now : Option ℕ)
      → (read_now iso local_to_utc text ≡ ok now) ↔ StatesNow text now
  read_now_iff none now = (λ h. sym (ok-injective _ _ h), λ h. ap ok (sym h))
  read_now_iff (some text) now =
      let (sound, complete) = utc_of_iff (iso.fromisoformat (zulu_to_offset text)) now in
      elim (Bool-cases (non_empty text)) [
        | inl t ↦ (
          λ h. inr (t, sound (rw t at h)),
          λ h. elim h [ inl (f, same) ↦ cc f | inr (_, states) ↦ rw t (complete states) ],
        )
        | inr t ↦ (
          λ h. inl (t, sym (ok-injective _ _ (rw t at h))),
          λ h. elim h [ inl (_, same) ↦ rw t (ap ok (sym same)) | inr (f, _) ↦ cc (t, f) ],
        )
      ]
