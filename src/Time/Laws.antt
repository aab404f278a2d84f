-- ===== src/Time/Laws.antt =====
-- Replacing `+00:00` by `Z` and `Z` by `+00:00` again, and what that gives for times.
use Prim.Native.Char.{Char}
use Prim.Native.String.{[] as nil, ◌∷◌ as cons, ◌++◌ as append}
use text.Mathlib.TextEquality.{Char-path}
use text.Mathlib.TextLemmas.{nil-append, cons-append}
use nlboot.Base.{
  ℕ, zero, suc, ◌≤◌, ◌<◌, String, ◌≡◌, refl, sym, ap, ◌∙◌, true, some, arith, Bool-cases, inl, inr,
  ℤ, pos, is_positive,
}
use nlboot.Text.{has_text}
use nlboot.Time.{
  aware, NoZulu, BeginsWithDigit, IsoFormat, last_instant, zulu_to_offset, begins_with,
  offset_to_zulu_from, offset_to_zulu, shift,
}

-- the text without its first characters
skip : ℕ → String → String
skip zero s = s
skip (suc k) nil = nil
skip (suc k) (cons c s) = skip k s

begins_with_cons :
    (c d : Char) (part s : String)
    → begins_with (cons c part) (cons d s) ≡ true
    → (c ≡ d) × (begins_with part s ≡ true)
begins_with_cons c d part s h = (Char-path c d (ground arith), ground arith)

begins_with-append :
    (part s : String) → begins_with part s ≡ true → (r : String) × (s ≡ append part r)
begins_with-append nil s h = (s, sym (nil-append s))
begins_with-append (cons c part) nil h = cc
begins_with-append (cons c part) (cons d s) h =
    let (same, rest) = begins_with_cons c d part s h in
    let (r, e) = begins_with-append part s rest in
    (r, ap (cons d) e ∙ ap (λ x. cons x (append part r)) (sym same) ∙ sym (cons-append c part r))

abbrev size : String → ℕ
size nil = 0
size (cons c s) = suc (size s)

skip-append : (part r : String) → skip (size part) (append part r) ≡ r
unfolding skip
skip-append nil r = nil-append r
skip-append (cons c part) r =
    ap (skip (suc (size part))) (cons-append c part r) ∙ skip-append part r

zulu_to_offset-from :
    (k : ℕ) (s : String) → NoZulu s → zulu_to_offset (offset_to_zulu_from k s) ≡ skip k s
unfolding zulu_to_offset offset_to_zulu_from skip
zulu_to_offset-from zero nil h = refl
zulu_to_offset-from (suc k) nil h = refl
zulu_to_offset-from (suc k) (cons c s) h = zulu_to_offset-from k s h.1
zulu_to_offset-from zero (cons c s) h = elim (Bool-cases (begins_with "+00:00" (cons c s))) [
  | inl matched ↦
      let (r, e) = begins_with-append "+00:00" (cons c s) matched in
      let same : skip 5 s ≡ r = ap (skip 6) e ∙ skip-append "+00:00" r in
      rw (matched, zulu_to_offset-from 5 s h.1, same) (sym e)
  | inr kept ↦ rw (kept, h.0, zulu_to_offset-from 0 s h.1)
]

-- Replacing `+00:00` by `Z`, and every `Z` by `+00:00` again, gives the text back, if it had no
-- `Z`.
pub zulu_to_offset-offset_to_zulu : (s : String) → NoZulu s → zulu_to_offset (offset_to_zulu s) ≡ s
unfolding offset_to_zulu skip
zulu_to_offset-offset_to_zulu s h = zulu_to_offset-from 0 s h

has_text-digit : (s : String) → BeginsWithDigit s → has_text (offset_to_zulu s) ≡ true
unfolding offset_to_zulu offset_to_zulu_from has_text
has_text-digit nil h = absurd h
has_text-digit (cons c s) h = ground arith

module _ (iso : IsoFormat) where
  -- The text that the source writes for a time is read as that time, and is not blank.
  pub fromisoformat-zulu :
      (t : ℕ)
      → t ≤ last_instant
      → iso.fromisoformat (zulu_to_offset (offset_to_zulu (iso.isoformat t))) ≡ aware t
  fromisoformat-zulu t h =
      rw (zulu_to_offset-offset_to_zulu (iso.isoformat t) (iso.isoformat-NoZulu t))
        (iso.fromisoformat-isoformat t h)

  pub has_text-zulu : (t : ℕ) → has_text (offset_to_zulu (iso.isoformat t)) ≡ true
  has_text-zulu t = has_text-digit (iso.isoformat t) (iso.isoformat-BeginsWithDigit t)

-- Adding a positive number of seconds gives a later time.
pub shift-lt : (t : ℕ) (s : ℤ) {u : ℕ} → shift t s ≡ some u → is_positive s ≡ true → t < u
unfolding shift
shift-lt t (pos zero) h p = cc
shift-lt t (pos (suc n)) h p = ground arith
shift-lt t _ h p = cc

pub shift-le-last :
    (t : ℕ) (s : ℤ) {u : ℕ} → shift t s ≡ some u → t ≤ last_instant → u ≤ last_instant
unfolding shift
shift-le-last t (pos n) h p = ground arith
shift-le-last t _ h p = ground arith
