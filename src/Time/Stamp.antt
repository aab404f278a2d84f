-- ===== src/Time/Stamp.antt =====
-- `isoformat().replace("+00:00", "Z")` for times in UTC: the text ends with `Z` in place of the offset,
-- and is otherwise the same.
use Prim.Native.Nat.{◌/◌, ◌%◌}
use Prim.Native.Char.{Char, code}
use Prim.Native.String.{◌∷◌ as cons}
use nlboot.Base.{ℕ, String, ◌≡◌, refl, ap, ◌∙◌, false, arith, eqb, Bool-cases, inl, inr}
use nlboot.Time.{offset_to_zulu, offset_to_zulu_from}
use nlboot.Time.Calendar.{civil}
use nlboot.Time.Iso.{decimal, code-decimal, two, four, six, fraction, clock_text, isoformat}

-- the date and the time of day, with the fraction where there is one, and `Z`
unfoldable pub stamp : ℕ → String
stamp t =
    let (y, m, d) = civil (t / 86400000000) in
    four y (
      cons "-" (
        two m (
          cons "-"
            (two d (cons "T" (clock_text (t / 1000000 % 86400) (fraction (t % 1000000) "Z")))))))

replaced : String → String
replaced s = offset_to_zulu_from 0 s

-- A character that is no `+` stays.
replaced-cons :
    (c : Char) (s : String) → eqb 43 (code c) ≡ false → replaced (cons c s) ≡ cons c (replaced s)
unfolding replaced offset_to_zulu_from
replaced-cons c s h = rw h refl

replaced-two : (n : ℕ) (s : String) → replaced (two n s) ≡ two n (replaced s)
replaced-two n s =
    replaced-cons (decimal (n / 10)) (cons (decimal n) s) (no_plus (n / 10))
    ∙ ap (cons (decimal (n / 10))) (replaced-cons (decimal n) s (no_plus n))
  where
    no_plus : (k : ℕ) → eqb 43 (code (decimal k)) ≡ false
    no_plus k = let e = code-decimal k in ground arith

replaced-mark :
    (n : ℕ) (mark : Char) (s : String)
    → eqb 43 (code mark) ≡ false
    → replaced (two n (cons mark s)) ≡ two n (cons mark (replaced s))
replaced-mark n mark s h = replaced-two n (cons mark s) ∙ ap (two n) (replaced-cons mark s h)

replaced-offset : replaced "+00:00" ≡ "Z"
unfolding replaced offset_to_zulu_from
replaced-offset = refl

replaced-fraction : (us : ℕ) → replaced (fraction us "+00:00") ≡ fraction us "Z"
replaced-fraction us = elim (Bool-cases (eqb us 0)) [
  | inl e ↦ rw e replaced-offset
  | inr e ↦ rw e (
      replaced-cons "." (six us "+00:00") refl
      ∙ ap (cons ".") (
          replaced-two (us / 10000) (four us "+00:00")
          ∙ ap (two (us / 10000)) (
              replaced-two (us / 100) (two us "+00:00")
              ∙ ap (two (us / 100)) (replaced-two us "+00:00" ∙ ap (two us) replaced-offset))))
]

replaced-clock_text :
    (s : ℕ) (rest : String) → replaced (clock_text s rest) ≡ clock_text s (replaced rest)
replaced-clock_text s rest =
    replaced-mark (s / 3600) ":" _ refl
    ∙ ap (λ x. two (s / 3600) (cons ":" x))
        (replaced-mark (s / 60 % 60) ":" _ refl
          ∙ ap (λ x. two (s / 60 % 60) (cons ":" x)) (replaced-two (s % 60) rest))

abbrev date_text : ℕ × ℕ × ℕ → String → String
date_text (y, m, d) rest = four y (cons "-" (two m (cons "-" (two d (cons "T" rest)))))

replaced-date_text :
    (y m d : ℕ) (rest : String)
    → replaced (date_text (y, m, d) rest) ≡ date_text (y, m, d) (replaced rest)
replaced-date_text y m d rest =
    let days = two d (cons "T" rest) in
    let months = two m (cons "-" days) in
    replaced-two (y / 100) (two y (cons "-" months))
    ∙ ap (two (y / 100)) (
        replaced-mark y "-" months refl
        ∙ ap (λ x. two y (cons "-" x))
            (replaced-mark m "-" days refl
              ∙ ap (λ x. two m (cons "-" x)) (replaced-mark d "T" rest refl)))

-- What the source writes for a time is its stamp.
pub offset_to_zulu-isoformat : (t : ℕ) → offset_to_zulu (isoformat t) ≡ stamp t
unfolding offset_to_zulu isoformat stamp replaced
offset_to_zulu-isoformat t =
    let date = civil (t / 86400000000) in
    let s = t / 1000000 % 86400 in
    let parts = fraction (t % 1000000) "+00:00" in
    replaced-date_text date.0 date.1 date.2 (clock_text s parts)
    ∙ ap (date_text date)
        (replaced-clock_text s parts ∙ ap (clock_text s) (replaced-fraction (t % 1000000)))
