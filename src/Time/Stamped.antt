-- ===== src/Time/Stamped.antt =====
-- A stamp is in the format "date-time".
use Prim.Native.Nat.{◌/◌, ◌%◌, ◌-◌}
use Prim.Native.Char.{code}
use Prim.Native.String.{◌∷◌ as cons}
use nlboot.Base.{
  ℕ, ◌+◌, ◌*◌, ◌≤◌, ◌<◌, String, ◌≡◌, refl, ap, ◌∙◌, Bool, true, ◌&&◌, arith, leb, eqb, Bool-cases,
  inl, inr,
}
use nlboot.Time.{last_instant}
use nlboot.Time.Calendar.{civil, civil-IsCivil}
use nlboot.Time.Iso.{decimal, code-decimal, two, four, fraction, clock_text}
use nlboot.Time.Stamp.{stamp}
use nlboot.Time.Rfc3339.{
  is_decimal, two_digits, mark, is_zone, is_fraction, after_seconds, at_second, at_minute, at_hour,
  is_time, is_day, at_day, at_month, at_year, is_date_time,
}

is_decimal-decimal : (n : ℕ) → is_decimal (code (decimal n)) ≡ true
is_decimal-decimal n = let e = code-decimal n in ground arith

-- Two digits that were written are read as the number's last two.
two_digits-two :
    (test : ℕ → String → Bool) (n : ℕ) (rest : String)
    → two_digits test (two n rest) ≡ test (n % 100) rest
unfolding two_digits
two_digits-two test n rest =
    let e : (code (decimal (n / 10)) - 48) * 10 + (code (decimal n) - 48) ≡ n % 100 =
      omega (arith, code-decimal (n / 10), code-decimal n) in
    rw (is_decimal-decimal (n / 10), is_decimal-decimal n) (ap (λ k. test k rest) e)

two_digits-small :
    (test : ℕ → String → Bool) (n : ℕ) (rest : String)
    → n < 100
    → two_digits test (two n rest) ≡ test n rest
two_digits-small test n rest h = two_digits-two test n rest ∙ ap (λ k. test k rest) (omega arith)

is_fraction-decimal :
    (n : ℕ) (rest : String) → is_fraction (cons (decimal n) rest) ≡ is_fraction rest
unfolding is_fraction
is_fraction-decimal n rest = rw (is_decimal-decimal n) refl

is_fraction-two : (n : ℕ) (rest : String) → is_fraction (two n rest) ≡ is_fraction rest
is_fraction-two n rest =
    is_fraction-decimal (n / 10) (cons (decimal n) rest) ∙ is_fraction-decimal n rest

after_seconds-fraction : (us : ℕ) → after_seconds (fraction us "Z") ≡ true
unfolding after_seconds is_zone is_fraction mark
after_seconds-fraction us = elim (Bool-cases (eqb us 0)) [
  | inl e ↦ rw e refl
  | inr e ↦
      rw (e, is_decimal-decimal (us / 10000 / 10))
        (is_fraction-decimal (us / 10000) (four us "Z")
          ∙ is_fraction-two (us / 100) (two us "Z")
          ∙ is_fraction-two us "Z")
]

both : {a b : Bool} → a ≡ true → b ≡ true → (a && b) ≡ true
both e f = rw e f

leb_of : (a b : ℕ) → a ≤ b → leb a b ≡ true
leb_of a b e = ground arith

is_time-clock_text :
    (s : ℕ) (rest : String)
    → s < 86400
    → after_seconds rest ≡ true
    → is_time (clock_text s rest) ≡ true
unfolding mark at_second
is_time-clock_text s rest h e =
    let seconds = two (s % 60) rest in
    let minutes = two (s / 60 % 60) (cons ":" seconds) in
    two_digits-small at_hour (s / 3600) (cons ":" minutes) (omega arith)
    ∙ two_digits-small (at_minute (s / 3600)) (s / 60 % 60) (cons ":" seconds) (omega arith)
    ∙ two_digits-small (at_second (s / 3600) (s / 60 % 60)) (s % 60) rest (omega arith)
    ∙ both
        (both (both (leb_of (s / 3600) 23 (omega arith)) (leb_of (s / 60 % 60) 59 (omega arith)))
          (leb_of (s % 60) 60 (omega arith)))
        e

is_day-civil : (day : ℕ) → day < 3652059 → is_day (civil day).0 (civil day).1 (civil day).2 ≡ true
unfolding is_day
is_day-civil day h =
    let c = civil-IsCivil day h in
    both (both (both (leb_of _ _ c.first_month) (leb_of _ _ c.month)) (leb_of _ _ c.first_day))
      (leb_of _ _ c.fits)

is_date_time-text :
    (y m d : ℕ) (rest : String)
    → y < 10000
    → m < 100
    → d < 100
    → is_day y m d ≡ true
    → is_time rest ≡ true
    → is_date_time (four y (cons "-" (two m (cons "-" (two d (cons "T" rest)))))) ≡ true
unfolding is_date_time mark at_day
is_date_time-text y m d rest hy hm hd day time =
    let days = two d (cons "T" rest) in
    let months = two m (cons "-" days) in
    let year : y / 100 * 100 + y % 100 ≡ y = omega arith in
    two_digits-small (λ century. two_digits (at_year century)) (y / 100) (two y (cons "-" months))
      (omega arith)
    ∙ two_digits-two (at_year (y / 100)) y (cons "-" months)
    ∙ ap (λ z. two_digits (at_month z) months) year
    ∙ two_digits-small (at_month y) m (cons "-" days) hm
    ∙ two_digits-small (at_day y m) d (cons "T" rest) hd
    ∙ both day time

-- The stamp of a time up to the year 9999 is a date and a time of RFC 3339.
pub is_date_time-stamp : (t : ℕ) → t ≤ last_instant → is_date_time (stamp t) ≡ true
unfolding stamp
is_date_time-stamp t h =
    let day = t / 86400000000 in
    let c = civil-IsCivil day (omega arith) in
    is_date_time-text (civil day).0 (civil day).1 (civil day).2 _ (omega (arith, c.year))
      (omega (arith, c.month)) (omega (arith, c.day_of_month)) (is_day-civil day (omega arith))
      (is_time-clock_text (t / 1000000 % 86400) (fraction (t % 1000000) "Z") (omega arith)
        (after_seconds-fraction (t % 1000000)))
