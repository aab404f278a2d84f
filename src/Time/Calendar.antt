-- ===== src/Time/Calendar.antt =====
-- The days of the years 1 to 9999 in the proleptic Gregorian calendar, counted from 0001-01-01, as
-- `datetime` has them. A year is counted from 0 here, so the year 1 is 0.
use Prim.Native.Nat.{◌/◌, ◌%◌, ◌-◌}
use mathlib.Core.Path.{subst, sym}
use nlboot.Base.{
  ℕ, zero, suc, ◌+◌, ◌*◌, ◌≤◌, ◌<◌, ◌≡◌, ap, ◌∙◌, Bool, not, ◌&&◌, ◌||◌, List, [], ◌∷◌, All, arith,
  leb, ltb, eqb, if◌then◌else◌, Bool-cases, inl, inr,
}

-- the days before the year
abbrev pub days_before : ℕ → ℕ
days_before y = 365 * y + y / 4 + y / 400 - y / 100

abbrev pub is_leap : ℕ → Bool
is_leap y = eqb ((y + 1) % 4) 0 && not (eqb ((y + 1) % 100) 0) || eqb ((y + 1) % 400) 0

-- the last year, from `y` on and at most `fuel` years on, whose first day is not after the day
unfoldable pub find_year : ℕ → ℕ → ℕ → ℕ
find_year zero y day = y
find_year (suc fuel) y day =
    let next = find_year fuel (y + 1) day in if leb (days_before (y + 1)) day then next else y

-- The year of a day: none has more than 366 days, and 30 years on it is found.
unfoldable pub year_of : ℕ → ℕ
unfolding find_year
year_of day = find_year 30 (day / 366) day

abbrev pub month_lengths : ℕ → List ℕ
month_lengths y =
    31 ∷ (if is_leap y then 29 else 28) ∷ 31 ∷ 30 ∷ 31 ∷ 30 ∷ 31 ∷ 31 ∷ 30 ∷ 31 ∷ 30 ∷ 31 ∷ []

-- The month and the day of the month, for the lengths of the months from month `m` on.
unfoldable pub month_day : List ℕ → ℕ → ℕ → ℕ × ℕ
month_day [] m day = (m, day + 1)
month_day (l ∷ ls) m day =
    let next = month_day ls (m + 1) (day - l) in if ltb day l then (m, day + 1) else next

-- the days of the first months
pub days_of : List ℕ → ℕ → ℕ
days_of ls zero = 0
days_of [] (suc n) = 0
days_of (l ∷ ls) (suc n) = l + days_of ls n

-- the length of a month, counted from 0
unfoldable pub nth : List ℕ → ℕ → ℕ
nth [] n = 0
nth (l ∷ ls) zero = l
nth (l ∷ ls) (suc n) = nth ls n

pub total : List ℕ → ℕ
total [] = 0
total (l ∷ ls) = l + total ls

find_year-bounds :
    (fuel y day : ℕ)
    → days_before y ≤ day
    → day < days_before (y + fuel)
    → (days_before (find_year fuel y day) ≤ day) × (day < days_before (find_year fuel y day + 1))
unfolding find_year
find_year-bounds zero y day low high = absurd (omega arith)
find_year-bounds (suc fuel) y day low high = elim (Bool-cases (leb (days_before (y + 1)) day)) [
  | inl e ↦ rw e (find_year-bounds fuel (y + 1) day (ground arith) (omega arith))
  | inr e ↦ rw e (low, ground arith)
]

-- Up to the last day of the year 9999, the year is found.
pub year_of-bounds :
    (day : ℕ)
    → day < 3652059
    → (days_before (year_of day) ≤ day) × (day < days_before (year_of day + 1))
unfolding year_of
year_of-bounds day h = find_year-bounds 30 (day / 366) day (omega arith) (omega arith)

-- A year has 365 days, or 366 if it is a leap year.
days_before-suc : (y : ℕ) → days_before (y + 1) ≡ days_before y + (if is_leap y then 366 else 365)
days_before-suc y = ground arith

total-month_lengths : (y : ℕ) → total (month_lengths y) ≡ (if is_leap y then 366 else 365)
unfolding total
total-month_lengths y = ground arith

short_months : (y : ℕ) → All (λ l. l ≤ 31) (month_lengths y)
short_months y = ground arith

pub count : List ℕ → ℕ
count [] = 0
count (l ∷ ls) = suc (count ls)

-- The month and the day give the day of the year again.
pub record IsDate (ls : List ℕ) (m day : ℕ) (date : ℕ × ℕ) : Type 0 where
  pub months : ℕ
  pub month : date.0 ≡ m + months
  pub days : days_of ls months + date.1 ≡ day + 1
  pub few : months < count ls
  pub first : 1 ≤ date.1
  pub last : date.1 ≤ 31
  pub fits : date.1 ≤ nth ls months

month_day-IsDate :
    (ls : List ℕ) (m day : ℕ)
    → All (λ l. l ≤ 31) ls
    → day < total ls
    → IsDate ls m day (month_day ls m day)
unfolding total month_day days_of count nth
month_day-IsDate [] m day short h = absurd (omega arith)
month_day-IsDate (l ∷ ls) m day (le, short) h = elim (Bool-cases (ltb day l)) [
  | inl e ↦ rw e (record {
    months = 0;
    month = omega arith;
    days = omega arith;
    few = omega arith;
    first = omega arith;
    last = ground arith;
    fits = ground arith;
  })
  | inr e ↦
      let c = month_day-IsDate ls (m + 1) (day - l) short (ground arith) in
      let enough : l ≤ day = ground arith in
      rw e (record {
        months = suc c.months;
        month = omega arith;
        days = omega arith;
        few = omega arith;
        first = c.first;
        last = c.last;
        fits = c.fits;
      })
]

-- The year, month and day of a day; the year 1 is 1.
unfoldable pub civil : ℕ → ℕ × ℕ × ℕ
civil day =
    let y = year_of day in
    let (m, d) = month_day (month_lengths y) 1 (day - days_before y) in (y + 1, m, d)

-- The day of a year, a month and a day of the month.
unfoldable pub day_of : ℕ → ℕ → ℕ → ℕ
unfolding days_of
day_of year m d = days_before (year - 1) + days_of (month_lengths (year - 1)) (m - 1) + (d - 1)

day_of-IsDate :
    (y day : ℕ) (date : ℕ × ℕ)
    → days_before y ≤ day
    → IsDate (month_lengths y) 1 (day - days_before y) date
    → day_of (y + 1) date.0 date.1 ≡ day
unfolding day_of
day_of-IsDate y day date low c =
    let same_year : y + 1 - 1 ≡ y = omega arith in
    let months : date.0 - 1 ≡ c.months = omega (arith, c.month) in
    ap (λ z. days_before z + days_of (month_lengths z) (date.0 - 1) + (date.1 - 1)) same_year
    ∙ ap (λ n. days_before y + days_of (month_lengths y) n + (date.1 - 1)) months
    ∙ omega (arith, c.days, c.first)

-- the date of a day of the years 1 to 9999, with what `day_of` makes of it
pub record IsCivil (day : ℕ) (date : ℕ × ℕ × ℕ) : Type 0 where
  pub day_again : day_of date.0 date.1 date.2 ≡ day
  pub year : date.0 ≤ 9999
  pub month : date.1 ≤ 12
  pub first_month : 1 ≤ date.1
  pub day_of_month : date.2 ≤ 31
  pub first_day : 1 ≤ date.2
  pub fits : date.2 ≤ nth (month_lengths (date.0 - 1)) (date.1 - 1)

fits_again :
    (y day : ℕ) (date : ℕ × ℕ)
    → IsDate (month_lengths y) 1 (day - days_before y) date
    → date.1 ≤ nth (month_lengths (y + 1 - 1)) (date.0 - 1)
fits_again y day date c =
    let same_year : y + 1 - 1 ≡ y = omega arith in
    let months : date.0 - 1 ≡ c.months = omega (arith, c.month) in
    subst (λ z. date.1 ≤ nth (month_lengths z) (date.0 - 1)) (sym same_year)
      (subst (λ n. date.1 ≤ nth (month_lengths y) n) (sym months) c.fits)

-- The date of a month and a day in a year that has the day.
IsDate-IsCivil :
    (y day : ℕ) (date : ℕ × ℕ)
    → days_before y ≤ day
    → day < days_before (y + 1)
    → day < 3652059
    → IsDate (month_lengths y) 1 (day - days_before y) date
    → IsCivil day (y + 1, date.0, date.1)
unfolding count
IsDate-IsCivil y day date low high h c = record {
  day_again = day_of-IsDate y day date low c;
  year = omega arith;
  month = omega (arith, c.month, c.few);
  first_month = omega (arith, c.month);
  day_of_month = c.last;
  first_day = c.first;
  fits = fits_again y day date c;
}

-- The date gives the day again.
pub civil-IsCivil : (day : ℕ) → day < 3652059 → IsCivil day (civil day)
unfolding civil
civil-IsCivil day h =
    let (low, high) = year_of-bounds day h in
    let inside : day - days_before (year_of day) < total (month_lengths (year_of day)) =
      omega (arith, days_before-suc (year_of day), total-month_lengths (year_of day)) in
    IsDate-IsCivil (year_of day) day _ low high h
      (month_day-IsDate (month_lengths (year_of day)) 1 _ (short_months (year_of day)) inside)
