-- ===== src/Time/Rfc3339.antt =====
-- The format "date-time" of JSON Schema, that of RFC 3339: a full date and a full time, with the
-- ranges of their parts, an optional fraction of any length, and `Z` or an offset.
use Prim.Native.Nat.{◌-◌}
use Prim.Native.Char.{code}
use Prim.Native.String.{[] as nil, ◌∷◌ as cons}
use nlboot.Base.{ℕ, ◌+◌, ◌*◌, String, Bool, true, false, ◌&&◌, ◌||◌, leb, eqb, if◌then◌else◌}
use nlboot.Time.Calendar.{month_lengths, nth}

abbrev pub is_decimal : ℕ → Bool
is_decimal n = leb 48 n && leb n 57

-- two digits, and a test of their number and of what follows
unfoldable pub two_digits : (ℕ → String → Bool) → String → Bool
two_digits test (cons a (cons b rest)) =
    is_decimal (code a) && is_decimal (code b) && test ((code a - 48) * 10 + (code b - 48)) rest
two_digits test _ = false

-- one of two characters, and a test of what follows
unfoldable pub mark : ℕ → ℕ → (String → Bool) → String → Bool
mark upper lower test (cons c rest) = (eqb (code c) upper || eqb (code c) lower) && test rest
mark upper lower test nil = false

abbrev pub is_end : String → Bool
is_end nil = true
is_end (cons c s) = false

-- `±hh:mm`
unfoldable pub is_offset : String → Bool
unfolding two_digits mark
is_offset = mark 43 45 (
    two_digits
      λ hour. mark 58 58 (two_digits λ minute rest. leb hour 23 && leb minute 59 && is_end rest))

unfoldable pub is_zone : String → Bool
unfolding mark is_offset
is_zone s = mark 90 122 is_end s || is_offset s

-- the rest of a fraction, and the zone
unfoldable pub is_fraction : String → Bool
unfolding is_zone
is_fraction nil = false
is_fraction (cons c s) = if is_decimal (code c) then is_fraction s else is_zone (cons c s)

-- the fraction, if there is one, and the zone
unfoldable pub after_seconds : String → Bool
unfolding is_fraction is_zone
after_seconds nil = false
after_seconds (cons point nil) = is_zone (cons point nil)
after_seconds (cons point (cons c s)) =
    if eqb (code point) 46
    then is_decimal (code c) && is_fraction s
    else is_zone (cons point (cons c s))

-- the parts of a time of day, one after the other
unfoldable pub at_second : ℕ → ℕ → ℕ → String → Bool
unfolding after_seconds
at_second hour minute second rest =
    leb hour 23 && leb minute 59 && leb second 60 && after_seconds rest

abbrev pub at_minute : ℕ → ℕ → String → Bool
at_minute hour minute = mark 58 58 (two_digits (at_second hour minute))

abbrev pub at_hour : ℕ → String → Bool
at_hour hour = mark 58 58 (two_digits (at_minute hour))

abbrev pub is_time : String → Bool
is_time = two_digits at_hour

-- the month and the day of a year
unfoldable pub is_day : ℕ → ℕ → ℕ → Bool
unfolding nth
is_day year month day =
    leb 1 month && leb month 12 && leb 1 day && leb day (nth (month_lengths (year - 1)) (month - 1))

-- the parts of a date, one after the other
unfoldable pub at_day : ℕ → ℕ → ℕ → String → Bool
unfolding is_day at_second two_digits mark
at_day year month day rest = is_day year month day && mark 84 116 is_time rest

abbrev pub at_month : ℕ → ℕ → String → Bool
at_month year month = mark 45 45 (two_digits (at_day year month))

abbrev pub at_year : ℕ → ℕ → String → Bool
at_year century years = mark 45 45 (two_digits (at_month (century * 100 + years)))

unfoldable pub is_date_time : String → Bool
unfolding at_day two_digits mark
is_date_time = two_digits λ century. two_digits (at_year century)
