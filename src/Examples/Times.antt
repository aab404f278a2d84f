-- ===== src/Examples/Times.antt =====
-- Times in the format of Python's `datetime`.
use nlboot.Base.{◌≡◌, refl, ok, arith}
use nlboot.Time.{last_instant}
use nlboot.Time.Iso.{isoformat}
use nlboot.Time.Utc.{utc_format}
use nlboot.Time.Stamp.{stamp}
use nlboot.Device.{parse_time, zulu_time}
use nlboot.Device.Stamps.{zulu_time_stamps}

-- 29 February 2024, 12:34:56.789
leap_day : isoformat 63844806896789000 ≡ "2024-02-29T12:34:56.789000+00:00"
unfolding isoformat nlboot.Time.Iso.decimal nlboot.Time.Calendar.civil nlboot.Time.Calendar.year_of
    nlboot.Time.Calendar.find_year nlboot.Time.Calendar.month_day nlboot.Hex.hex_digit
leap_day = refl

last_text : isoformat last_instant ≡ "9999-12-31T23:59:59.999999+00:00"
unfolding isoformat nlboot.Time.Iso.decimal nlboot.Time.Calendar.civil nlboot.Time.Calendar.year_of
    nlboot.Time.Calendar.find_year nlboot.Time.Calendar.month_day nlboot.Hex.hex_digit
last_text = refl

first_text : stamp 0 ≡ "0001-01-01T00:00:00Z"
unfolding stamp nlboot.Time.Iso.decimal nlboot.Time.Calendar.civil nlboot.Time.Calendar.year_of
    nlboot.Time.Calendar.find_year nlboot.Time.Calendar.month_day nlboot.Hex.hex_digit
first_text = refl

zulu_time_stamps_example :
    (zulu_time utc_format 63844806896789000 ≡ stamp 63844806896789000)
    × (parse_time utc_format (zulu_time utc_format 63844806896789000) "claimed_at"
        ≡ ok 63844806896789000)
zulu_time_stamps_example = zulu_time_stamps 63844806896789000 "claimed_at" (omega arith)
