-- ===== src/Device/Stamps.antt =====
-- The times that device.py writes and reads, in the format of Python's `datetime`.
use nlboot.Base.{ℕ, ◌≤◌, String, ◌≡◌, ap, ok}
use nlboot.Time.{last_instant}
use nlboot.Time.Laws.{fromisoformat-zulu}
use nlboot.Time.Utc.{utc_format}
use nlboot.Time.Stamp.{stamp, offset_to_zulu-isoformat}
use nlboot.Device.{utc_of, parse_time, zulu_time}

-- In the format of Python's `datetime`, the text that device.py writes for a time up to the year
-- 9999 is its date and its time of day, with the microseconds where there are any, and a `Z` in
-- place of the offset; and `_parse_time` reads that text as the same time.
pub zulu_time_stamps :
    (t : ℕ) (key : String)
    → t ≤ last_instant
    → (zulu_time utc_format t ≡ stamp t)
      × (parse_time utc_format (zulu_time utc_format t) key ≡ ok t)
unfolding zulu_time parse_time
zulu_time_stamps t key h =
    (offset_to_zulu-isoformat t, ap (λ r. utc_of r key) (fromisoformat-zulu utc_format t h))
