-- ===== src/Time.antt =====
-- Points in time. The source turns every `datetime` into UTC at once, so a `datetime` is the number
-- of microseconds since 0001-01-01T00:00:00Z. `datetime.fromisoformat` and `datetime.isoformat` are
-- an interface; what the source does with texts around them is here.
pub mod Laws
pub mod Calendar
pub mod Iso
pub mod Utc
pub mod Stamp
pub mod Rfc3339
pub mod Stamped
use Prim.Native.Char.{code}
use Prim.Native.String.{[] as nil, ◌∷◌ as cons, ◌++◌ as append}
use nlboot.Base.{
  ℕ, zero, suc, ◌+◌, ◌-◌, ◌*◌, ◌≤◌, leb, ℤ, pos, negsuc, String, ◌≡◌, Bool, true, false, Option,
  none, some, ◌&&◌, eqb, if◌then◌else◌,
}

-- What `datetime.fromisoformat` makes of a text: a `ValueError`, a reading without a time zone, a
-- point in time, or one that `astimezone` cannot bring to UTC, since the year leaves 1 to 9999.
pub data Reading : Type 0 where
  malformed : Reading
  naive : ℕ → Reading
  aware : ℕ → Reading
  out_of_range : Reading

-- The characters' codes hold no `Z`.
abbrev pub NoZulu : String → Type 0
NoZulu nil = Unit
NoZulu (cons c s) = (eqb (code c) b'Z' ≡ false) × NoZulu s

-- The text begins with a digit.
abbrev pub BeginsWithDigit : String → Type 0
BeginsWithDigit nil = ⊥
BeginsWithDigit (cons c s) = (48 ≤ code c) × (code c ≤ 57)

-- `datetime.max` in UTC, the last microsecond of the year 9999.
abbrev pub last_instant : ℕ
last_instant = 315537897599999999

-- The two functions of `datetime`, and what their documentation states of them: the format of
-- `isoformat` begins with the year and has no `Z`, and `fromisoformat` is its inverse, for times in UTC up to `last_instant`.
pub record IsoFormat : Type 0 where
  pub fromisoformat : String → Reading
  pub isoformat : ℕ → String
  pub isoformat-BeginsWithDigit : (t : ℕ) → BeginsWithDigit (isoformat t)
  pub isoformat-NoZulu : (t : ℕ) → NoZulu (isoformat t)
  pub fromisoformat-isoformat : (t : ℕ) → t ≤ last_instant → fromisoformat (isoformat t) ≡ aware t

-- `value.replace("Z", "+00:00")`
unfoldable pub zulu_to_offset : String → String
zulu_to_offset nil = nil
zulu_to_offset (cons c s) =
    let rest = zulu_to_offset s in if eqb (code c) b'Z' then append "+00:00" rest else cons c rest

-- `text` begins with `part`
abbrev pub begins_with : String → String → Bool
begins_with nil _ = true
begins_with (cons c part) nil = false
begins_with (cons c part) (cons d text) = eqb (code c) (code d) && begins_with part text

-- `value.replace("+00:00", "Z")`, with the number of characters still to be skipped
pub offset_to_zulu_from : ℕ → String → String
offset_to_zulu_from k nil = nil
offset_to_zulu_from (suc k) (cons c s) = offset_to_zulu_from k s
offset_to_zulu_from zero (cons c s) =
    let matched = cons "Z" (offset_to_zulu_from 5 s) in
    let kept = cons c (offset_to_zulu_from 0 s) in
    if begins_with "+00:00" (cons c s) then matched else kept

pub offset_to_zulu : String → String
unfolding offset_to_zulu_from
offset_to_zulu value = offset_to_zulu_from 0 value

-- `now or datetime.now(timezone.utc)`, where the clock shows `clock`
abbrev pub now_or : Option ℕ → ℕ → ℕ
now_or none clock = clock
now_or (some t) clock = t

-- `t + timedelta(seconds=s)`; `none` is the `OverflowError`.
unfoldable pub shift : ℕ → ℤ → Option ℕ
shift t (pos s) = if leb (t + s * 1000000) last_instant then some (t + s * 1000000) else none
shift t (negsuc s) = if leb ((s + 1) * 1000000) t then some (t - (s + 1) * 1000000) else none
