-- ===== src/Time/Utc.antt =====
-- A reader of exactly the texts that `datetime.isoformat` writes for times in UTC. Python's
-- `fromisoformat` reads other formats too, so the reader is an instance of the interface only.
use Prim.Native.Nat.{◌/◌, ◌%◌, ◌-◌}
use Prim.Native.Char.{code}
use Prim.Native.String.{[] as nil, ◌∷◌ as cons}
use nlboot.Base.{
  ℕ, zero, suc, ◌+◌, ◌*◌, ◌≤◌, ◌<◌, String, ◌≡◌, ap, ◌∙◌, arith, eqb, ◌==◌, eq_refl, if◌then◌else◌,
  Bool-cases, inl, inr,
}
use nlboot.Time.{Reading, aware, malformed, IsoFormat, last_instant}
use nlboot.Time.Calendar.{civil, day_of, civil-IsCivil}
use nlboot.Time.Iso.{
  decimal, code-decimal, two, four, six, fraction, clock_text, isoformat, isoformat-NoZulu,
  isoformat-BeginsWithDigit,
}

-- the number in the first digits, after the number `n` so far, and what follows
read_number : ℕ → ℕ → String → ℕ × String
read_number zero n s = (n, s)
read_number (suc k) n nil = (n, nil)
read_number (suc k) n (cons c s) = read_number k (n * 10 + (code c - 48)) s

tail : String → String
tail nil = nil
tail (cons c s) = s

read_fraction : String → ℕ
unfolding read_number
read_fraction nil = 0
read_fraction (cons c s) = if eqb (code c) 46 then (read_number 6 0 s).0 else 0

-- The parts of a text of the format, one after the other, each with what follows it.
at_second : ℕ → ℕ → ℕ × String → ℕ
at_second day minutes (second, s) =
    day * 86400000000 + (minutes * 60 + second) * 1000000 + read_fraction s

at_minute : ℕ → ℕ → ℕ × String → ℕ
at_minute day hour (minute, s) = at_second day (hour * 60 + minute) (read_number 2 0 (tail s))

at_hour : ℕ → ℕ × String → ℕ
at_hour day (hour, s) = at_minute day hour (read_number 2 0 (tail s))

at_day : ℕ → ℕ → ℕ × String → ℕ
at_day y m (d, s) = at_hour (day_of y m d) (read_number 2 0 (tail s))

at_month : ℕ → ℕ × String → ℕ
at_month y (m, s) = at_day y m (read_number 2 0 (tail s))

at_year : ℕ × String → ℕ
at_year (y, s) = at_month y (read_number 2 0 (tail s))

-- the time in a text of the format
read_instant : String → ℕ
unfolding at_year
read_instant s = at_year (read_number 4 0 s)

pub read_utc : String → Reading
unfolding read_instant
read_utc s = let t = read_instant s in if isoformat t == s then aware t else malformed

read_two : (n : ℕ) (rest : String) → n < 100 → read_number 2 0 (two n rest) ≡ (n, rest)
unfolding read_number
read_two n rest h =
    let e : (0 * 10 + (code (decimal (n / 10)) - 48)) * 10 + (code (decimal n) - 48) ≡ n =
      omega (arith, code-decimal (n / 10), code-decimal n) in
    ap (λ k. (k, rest)) e

read_four : (n : ℕ) (rest : String) → n < 10000 → read_number 4 0 (four n rest) ≡ (n, rest)
unfolding read_number
read_four n rest h =
    ap (λ k. (k, rest))
      (omega (
        arith,
        code-decimal (n / 100 / 10),
        code-decimal (n / 100),
        code-decimal (n / 10),
        code-decimal n,
      ))

read_six : (n : ℕ) (rest : String) → n < 1000000 → (read_number 6 0 (six n rest)).0 ≡ n
unfolding read_number
read_six n rest h = omega (
  arith,
  code-decimal (n / 10000 / 10),
  code-decimal (n / 10000),
  code-decimal (n / 100 / 10),
  code-decimal (n / 100),
  code-decimal (n / 10),
  code-decimal n,
)

read_fraction-fraction : (us : ℕ) → us < 1000000 → read_fraction (fraction us "+00:00") ≡ us
unfolding read_fraction
read_fraction-fraction us h = elim (Bool-cases (eqb us 0)) [
  | inl e ↦ rw e (ground arith)
  | inr e ↦ rw e (read_six us "+00:00" h)
]

-- What is read of a date, a second of the day and a microsecond.
read_instant-text :
    (y m d s us : ℕ)
    → y < 10000
    → m < 100
    → d < 100
    → s < 86400
    → us < 1000000
    → read_instant (
        four y
          (cons "-" (two m (cons "-" (two d (cons "T" (clock_text s (fraction us "+00:00"))))))))
      ≡ day_of y m d * 86400000000 + s * 1000000 + us
unfolding read_instant tail at_year at_month at_day at_hour at_minute at_second
read_instant-text y m d s us hy hm hd hs hus =
    ap at_year (read_four y _ hy)
    ∙ ap (at_month y) (read_two m _ hm)
    ∙ ap (at_day y m) (read_two d _ hd)
    ∙ ap (at_hour (day_of y m d)) (read_two (s / 3600) _ (omega arith))
    ∙ ap (at_minute (day_of y m d) (s / 3600)) (read_two (s / 60 % 60) _ (omega arith))
    ∙ ap (at_second (day_of y m d) (s / 3600 * 60 + s / 60 % 60))
        (read_two (s % 60) _ (omega arith))
    ∙ omega (arith, read_fraction-fraction us hus)

-- The time is read from its text.
read_instant-isoformat : (t : ℕ) → t ≤ last_instant → read_instant (isoformat t) ≡ t
unfolding isoformat
read_instant-isoformat t h =
    let c = civil-IsCivil (t / 86400000000) (omega arith) in
    let date = civil (t / 86400000000) in
    read_instant-text date.0 date.1 date.2 (t / 1000000 % 86400) (t % 1000000)
      (omega (arith, c.year)) (omega (arith, c.month)) (omega (arith, c.day_of_month)) (omega arith)
      (omega arith)
    ∙ ap (λ n. n * 86400000000 + t / 1000000 % 86400 * 1000000 + t % 1000000) c.day_again
    ∙ omega arith

-- x
pub read_utc-isoformat : (t : ℕ) → t ≤ last_instant → read_utc (isoformat t) ≡ aware t
unfolding read_utc
read_utc-isoformat t h = rw (read_instant-isoformat t h, eq_refl (isoformat t))

-- An instance of the interface with the texts that Python writes.
abbrev pub utc_format : IsoFormat
utc_format = record {
  fromisoformat = read_utc;
  isoformat = isoformat;
  isoformat-BeginsWithDigit = isoformat-BeginsWithDigit;
  isoformat-NoZulu = isoformat-NoZulu;
  fromisoformat-isoformat = read_utc-isoformat;
}
