-- ===== src/Time/Iso.antt =====
-- `datetime.isoformat` for times in UTC.
use Prim.Native.Nat.{◌/◌, ◌%◌}
use Prim.Native.Char.{Char, code}
use Prim.Native.String.{◌∷◌ as cons}
use nlboot.Base.{
  ℕ, ◌+◌, String, ◌≡◌, refl, true, false, arith, eqb, if◌then◌else◌, Bool-cases, inl, inr,
}
use nlboot.Hex.{hex_digit}
use nlboot.Hex.Laws.{passes_below, passed}
use nlboot.Time.{NoZulu, BeginsWithDigit}
use nlboot.Time.Calendar.{civil}

-- the last decimal digit of a number
unfoldable pub decimal : ℕ → Char
decimal n = hex_digit (n % 10)

-- a number in two, four or six digits, in front of a text
abbrev pub two : ℕ → String → String
two n rest = cons (decimal (n / 10)) (cons (decimal n) rest)

abbrev pub four : ℕ → String → String
four n rest = two (n / 100) (two n rest)

abbrev pub six : ℕ → String → String
six n rest = two (n / 10000) (four n rest)

abbrev pub fraction : ℕ → String → String
fraction us rest = if eqb us 0 then rest else cons "." (six us rest)

abbrev pub clock_text : ℕ → String → String
clock_text s rest = two (s / 3600) (cons ":" (two (s / 60 % 60) (cons ":" (two (s % 60) rest))))

-- `datetime.isoformat`, for a time in UTC
unfoldable pub isoformat : ℕ → String
isoformat t =
    let (y, m, d) = civil (t / 86400000000) in
    four y (
      cons "-" (
        two m (
          cons "-" (
            two d
              (cons "T" (clock_text (t / 1000000 % 86400) (fraction (t % 1000000) "+00:00")))))))

digit_table : passes_below (λ n. eqb (code (hex_digit n)) (48 + n)) 10 ≡ true
unfolding passes_below hex_digit
digit_table = refl

pub code-decimal : (n : ℕ) → code (decimal n) ≡ 48 + n % 10
unfolding decimal
code-decimal n =
    let t = passed (λ n. eqb (code (hex_digit n)) (48 + n)) 10 (n % 10) (omega arith) digit_table in
    ground arith

decimal_not_zulu : (n : ℕ) → eqb (code (decimal n)) b'Z' ≡ false
decimal_not_zulu n = let e = code-decimal n in ground arith

NoZulu-two : (n : ℕ) (rest : String) → NoZulu rest → NoZulu (two n rest)
NoZulu-two n rest h = (decimal_not_zulu (n / 10), (decimal_not_zulu n, h))

NoZulu-mark :
    (n : ℕ) (mark : Char) (rest : String)
    → eqb (code mark) b'Z' ≡ false
    → NoZulu rest
    → NoZulu (two n (cons mark rest))
NoZulu-mark n mark rest e h = NoZulu-two n (cons mark rest) (e, h)

NoZulu-offset : NoZulu "+00:00"
NoZulu-offset = (refl, (refl, (refl, (refl, (refl, (refl, tt))))))

NoZulu-fraction : (us : ℕ) → NoZulu (fraction us "+00:00")
NoZulu-fraction us = elim (Bool-cases (eqb us 0)) [
  | inl e ↦ rw e NoZulu-offset
  | inr e ↦ rw e (
    refl,
    NoZulu-two (us / 10000) (four us "+00:00")
        (NoZulu-two (us / 100) (two us "+00:00") (NoZulu-two us "+00:00" NoZulu-offset)),
  )
]

pub isoformat-NoZulu : (t : ℕ) → NoZulu (isoformat t)
unfolding isoformat
isoformat-NoZulu t =
    let date = civil (t / 86400000000) in
    let s = t / 1000000 % 86400 in
    let parts = fraction (t % 1000000) "+00:00" in
    let seconds = two (s % 60) parts in
    let minutes = two (s / 60 % 60) (cons ":" seconds) in
    let hours = two (s / 3600) (cons ":" minutes) in
    let days = two date.2 (cons "T" hours) in
    let months = two date.1 (cons "-" days) in
    NoZulu-two (date.0 / 100) (two date.0 (cons "-" months)) (
      NoZulu-mark date.0 "-" months refl (
        NoZulu-mark date.1 "-" days refl (
          NoZulu-mark date.2 "T" hours refl (
            NoZulu-mark (s / 3600) ":" minutes refl (
              NoZulu-mark (s / 60 % 60) ":" seconds refl
                (NoZulu-two (s % 60) parts (NoZulu-fraction (t % 1000000))))))))

pub isoformat-BeginsWithDigit : (t : ℕ) → BeginsWithDigit (isoformat t)
unfolding isoformat
isoformat-BeginsWithDigit t =
    let e = code-decimal ((civil (t / 86400000000)).0 / 100 / 10) in (omega arith, omega arith)
