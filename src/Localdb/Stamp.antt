-- ===== src/Localdb/Stamp.antt =====
-- `t.UTC().Format(time.RFC3339Nano)` for the years up to 9999: date and time to the second, then the
-- fraction without its trailing zeros, or none, and `Z`.
use codex_tempo.Common.{
  ℕ, zero, suc, ◌+◌, ◌-◌, ◌*◌, ◌/◌, ◌%◌, [], ◌∷◌, ◌++◌, ltb, leb, ◌==◌, if◌then◌else◌,
}
use codex_tempo.Common.Text.{Text, codes}

abbrev pub second : ℕ
second = 1000000000

-- The last `n` decimal digits.
unfoldable pub digits : ℕ → ℕ → Text
digits zero x = []
digits (suc n) x = digits n (x / 10) ++ (48 + x % 10) ∷ []

-- Days since 0001-01-01 to year, month and day, by eras of 400 years that begin in March.
unfoldable pub date : ℕ → Text
unfolding digits
date days =
    let z = days + 306 in
    let doe = z % 146097 in
    let yoe = (doe - doe / 1460 + doe / 36524 - doe / 146096) / 365 in
    let doy = doe - (365 * yoe + yoe / 4 - yoe / 100) in
    let mp = (5 * doy + 2) / 153 in
    let day = doy - (153 * mp + 2) / 5 + 1 in
    let month = if ltb mp 10 then mp + 3 else mp - 9 in
    let year = yoe + 400 * (z / 146097) + (if leb month 2 then 1 else 0) in
    digits 4 year ++ 45 ∷ digits 2 month ++ 45 ∷ digits 2 day

unfoldable pub seconds_text : ℕ → Text
unfolding date
seconds_text s =
    let clock = s % 86400 in
    date (s / 86400)
    ++ 84 ∷ digits 2 (clock / 3600)
    ++ 58 ∷ digits 2 (clock / 60 % 60)
    ++ 58 ∷ digits 2 (clock % 60)

-- `n` digits of a fraction, less the zeros at its end.
unfoldable pub trim_fraction : ℕ → ℕ → Text
unfolding digits
trim_fraction zero x = []
trim_fraction (suc n) x =
    let shorter = trim_fraction n (x / 10) in if x % 10 == 0 then shorter else digits (suc n) x

unfoldable pub fraction_text : ℕ → Text
unfolding trim_fraction
fraction_text f = if f == 0 then codes "Z" else 46 ∷ trim_fraction 9 f ++ codes "Z"

unfoldable pub format_time : ℕ → Text
unfolding seconds_text fraction_text
format_time t = seconds_text (t / second) ++ fraction_text (t % second)
