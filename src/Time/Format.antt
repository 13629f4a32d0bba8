-- ===== src/Time/Format.antt =====
-- `Time.Format` at the two layouts of the program, and the distance of two times.
use Prim.Native.String.{slice}
use gpbackman.Base.{ℕ, zero, suc, ◌+◌, ◌-◌, ◌*◌, ◌/◌, ◌%◌, String, ◌<>◌}
use gpbackman.Time.{Time, digit_char, days_in}

-- `appendInt(b, n, 2)` and `appendInt(b, n, 4)` in front of a text, for numbers of that width.
abbrev pub two_digits : ℕ → String → String
two_digits n rest = String.◌∷◌ (digit_char (n / 10)) (String.◌∷◌ (digit_char (n % 10)) rest)

abbrev pub four_digits : ℕ → String → String
four_digits n rest = two_digits (n / 100) (two_digits (n % 100) rest)

-- t.Format("20060102150405")
unfoldable pub format_layout : Time → String
format_layout t = four_digits t.year (
    two_digits t.month
      (two_digits t.day (two_digits t.hour (two_digits t.minute (two_digits t.second "")))))

unfoldable pub days_before_month : ℕ → ℕ → ℕ
unfolding days_in
days_before_month zero year = 0
days_before_month (suc m) year = days_before_month m year + days_in (suc m) year

-- The days since 0000-01-01, a Saturday.
unfoldable pub day_number : Time → ℕ
unfolding days_before_month
day_number t =
    365 * t.year
    + (t.year + 3) / 4
    - (t.year + 99) / 100
    + (t.year + 399) / 400
    + days_before_month (t.month - 1) t.year
    + (t.day - 1)

unfoldable pub weekday_name : ℕ → String
weekday_name n = slice "SunMonTueWedThuFriSat" (3 * n) (3 * n + 3)

month_name : ℕ → String
month_name n = slice "JanFebMarAprMayJunJulAugSepOctNovDec" (3 * (n - 1)) (3 * n)

-- t.Format("Mon Jan 02 2006 15:04:05")
unfoldable pub format_date : Time → String
unfolding day_number weekday_name month_name
format_date t =
    weekday_name ((day_number t + 6) % 7)
    <> " "
    <> month_name t.month
    <> " "
    <> two_digits t.day (
        " "
        <> four_digits t.year
            (" " <> two_digits t.hour (":" <> two_digits t.minute (":" <> two_digits t.second ""))))

-- Nanoseconds since 0000-01-01.
unfoldable pub nanoseconds : Time → ℕ
unfolding day_number
nanoseconds t =
    (((day_number t * 24 + t.hour) * 60 + t.minute) * 60 + t.second) * 1000000000 + t.nanosecond
