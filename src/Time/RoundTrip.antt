-- ===== src/Time/RoundTrip.antt =====
-- Printing a time at the layout of timestamps, and reading it.
use gpbackman.Base.{
  ℕ, ◌/◌, ◌%◌, ◌≤◌, ◌<◌, ◌≡◌, refl, ap, String, true, ◌&&◌, some, arith, nat_eq, all_below,
  all_below_sound, le→leb, lt→ltb,
}
use gpbackman.Go.Result.{ok}
use gpbackman.Time.{
  Time, is_digit, digit_value, digit_char, days_in, read_year, read_two, read_one_or_two,
}
use gpbackman.Time.Parse.{parse, read_fraction, finish}
use gpbackman.Time.Format.{two_digits, four_digits, format_layout}

-- The parts of a time are in range, and its year has four digits.
pub record IsValid (t : Time) : Type 0 where
  pub year_fits : t.year < 10000
  pub month_from : 1 ≤ t.month
  pub month_to : t.month ≤ 12
  pub day_from : 1 ≤ t.day
  pub day_to : t.day ≤ days_in t.month t.year
  pub hour_fits : t.hour < 24
  pub minute_fits : t.minute < 60
  pub second_fits : t.second < 60

digit_table :
    all_below 10 (λ d. is_digit (digit_char d) && nat_eq (digit_value (digit_char d)) d) ≡ true
unfolding all_below is_digit
digit_table = refl

pub is_digit-digit_char : (d : ℕ) → d < 10 → is_digit (digit_char d) ≡ true
is_digit-digit_char d h = ground (arith, all_below_sound 10 _ d digit_table h)

digit_value-digit_char : (d : ℕ) → d < 10 → digit_value (digit_char d) ≡ d
digit_value-digit_char d h = ground (arith, all_below_sound 10 _ d digit_table h)

pub days_in-le : (month year : ℕ) → days_in month year ≤ 31
unfolding days_in
days_in-le month year = ground arith

read_two-two_digits :
    (n : ℕ) (rest : String) → n < 100 → read_two (two_digits n rest) ≡ some (n, rest)
unfolding read_two
read_two-two_digits n rest h =
    rw
      (
        is_digit-digit_char (n / 10) (omega arith),
        is_digit-digit_char (n % 10) (omega arith),
        digit_value-digit_char (n / 10) (omega arith),
        digit_value-digit_char (n % 10) (omega arith),
      )
      (ap (λ k. some (k, rest)) (omega arith))

read_one_or_two-two_digits :
    (n : ℕ) (rest : String) → n < 100 → read_one_or_two (two_digits n rest) ≡ some (n, rest)
unfolding read_one_or_two
read_one_or_two-two_digits n rest h =
    rw
      (
        is_digit-digit_char (n / 10) (omega arith),
        is_digit-digit_char (n % 10) (omega arith),
        digit_value-digit_char (n / 10) (omega arith),
        digit_value-digit_char (n % 10) (omega arith),
      )
      (ap (λ k. some (k, rest)) (omega arith))

read_year-four_digits :
    (n : ℕ) (rest : String) → n < 10000 → read_year (four_digits n rest) ≡ some (n, rest)
unfolding read_year
read_year-four_digits n rest h =
    rw
      (
        is_digit-digit_char (n / 100 / 10) (omega arith),
        is_digit-digit_char (n / 100 % 10) (omega arith),
        is_digit-digit_char (n % 100 / 10) (omega arith),
        is_digit-digit_char (n % 100 % 10) (omega arith),
        digit_value-digit_char (n / 100 / 10) (omega arith),
        digit_value-digit_char (n / 100 % 10) (omega arith),
        digit_value-digit_char (n % 100 / 10) (omega arith),
        digit_value-digit_char (n % 100 % 10) (omega arith),
      )
      (ap (λ k. some (k, rest)) (omega arith))

finish_whole :
    (value : String) (t : Time)
    → IsValid t
    → finish value (record t { nanosecond = (read_fraction "").0 }) (read_fraction "").1
      ≡ ok (record t { nanosecond = 0 })
unfolding finish read_fraction
finish_whole value t v = rw (le→leb 1 t.day v.day_from, le→leb t.day _ v.day_to) refl

-- What `Format` prints at the layout of timestamps, `Parse` reads back as the same time, less its
-- fraction of a second, for every valid time of a four-digit year.
pub parse-format_layout :
    (t : Time) → IsValid t → parse (format_layout t) ≡ ok (record t { nanosecond = 0 })
unfolding parse format_layout
parse-format_layout t v =
    rw
      (
        read_year-four_digits t.year _ v.year_fits,
        read_two-two_digits t.month _ (omega arith),
        le→leb 1 t.month v.month_from,
        le→leb t.month 12 v.month_to,
        read_two-two_digits t.day _ (omega (arith, days_in-le t.month t.year)),
        read_one_or_two-two_digits t.hour _ (omega arith),
        lt→ltb t.hour 24 v.hour_fits,
        read_two-two_digits t.minute _ (omega arith),
        lt→ltb t.minute 60 v.minute_fits,
        read_two-two_digits t.second _ (omega arith),
        lt→ltb t.second 60 v.second_fits,
      )
      (finish_whole _ t v)
