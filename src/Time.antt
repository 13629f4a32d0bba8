-- ===== src/Time.antt =====
-- Go's `time` package as far as the program uses it: `time.Parse` at the layout of timestamps,
-- `Time.Format` at that layout and at the layout of dates, and `Time.Sub`.

pub mod Parse
pub mod Format
pub mod RoundTrip
pub mod Plain
pub mod Dates
use Prim.Native.Char.{Char, code}
use Prim.Native.String.{char_at}
use gpbackman.Base.{
  ℕ, ◌+◌, ◌-◌, ◌*◌, ◌%◌, String, ◌<>◌, Bool, true, ◌&&◌, ◌||◌, Option, none, some, if◌then◌else◌,
  leb, nat_eq,
}
use gpbackman.Go.Result.{Error, error_new}

-- A `time.Time` in UTC, by its parts.
pub record Time : Type 0 where
  pub year : ℕ
  pub month : ℕ
  pub day : ℕ
  pub hour : ℕ
  pub minute : ℕ
  pub second : ℕ
  pub nanosecond : ℕ

unfoldable pub is_digit : Char → Bool
is_digit c = leb 48 (code c) && leb (code c) 57

abbrev pub digit_value : Char → ℕ
digit_value c = code c - 48

abbrev pub digit_char : ℕ → Char
digit_char d = char_at "0123456789" d

abbrev pub is_leap : ℕ → Bool
is_leap y = nat_eq (y % 4) 0 && (if nat_eq (y % 100) 0 then nat_eq (y % 400) 0 else true)

unfoldable pub days_in : ℕ → ℕ → ℕ
days_in month year =
    if nat_eq month 2
    then (if is_leap year then 29 else 28)
    else if nat_eq month 4 || (nat_eq month 6 || (nat_eq month 9 || nat_eq month 11))
    then 30
    else 31

-- The text that stands in front of every `ParseError`.
abbrev pub parsing : String → String
parsing value = "parsing time \"" <> value <> "\""

abbrev pub layout_text : String
layout_text = "20060102150405"

abbrev pub cannot_parse : String → String → String → Error
cannot_parse value rest element = error_new (
    parsing value
    <> " as \""
    <> layout_text
    <> "\": cannot parse \""
    <> rest
    <> "\" as \""
    <> element
    <> "\"")

abbrev pub out_of_range : String → String → Error
out_of_range value part = error_new (parsing value <> ": " <> part <> " out of range")

-- A number that is read off the front of a text, with the rest.
abbrev pub Reading : Type 0
Reading = Option (ℕ × String)

-- `atoi` of the four bytes of a year.
unfoldable pub read_year : String → Reading
unfolding is_digit
read_year (String.◌∷◌ a (String.◌∷◌ b (String.◌∷◌ c (String.◌∷◌ d rest)))) =
    if is_digit a && (is_digit b && (is_digit c && is_digit d))
    then some
        (digit_value a * 1000 + digit_value b * 100 + digit_value c * 10 + digit_value d, rest)
    else none
read_year _ = none

-- `getnum(value, true)`: exactly two digits.
unfoldable pub read_two : String → Reading
unfolding is_digit
read_two (String.◌∷◌ a (String.◌∷◌ b rest)) =
    if is_digit a && is_digit b then some (digit_value a * 10 + digit_value b, rest) else none
read_two _ = none

-- `getnum(value, false)`: one digit or two.
unfoldable pub read_one_or_two : String → Reading
unfolding is_digit
read_one_or_two (String.◌∷◌ a (String.◌∷◌ b rest)) =
    if is_digit a
    then (if is_digit b
        then some (digit_value a * 10 + digit_value b, rest)
        else some (digit_value a, String.◌∷◌ b rest))
    else none
read_one_or_two (String.◌∷◌ a String.[]) = if is_digit a then some (digit_value a, "") else none
read_one_or_two String.[] = none
