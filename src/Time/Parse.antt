-- ===== src/Time/Parse.antt =====
-- `time.Parse(Layout, value)` at the layout 20060102150405, element by element.
use gpbackman.Base.{
  ℕ, ◌+◌, ◌*◌, ◌/◌, String, ◌<>◌, Bool, true, ◌&&◌, ◌||◌, none, some, if◌then◌else◌, leb, ltb,
  nat_eq,
}
use gpbackman.Go.Result.{error_new, Result, ok, err}
use gpbackman.Time.{
  Time, is_digit, digit_value, days_in, parsing, cannot_parse, out_of_range, Reading, read_year,
  read_two, read_one_or_two,
}
use Prim.Native.Char.{code}

-- The digits of a fraction, the next one counting `weight` nanoseconds.
fraction_digits : ℕ → String → ℕ × String
unfolding is_digit
fraction_digits weight String.[] = (0, "")
fraction_digits weight (String.◌∷◌ c rest) =
    let more = fraction_digits (weight / 10) rest in
    if is_digit c then (digit_value c * weight + more.0, more.1) else (0, String.◌∷◌ c rest)

-- After the seconds a fraction is taken where a `.` or `,` stands before a digit.
unfoldable pub read_fraction : String → ℕ × String
unfolding is_digit fraction_digits
read_fraction (String.◌∷◌ c (String.◌∷◌ d rest)) =
    if (nat_eq (code c) b'.' || nat_eq (code c) b',') && is_digit d
    then fraction_digits 100000000 (String.◌∷◌ d rest)
    else (0, String.◌∷◌ c (String.◌∷◌ d rest))
read_fraction s = (0, s)

-- One element of the layout: its text must be readable, and its number in range.
abbrev element :
    {A : Type 0}
    → String
    → String
    → String
    → String
    → Reading
    → (ℕ → Bool)
    → (ℕ → String → Result A)
    → Result A
element value rest name part none good k = err (cannot_parse value rest name)
element value rest name part (some (n, more)) good k =
    if good n then k n more else err (out_of_range value part)

unfoldable pub finish : String → Time → String → Result Time
unfolding days_in
finish value t String.[] =
    if leb 1 t.day && leb t.day (days_in t.month t.year)
    then ok t
    else err (out_of_range value "day")
finish value t rest = err (error_new (parsing value <> ": extra text: \"" <> rest <> "\""))

-- The readers stay shut under `parse`; a run of it opens `run_parse`.
unfoldable pub parse : String → Result Time
parse value =
    element value value "2006" "" (read_year value) (λ _. true)
      λ year s1.
        element value s1 "01" "month" (read_two s1) (λ n. leb 1 n && leb n 12)
          λ month s2.
            element value s2 "02" "" (read_two s2) (λ _. true)
              λ day s3.
                element value s3 "15" "hour" (read_one_or_two s3) (λ n. ltb n 24)
                  λ hour s4.
                    element value s4 "04" "minute" (read_two s4) (λ n. ltb n 60)
                      λ minute s5.
                        element value s5 "05" "second" (read_two s5) (λ n. ltb n 60)
                          λ second s6.
                            let fraction = read_fraction s6 in
                            finish value
                              (record {
                                year = year;
                                month = month;
                                day = day;
                                hour = hour;
                                minute = minute;
                                second = second;
                                nanosecond = fraction.0;
                              })
                              fraction.1

-- The name that opens the parser with its readers.
unfoldable pub run_parse : String → Result Time
unfolding parse read_year read_two read_one_or_two read_fraction finish
run_parse = parse
