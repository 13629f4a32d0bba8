-- ===== src/Config/Validate.antt =====
-- The checks of values that the user gives: gpbckpconfig/utils.go.
pub mod Laws
pub mod Older
use Prim.Native.Char.{Char, code}
use gpbackman.Base.{
  ℕ, zero, suc, ◌-◌, String, Bool, true, false, ◌&&◌, not, if◌then◌else◌, nat_eq, ℤ, positive, ltb,
  ◌==◌,
}
use gpbackman.Go.Result.{Result, ok, err}
use gpbackman.TextMsg.{
  error_validation_timestamp, error_validation_full_path, error_file_not_exist,
  error_validation_table_fqn,
}
use gpbackman.Time.{Time, is_digit, days_in}
use gpbackman.Time.Format.{format_layout}
use gpbackman.Paths.{is_abs}
use gpbackman.Host.{Stat, found, not_exist, stat_error}

-- The match of `^(\d{n})$`.
unfoldable pub digits_only : ℕ → String → Bool
unfolding is_digit
digits_only zero String.[] = true
digits_only zero (String.◌∷◌ c s) = false
digits_only (suc n) String.[] = false
digits_only (suc n) (String.◌∷◌ c s) = is_digit c && digits_only n s

unfoldable pub check_timestamp : String → Result (Unit {0})
unfolding digits_only
check_timestamp timestamp =
    if not (digits_only 14 timestamp) then err error_validation_timestamp else ok tt

-- The day before; the first day of the year 0 is its own.
unfoldable pub previous_day : Time → Time
unfolding days_in
previous_day t =
    if ltb 1 t.day
    then record t { day = t.day - 1 }
    else if ltb 1 t.month
    then record t { month = t.month - 1; day = days_in (t.month - 1) t.year }
    else if ltb 0 t.year
    then record t { year = t.year - 1; month = 12; day = 31 }
    else t

-- t.AddDate(0, 0, -n), for days from the year 0 on, in a zone whose clocks are not changed: where the
-- time of day does not exist on the day found, Go gives another one.
unfoldable pub days_back : ℕ → Time → Time
unfolding previous_day
days_back zero t = t
days_back (suc n) t = days_back n (previous_day t)

-- GetTimestampOlderThen, at the given time.
unfoldable pub get_timestamp_older_then : ℕ → Time → String
unfolding days_back
get_timestamp_older_then days now = format_layout (days_back days now)

abbrev pub missing : Stat → Bool
missing found = false
missing (not_exist e) = true
missing (stat_error e) = false

-- What `Stat` says of the path is the last argument.
unfoldable pub check_full_path : String → Bool → Stat → Result (Unit {0})
check_full_path path check_file_exists stat =
    if not (is_abs path)
    then err error_validation_full_path
    else if check_file_exists
    then (if missing stat then err error_file_not_exist else ok tt)
    else ok tt

-- `.` does not match the end of a line.
unfoldable pub one_line : String → Bool
one_line String.[] = true
one_line (String.◌∷◌ c s) = not (nat_eq (code c) 10) && one_line s

abbrev pub some_text : String → Bool
some_text String.[] = false
some_text (String.◌∷◌ c s) = true

-- A dot with something behind it.
unfoldable pub dot_then_more : String → Bool
dot_then_more String.[] = false
dot_then_more (String.◌∷◌ c s) =
    let later = dot_then_more s in if nat_eq (code c) b'.' then some_text s else later

-- The match of `^.+\..+$`: on one line, and behind its first character a dot with more behind it.
unfoldable pub is_fqn : String → Bool
unfolding one_line dot_then_more
is_fqn String.[] = false
is_fqn (String.◌∷◌ c s) = one_line (String.◌∷◌ c s) && dot_then_more s

unfoldable pub check_table_fqn : String → Result (Unit {0})
unfolding is_fqn
check_table_fqn table = if not (is_fqn table) then err error_validation_table_fqn else ok tt

unfoldable pub is_positive_value : ℤ → Bool
is_positive_value value = positive value
