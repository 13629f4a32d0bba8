-- ===== src/Time/Dates.antt =====
-- Printed dates beside the texts that stand for a state of deletion.
use gpbackman.Base.{◌+◌, ◌%◌, ◌≡◌, ◌≢◌, String, Bool, true, not, arith, all_below, all_below_sound}
use mathlib.Core.Path.{subst}
use text.Mathlib.Text.{starts_with}
use text.Mathlib.TextPositions.{starts_with-append}
use gpbackman.Time.{Time}
use gpbackman.Time.Format.{format_date, weekday_name, day_number}

-- A text that begins with no weekday.
abbrev pub no_weekday : String → Bool
no_weekday s = all_below 7 (λ k. not (starts_with s (weekday_name k)))

format_date-starts :
    (t : Time) → starts_with (format_date t) (weekday_name ((day_number t + 6) % 7)) ≡ true
unfolding format_date
format_date-starts t = starts_with-append (weekday_name ((day_number t + 6) % 7)) _

pub format_date-ne : (t : Time) (s : String) → no_weekday s ≡ true → format_date t ≢ s
format_date-ne t s h e =
    let k = (day_number t + 6) % 7 in
    let a = all_below_sound 7 (λ j. not (starts_with s (weekday_name j))) k h (omega arith) in
    let b = subst (λ u. starts_with u (weekday_name k) ≡ true) e (format_date-starts t) in cc (a, b)
