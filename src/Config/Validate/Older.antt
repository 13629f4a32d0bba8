-- ===== src/Config/Validate/Older.antt =====
-- The cut-off of the older-than-days flag.
use gpbackman.Base.{
  ℕ, zero, suc, ◌+◌, ◌-◌, ◌*◌, ◌/◌, ◌%◌, ◌≤◌, ◌<◌, ◌≡◌, refl, ◌∙◌, ap, arith, inl, inr, Bool-cases,
  ltb, if◌then◌else◌,
}
use gpbackman.Sql.Lexer.{QuoteFree}
use gpbackman.Time.{Time, days_in, is_leap}
use gpbackman.Time.Format.{day_number, days_before_month}
use gpbackman.Go.Result.{ok}
use gpbackman.Time.Parse.{parse}
use gpbackman.Time.RoundTrip.{IsValid, parse-format_layout}
use gpbackman.Time.Plain.{format_layout_plain}
use gpbackman.Config.Validate.{previous_day, days_back, get_timestamp_older_then}

-- Another date at the same time of day.
dated :
    (t : Time) (y m d : ℕ)
    → IsValid t
    → y < 10000
    → 1 ≤ m
    → m ≤ 12
    → 1 ≤ d
    → d ≤ days_in m y
    → IsValid (record t { year = y; month = m; day = d })
dated t y m d v year_fits month_from month_to day_from day_to = record {
  year_fits = year_fits;
  month_from = month_from;
  month_to = month_to;
  day_from = day_from;
  day_to = day_to;
  hour_fits = v.hour_fits;
  minute_fits = v.minute_fits;
  second_fits = v.second_fits;
}

some_days : (month year : ℕ) → 1 ≤ days_in month year
unfolding days_in
some_days month year = ground arith

december : (year : ℕ) → 31 ≤ days_in 12 year
unfolding days_in
december year = ground arith

-- The day before a valid time is a valid time.
previous_day-IsValid : (t : Time) → IsValid t → IsValid (previous_day t)
unfolding previous_day
previous_day-IsValid t v = elim (Bool-cases (ltb 1 t.day)) [
  | inl e ↦ rw e (
      dated t t.year t.month (t.day - 1) v v.year_fits v.month_from v.month_to (ground (arith, e))
        (omega (arith, v.day_to)))
  | inr e ↦ elim (Bool-cases (ltb 1 t.month)) [
    | inl m ↦
        rw (e, m)
          (dated t t.year (t.month - 1) _ v v.year_fits (ground (arith, m))
            (omega (arith, v.month_to)) (some_days (t.month - 1) t.year) (omega arith))
    | inr m ↦ elim (Bool-cases (ltb 0 t.year)) [
      | inl y ↦
          rw (e, m, y)
            (dated t (t.year - 1) 12 31 v (omega (arith, v.year_fits)) (omega arith) (omega arith)
              (omega arith) (december (t.year - 1)))
      | inr y ↦ rw (e, m, y) v
    ]
  ]
]

days_back-IsValid : (n : ℕ) (t : Time) → IsValid t → IsValid (days_back n t)
unfolding days_back
days_back-IsValid zero t v = v
days_back-IsValid (suc n) t v = days_back-IsValid n (previous_day t) (previous_day-IsValid t v)

-- The cut-off of a number of days holds no quote.
pub get_timestamp_older_then_plain :
    (days : ℕ) (now : Time) → IsValid now → QuoteFree (get_timestamp_older_then days now)
unfolding get_timestamp_older_then
get_timestamp_older_then_plain days now v =
    format_layout_plain (days_back days now) (days_back-IsValid days now v)

-- The days of a year before its last month's last day.
year_days : (year : ℕ) → days_before_month 11 year ≡ (if is_leap year then 335 else 334)
unfolding days_before_month days_in
year_days year = ground arith

rounds_up :
    (z : ℕ)
    → ((z % 4 ≡ 0 → (suc z + 3) / 4 ≡ (z + 3) / 4 + 1)
        × ((z % 4 ≡ 0 → ⊥) → (suc z + 3) / 4 ≡ (z + 3) / 4))
rounds_up z = (λ h. omega (arith, h), λ h. omega (arith, h))

centuries :
    (z : ℕ)
    → ((z % 100 ≡ 0 → (suc z + 99) / 100 ≡ (z + 99) / 100 + 1)
        × ((z % 100 ≡ 0 → ⊥) → (suc z + 99) / 100 ≡ (z + 99) / 100))
centuries z = (λ h. omega (arith, h), λ h. omega (arith, h))

cycles :
    (z : ℕ)
    → ((z % 400 ≡ 0 → (suc z + 399) / 400 ≡ (z + 399) / 400 + 1)
        × ((z % 400 ≡ 0 → ⊥) → (suc z + 399) / 400 ≡ (z + 399) / 400))
cycles z = (λ h. omega (arith, h), λ h. omega (arith, h))

nested : (z : ℕ) → (z % 400 ≡ 0 → z % 100 ≡ 0) × (z % 100 ≡ 0 → z % 4 ≡ 0)
nested z = (λ h. omega (arith, h), λ h. omega (arith, h))

leap_days :
    (z : ℕ)
    → 365 * suc z + (suc z + 3) / 4 - (suc z + 99) / 100 + (suc z + 399) / 400
      ≡ 365 * z + (z + 3) / 4 - (z + 99) / 100 + (z + 399) / 400 + (if is_leap z then 366 else 365)
leap_days z = ground (arith, rounds_up z, centuries z, cycles z, nested z)

-- The days of the months before one are those of the months before the month before it, and its own.
month_step :
    (m year : ℕ)
    → 1 ≤ m
    → days_before_month m year ≡ days_before_month (m - 1) year + days_in m year
unfolding days_before_month
month_step zero year h = absurd (omega arith)
month_step (suc k) year h =
    ap (λ j. days_before_month j year + days_in (suc k) year) {x = k} {y = suc k - 1} (omega arith)

abbrev year_number : ℕ → ℕ
year_number y = 365 * y + (y + 3) / 4 - (y + 99) / 100 + (y + 399) / 400

year_step :
    (y : ℕ) → 1 ≤ y → year_number y ≡ year_number (y - 1) + days_before_month 11 (y - 1) + 31
year_step zero h = absurd (omega arith)
year_step (suc z) h =
    let e : suc z - 1 ≡ z = omega arith in rw e (ground (arith, leap_days z, year_days z))

january : (t : Time) → t.month ≡ 1 → days_before_month (t.month - 1) t.year ≡ 0
unfolding days_before_month
january t one = ap (λ k. days_before_month (k - 1) t.year) one

-- The day before is one day less, but for the first day of the year 0.
previous_day-day_number :
    (t : Time) → IsValid t → 1 ≤ day_number t → day_number (previous_day t) + 1 ≡ day_number t
unfolding previous_day day_number
previous_day-day_number t v h = elim (Bool-cases (ltb 1 t.day)) [
  | inl e ↦ rw e (let d : 2 ≤ t.day = ground (arith, e) in omega (arith, d))
  | inr e ↦
      let first : t.day ≡ 1 = ground (arith, e, v.day_from) in
      elim (Bool-cases (ltb 1 t.month)) [
        | inl m ↦
            let two : 2 ≤ t.month = ground (arith, m) in
            rw (e, m)
              (omega (
                arith,
                first,
                month_step (t.month - 1) t.year (omega (arith, two)),
                some_days (t.month - 1) t.year,
              ))
        | inr m ↦
            let one : t.month ≡ 1 = ground (arith, m, v.month_from) in
            elim (Bool-cases (ltb 0 t.year)) [
              | inl y ↦
                  let later : 1 ≤ t.year = ground (arith, y) in
                  rw (e, m, y) (omega (arith, first, january t one, year_step t.year later))
              | inr y ↦
                  let zero_year : t.year ≡ 0 = ground (arith, y) in
                  absurd (omega (arith, h, first, january t one, zero_year))
            ]
      ]
]

days_back-day_number :
    (n : ℕ) (t : Time)
    → IsValid t
    → n ≤ day_number t
    → (day_number (days_back n t) + n ≡ day_number t) × IsValid (days_back n t)
unfolding days_back
days_back-day_number zero t v h = (omega arith, v)
days_back-day_number (suc n) t v h =
    let step = previous_day-day_number t v (omega arith) in
    let (rest, valid) =
      days_back-day_number n (previous_day t) (previous_day-IsValid t v) (omega (arith, step)) in
    (omega (arith, step, rest), valid)

previous_day-clock :
    (t : Time)
    → ((previous_day t).hour ≡ t.hour)
      × (((previous_day t).minute ≡ t.minute) × ((previous_day t).second ≡ t.second))
unfolding previous_day
previous_day-clock t = elim (Bool-cases (ltb 1 t.day)) [
  | inl e ↦ rw e (refl, (refl, refl))
  | inr e ↦ elim (Bool-cases (ltb 1 t.month)) [
    | inl m ↦ rw (e, m) (refl, (refl, refl))
    | inr m ↦ elim (Bool-cases (ltb 0 t.year)) [
      | inl y ↦ rw (e, m, y) (refl, (refl, refl))
      | inr y ↦ rw (e, m, y) (refl, (refl, refl))
    ]
  ]
]

days_back-clock :
    (n : ℕ) (t : Time)
    → ((days_back n t).hour ≡ t.hour)
      × (((days_back n t).minute ≡ t.minute) × ((days_back n t).second ≡ t.second))
unfolding days_back
days_back-clock zero t = (refl, (refl, refl))
days_back-clock (suc n) t =
    let (hour, (minute, second)) = days_back-clock n (previous_day t) in
    let (h, (m, s)) = previous_day-clock t in (hour ∙ h, (minute ∙ m, second ∙ s))

-- The cut-off of a number of days is a timestamp that reads as the time so many days ago, at the same
-- hour, minute and second. The time now must be valid, in a zone whose clocks are not changed, and
-- the days must not lead behind the first day of the year 0.
pub get_timestamp_older_then-day_number :
    (days : ℕ) (now : Time)
    → IsValid now
    → days ≤ day_number now
    → (t : Time) × ((parse (get_timestamp_older_then days now) ≡ ok t)
        × ((day_number t + days ≡ day_number now)
            × ((t.hour ≡ now.hour) × ((t.minute ≡ now.minute) × (t.second ≡ now.second)))))
unfolding get_timestamp_older_then day_number
get_timestamp_older_then-day_number days now v h =
    let (back, valid) = days_back-day_number days now v h in
    (
      record (days_back days now) { nanosecond = 0 },
      (parse-format_layout (days_back days now) valid, (back, days_back-clock days now)),
    )
