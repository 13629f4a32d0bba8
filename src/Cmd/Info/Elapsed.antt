-- ===== src/Cmd/Info/Elapsed.antt =====
-- How backup-info prints a duration.
use gpbackman.Base.{ℕ, ◌+◌, ◌*◌, ◌/◌, ◌%◌, ◌<◌, ◌≡◌, refl, String, ◌<>◌, arith, ℤ, padded}
use gpbackman.Config.Dates.{forth}
use gpbackman.Cmd.Info.{whole_seconds, quotient, remainder, format_backup_duration}

-- Hours, minutes and seconds, two digits or more each.
abbrev pub clock_text : ℕ → ℕ → ℕ → String
clock_text hours minutes seconds =
    padded (ℤ.pos hours) <> ":" <> padded (ℤ.pos minutes) <> ":" <> padded (ℤ.pos seconds)

-- A duration that is not negative is printed as hours, minutes below sixty and seconds below sixty,
-- which together are its whole seconds.
pub format_backup_duration-parts :
    (n : ℕ)
    → (hours : ℕ) × (minutes : ℕ) × (seconds : ℕ) × ((format_backup_duration (forth n)
          ≡ clock_text hours minutes seconds)
        × ((minutes < 60)
            × ((seconds < 60) × (hours * 3600 + minutes * 60 + seconds ≡ n / 1000000000))))
unfolding format_backup_duration whole_seconds quotient remainder
format_backup_duration-parts n =
    let s = n / 1000000000 in
    (s / 3600, s % 3600 / 60, s % 60, (refl, (omega arith, (omega arith, omega arith))))
