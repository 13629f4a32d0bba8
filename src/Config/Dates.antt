-- ===== src/Config/Dates.antt =====
-- The date, the duration and the deletion date of a backup (struct.go), over Go's `time`.
pub mod Laws
use gpbackman.Base.{
  ℕ, ◌-◌, String, Bool, true, false, Option, none, some, [], ◌∷◌, if◌then◌else◌, ◌==◌, leb,
  contains,
}
use gpbackman.Go.Result.{Error, Result, ok, err, panic}
use gpbackman.Time.{Time}
use gpbackman.Time.Parse.{parse}
use gpbackman.Time.Format.{format_date, nanoseconds}
use gpbackman.Config.{
  BackupConfig, date_deleted_in_progress, date_deleted_plugin_failed, date_deleted_local_failed,
}

abbrev pub date_of : Result Time → Result String
date_of (ok t) = ok (format_date t)
date_of (err e) = err e
date_of (panic p) = panic p

unfoldable pub get_backup_date : BackupConfig → Result String
get_backup_date b = date_of (parse b.timestamp)

-- A `time.Duration`: a signed number of nanoseconds. `back n` is -(n + 1).
pub data Duration : Type 0 where
  forth : ℕ → Duration
  back : ℕ → Duration

-- `u.Sub(t)`, which stays within the 64 bits of a duration.
unfoldable pub time_sub : Time → Time → Duration
time_sub u t =
    if leb (nanoseconds t) (nanoseconds u)
    then (if leb (nanoseconds u - nanoseconds t) 9223372036854775807
        then forth (nanoseconds u - nanoseconds t)
        else forth 9223372036854775807)
    else (if leb (nanoseconds t - nanoseconds u) 9223372036854775808
        then back (nanoseconds t - nanoseconds u - 1)
        else back 9223372036854775807)

abbrev pub duration_of : Result Time → Result Time → Result Duration
duration_of (err e) end = err e
duration_of (panic p) end = panic p
duration_of (ok start) (ok end) = ok (time_sub end start)
duration_of (ok start) (err e) = err e
duration_of (ok start) (panic p) = panic p

unfoldable pub get_backup_duration : BackupConfig → Result Duration
get_backup_duration b = duration_of (parse b.timestamp) (parse b.end_time)

-- The value and the error of `GetBackupDateDeleted`: its caller uses both.
abbrev pub deleted_of : String → Result Time → String × Option Error
deleted_of text (ok t) = (format_date t, none)
deleted_of text (err e) = (text, some e)
deleted_of text (panic p) = (text, none)

unfoldable pub get_backup_date_deleted : BackupConfig → String × Option Error
get_backup_date_deleted b =
    if contains
      ("" ∷ date_deleted_in_progress ∷ date_deleted_plugin_failed ∷ date_deleted_local_failed ∷ [])
      b.date_deleted
    then (b.date_deleted, none)
    else deleted_of b.date_deleted (parse b.date_deleted)
