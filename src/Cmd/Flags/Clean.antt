-- ===== src/Cmd/Flags/Clean.antt =====
-- doCleanBackupFlagValidation of cmd/backup_clean.go and doCleanHistoryFlagValidation of
-- cmd/history_clean.go.
use gpbackman.Base.{ℕ, String, Bool, true, ◌&&◌, [], ◌∷◌, ℤ, if◌then◌else◌, ◌==◌}
use gpbackman.Go.Program.{Program, returned, give, ◌>>=◌, ◌>>◌, when}
use gpbackman.TextMsg.{error_text_unable_validate_value, error_validation_value}
use gpbackman.Config.Validate.{get_timestamp_older_then}
use gpbackman.Host.{Host}
use gpbackman.Cmd.Flags.{Changed, fail_with, compatible, full_path}
use gpbackman.Cmd.Flags.Delete.{timestamp_flag, parallel_flag}

pub record BackupCleanOptions : Type 0 where
  pub before_timestamp : String
  pub after_timestamp : String
  pub older_than_days : ℕ
  pub plugin_config_file : String
  pub backup_dir : String
  pub cascade : Bool
  pub parallel_processes : ℤ

-- The variables beforeTimestamp and afterTimestamp of cmd/constants.go, which are "" at first.
pub record CutOffs : Type 0 where
  pub before : String
  pub after : String

pub record HistoryCleanOptions : Type 0 where
  pub before_timestamp : String
  pub older_than_days : ℕ

module _ (H : Host) where
  -- A flag with a timestamp, whose value is then the cut-off.
  unfoldable pub cut_off_flag : Changed → String → String → Program H.World String
  unfolding timestamp_flag
  cut_off_flag changed flag timestamp =
      if changed flag then (do timestamp_flag H flag timestamp; give timestamp) else give ""

  -- GetTimestampOlderThen, at the time of the host's clock.
  unfoldable pub older_flag : Changed → ℕ → String → Program H.World String
  older_flag changed days before w = (
    returned
        (if changed "older-than-days" then get_timestamp_older_then days (H.now w) else before),
    w,
  )

  unfoldable pub do_clean_backup_flag_validation :
      Changed → BackupCleanOptions → Program H.World CutOffs
  unfolding cut_off_flag older_flag
  do_clean_backup_flag_validation changed options = do
    given ← cut_off_flag changed "before-timestamp" options.before_timestamp
    before ← older_flag changed options.older_than_days given
    after ← cut_off_flag changed "after-timestamp" options.after_timestamp
    compatible H changed ("backup-dir" ∷ "plugin-config" ∷ [])
    parallel_flag H changed options.parallel_processes
    compatible H changed ("parallel-processes" ∷ "plugin-config" ∷ [])
    when (changed "backup-dir") (full_path H options.backup_dir true "backup-dir")
    when (changed "plugin-config") (full_path H options.plugin_config_file true "plugin-config")
    when (before == "" && after == "") (
        fail_with H (
          error_text_unable_validate_value error_validation_value
            ("older-than-days" ∷ "before-timestamp" ∷ "after-timestamp" ∷ [])))
    give (record { before = before; after = after })

  unfoldable pub do_clean_history_flag_validation :
      Changed → HistoryCleanOptions → Program H.World String
  unfolding cut_off_flag older_flag
  do_clean_history_flag_validation changed options = do
    given ← cut_off_flag changed "before-timestamp" options.before_timestamp
    before ← older_flag changed options.older_than_days given
    when (before == "") (
        fail_with H (
          error_text_unable_validate_value error_validation_value
            ("older-than-days" ∷ "before-timestamp" ∷ [])))
    give before
