-- ===== src/Cmd/Flags/Delete.antt =====
-- doDeleteBackupFlagValidation of cmd/backup_delete.go.
use gpbackman.Base.{String, Bool, not, ◌&&◌, List, [], ◌∷◌, ℤ, itoa}
use gpbackman.Go.Result.{error_new}
use gpbackman.Go.Program.{Program, ◌>>◌, when, check, for_each}
use gpbackman.TextMsg.{error_text_unable_validate_value, error_not_independent_flags_error}
use gpbackman.Config.Validate.{check_timestamp, is_positive_value}
use gpbackman.Host.{Host}
use gpbackman.Cmd.Flags.{Changed, fail_with, invalid, compatible, full_path}

-- The variables that the flags of backup-delete set.
pub record BackupDeleteOptions : Type 0 where
  pub timestamps : List String
  pub plugin_config_file : String
  pub backup_dir : String
  pub cascade : Bool
  pub force : Bool
  pub ignore_errors : Bool
  pub parallel_processes : ℤ

module _ (H : Host) where
  unfoldable pub timestamp_flag : String → String → Program H.World (Unit {0})
  timestamp_flag flag timestamp = check (λ w. check_timestamp timestamp) (invalid H timestamp flag)

  -- The error that is printed beside the number is the one of the check before, which is nil.
  unfoldable pub parallel_flag : Changed → ℤ → Program H.World (Unit {0})
  parallel_flag changed processes =
      when (changed "parallel-processes" && not (is_positive_value processes))
        (invalid H (itoa processes) "parallel-processes" (error_new "<nil>"))

  unfoldable pub do_delete_backup_flag_validation :
      Changed → BackupDeleteOptions → Program H.World (Unit {0})
  unfolding timestamp_flag parallel_flag
  do_delete_backup_flag_validation changed options = do
    when (changed "timestamp") (for_each options.timestamps (timestamp_flag "timestamp"))
    compatible H changed ("backup-dir" ∷ "plugin-config" ∷ [])
    parallel_flag changed options.parallel_processes
    compatible H changed ("parallel-processes" ∷ "plugin-config" ∷ [])
    when (changed "backup-dir") (full_path H options.backup_dir Bool.true "backup-dir")
    when (changed "plugin-config")
        (full_path H options.plugin_config_file Bool.true "plugin-config")
    when (changed "ignore-errors" && not (changed "force")) (
        fail_with H (
          error_text_unable_validate_value error_not_independent_flags_error
            ("ignore-errors" ∷ "force" ∷ [])))
