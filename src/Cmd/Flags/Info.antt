-- ===== src/Cmd/Flags/Info.antt =====
-- doBackupInfoFlagValidation of cmd/backup_info.go.
use gpbackman.Base.{String, Bool, not, ◌&&◌, [], ◌∷◌}
use gpbackman.Go.Program.{Program, ◌>>◌, when, check}
use gpbackman.TextMsg.{error_text_unable_validate_value, error_not_independent_flags_error}
use gpbackman.Config.Validate.{check_table_fqn}
use gpbackman.Host.{Host}
use gpbackman.Cmd.Flags.{Changed, fail_with, invalid, compatible, check_backup_type}
use gpbackman.Cmd.Flags.Delete.{timestamp_flag}

-- The variables that the flags of backup-info set.
pub record BackupInfoOptions : Type 0 where
  pub show_deleted : Bool
  pub show_failed : Bool
  pub backup_type_filter : String
  pub table_name_filter : String
  pub schema_name_filter : String
  pub exclude_filter : Bool
  pub timestamp : String
  pub show_details : Bool

module _ (H : Host) where
  unfoldable pub do_backup_info_flag_validation :
      Changed → BackupInfoOptions → Program H.World (Unit {0})
  unfolding check_backup_type
  do_backup_info_flag_validation changed options = do
    when (changed "timestamp") (do
      timestamp_flag H "timestamp" options.timestamp
      compatible H changed
          ("timestamp" ∷ "type" ∷ "table" ∷ "schema" ∷ "exclude" ∷ "failed" ∷ "deleted" ∷ []))
    when (changed "type") (
        check (λ w. check_backup_type options.backup_type_filter)
          (invalid H options.backup_type_filter "type"))
    compatible H changed ("table" ∷ "schema" ∷ [])
    when (changed "table") (
        check (λ w. check_table_fqn options.table_name_filter)
          (invalid H options.table_name_filter "table"))
    when (changed "exclude" && (not (changed "table") && not (changed "schema"))) (
        fail_with H (
          error_text_unable_validate_value error_not_independent_flags_error
            ("table" ∷ "schema" ∷ [])))
