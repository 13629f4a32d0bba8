-- ===== src/Cmd/Flags/Report.antt =====
-- doReportInfoFlagValidation of cmd/report_info.go and doHistoryMigrateFlagValidation of
-- cmd/history_migrate.go.
use gpbackman.Base.{String, true, false, not, List, [], ◌∷◌}
use gpbackman.Go.Program.{Program, ◌>>◌, when, for_each}
use gpbackman.TextMsg.{error_text_unable_validate_value, error_not_independent_flags_error}
use gpbackman.Host.{Host}
use gpbackman.Cmd.Flags.{Changed, fail_with, compatible, full_path}
use gpbackman.Cmd.Flags.Delete.{timestamp_flag}

-- The variables that the flags of report-info set.
pub record ReportInfoOptions : Type 0 where
  pub timestamp : String
  pub plugin_config_file : String
  pub report_file_plugin_path : String
  pub backup_dir : String

module _ (H : Host) where
  unfoldable pub do_report_info_flag_validation :
      Changed → ReportInfoOptions → Program H.World (Unit {0})
  do_report_info_flag_validation changed options = do
    when (changed "timestamp") (timestamp_flag H "timestamp" options.timestamp)
    compatible H changed ("backup-dir" ∷ "plugin-config" ∷ [])
    when (changed "backup-dir") (full_path H options.backup_dir true "backup-dir")
    when (changed "plugin-config") (full_path H options.plugin_config_file true "plugin-config")
    when (changed "plugin-report-file-path") (do
      when (not (changed "plugin-config")) (
          fail_with H (
            error_text_unable_validate_value error_not_independent_flags_error
              ("plugin-report-file-path" ∷ "plugin-config" ∷ [])))
      full_path H options.report_file_plugin_path false "plugin-report-file-path")

  -- The option is the list of history files.
  unfoldable pub do_history_migrate_flag_validation :
      Changed → List String → Program H.World (Unit {0})
  do_history_migrate_flag_validation changed history_files =
      when (changed "history-file")
        (for_each history_files λ file. full_path H file true "history-file")
