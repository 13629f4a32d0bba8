-- ===== src/Cmd/Flags/Valid.antt =====
-- Which flags each command accepts.
use gpbackman.Base.{◌≡◌, String, Bool, true, false, ◌&&◌, not, List, [], ◌∷◌, All}
use gpbackman.Go.Program.Deciding.{Decides, Decides-then, Decides-when, Decides-for_each}
use gpbackman.Config.Validate.Laws.{IsTimestamp, IsFqn}
use gpbackman.Host.{Host}
use gpbackman.TextMsg.{error_text_unable_validate_value, error_not_independent_flags_error}
use gpbackman.Go.Program.{when}
use gpbackman.Cmd.Flags.{full_path, fail_with, Changed}
use gpbackman.Cmd.Flags.Delete.{BackupDeleteOptions, do_delete_backup_flag_validation}
use gpbackman.Cmd.Flags.Info.{BackupInfoOptions, do_backup_info_flag_validation}
use gpbackman.Cmd.Flags.Report.{ReportInfoOptions, do_report_info_flag_validation}
use gpbackman.Cmd.Flags.Steps.{
  Exclusive, IsFullPath, IsPositive, IsBackupType, Decides-IsTimestamp, Decides-compatible,
  Decides-full_path, Decides-IsFqn, Decides-parallel, Decides-IsBackupType, Decides-fail_with,
}

module _ (H : Host) (changed : Changed) where
  -- A directory or file given by a flag has to be there.
  abbrev pub Given : String → String → H.World → Type 0
  Given flag path w = changed flag ≡ true → IsFullPath path true (H.stat path w)

  abbrev pub DeleteAccepts : BackupDeleteOptions → H.World → Type 0
  DeleteAccepts options w =
      (changed "timestamp" ≡ true → All IsTimestamp options.timestamps)
      × (Exclusive changed ("backup-dir" ∷ "plugin-config" ∷ [])
          × ((changed "parallel-processes" ≡ true → IsPositive options.parallel_processes)
              × (Exclusive changed ("parallel-processes" ∷ "plugin-config" ∷ [])
                  × (Given "backup-dir" options.backup_dir w
                      × (Given "plugin-config" options.plugin_config_file w
                          × (changed "ignore-errors" && not (changed "force") ≡ true → ⊥))))))

  abbrev pub InfoAccepts : BackupInfoOptions → Type 0
  InfoAccepts options =
      (changed "timestamp" ≡ true
        → IsTimestamp options.timestamp
          × Exclusive changed
              ("timestamp" ∷ "type" ∷ "table" ∷ "schema" ∷ "exclude" ∷ "failed" ∷ "deleted" ∷ []))
      × ((changed "type" ≡ true → IsBackupType options.backup_type_filter)
          × (Exclusive changed ("table" ∷ "schema" ∷ [])
              × ((changed "table" ≡ true → IsFqn options.table_name_filter)
                  × (changed "exclude" && (not (changed "table") && not (changed "schema")) ≡ true
                      → ⊥))))

  abbrev pub ReportAccepts : ReportInfoOptions → H.World → Type 0
  ReportAccepts options w =
      (changed "timestamp" ≡ true → IsTimestamp options.timestamp)
      × (Exclusive changed ("backup-dir" ∷ "plugin-config" ∷ [])
          × (Given "backup-dir" options.backup_dir w
              × (Given "plugin-config" options.plugin_config_file w
                  × (changed "plugin-report-file-path" ≡ true
                      → (not (changed "plugin-config") ≡ true → ⊥)
                        × IsFullPath options.report_file_plugin_path false
                            (H.stat options.report_file_plugin_path w)))))

Decides-Given :
    (H : Host) (changed : Changed) (flag path : String)
    → Decides (Given H changed flag path) (when (changed flag) (full_path H path true flag))
Decides-Given H changed flag path =
    Decides-when (changed flag) _ (Decides-full_path H path true flag)

-- `if test { log the flags; exit }`
Decides-refused :
    (H : Host) (test : Bool) (names : List String)
    → Decides
        (λ w. test ≡ true → ⊥)
        (when test
          (fail_with H (error_text_unable_validate_value error_not_independent_flags_error names)))
Decides-refused H test names = Decides-when test _ (Decides-fail_with H _)

-- The flags of backup-delete are accepted, with the world left as it was, exactly if every timestamp
-- given has fourteen digits, the backup directory excludes the plugin's configuration, which also
-- excludes a number of processes, that number is at least one, the paths are absolute and not unknown to
-- the file system, and errors are ignored only with force; otherwise the program ends with code 1.
pub do_delete_backup_flag_validation-Decides :
    (H : Host) (changed : Changed) (options : BackupDeleteOptions)
    → Decides (DeleteAccepts H changed options) (do_delete_backup_flag_validation H changed options)
unfolding do_delete_backup_flag_validation
do_delete_backup_flag_validation-Decides H changed options =
    Decides-then _ _
      (Decides-when (changed "timestamp") _
        (Decides-for_each options.timestamps _ (Decides-IsTimestamp H "timestamp")))
      (Decides-then _ _ (Decides-compatible H changed ("backup-dir" ∷ "plugin-config" ∷ [])) (
        Decides-then _ _ (Decides-parallel H changed options.parallel_processes) (
          Decides-then _ _
            (Decides-compatible H changed ("parallel-processes" ∷ "plugin-config" ∷ []))
            (Decides-then _ _ (Decides-Given H changed "backup-dir" options.backup_dir) (
              Decides-then _ _ (Decides-Given H changed "plugin-config" options.plugin_config_file)
                (Decides-refused H (changed "ignore-errors" && not (changed "force"))
                  ("ignore-errors" ∷ "force" ∷ [])))))))

-- The flags of backup-info are accepted, with the world left as it was, exactly if a timestamp given
-- has fourteen digits and comes without any of the filters, a type given is `full`, `incremental`,
-- `metadata-only` or `data-only`, a table
-- and a schema are not given together, a table is `<schema>.<table>` on one line, and an exclusion
-- comes with a table or a schema; otherwise the program ends with code 1.
pub do_backup_info_flag_validation-Decides :
    (H : Host) (changed : Changed) (options : BackupInfoOptions)
    → Decides
        (λ w. InfoAccepts H changed options)
        (do_backup_info_flag_validation H changed options)
unfolding do_backup_info_flag_validation
do_backup_info_flag_validation-Decides H changed options =
    Decides-then _ _
      (Decides-when (changed "timestamp") _ (
        Decides-then _ _ (Decides-IsTimestamp H "timestamp" options.timestamp) (
          Decides-compatible H changed
            ("timestamp" ∷ "type" ∷ "table" ∷ "schema" ∷ "exclude" ∷ "failed" ∷ "deleted" ∷ []))))
      (Decides-then _ _
        (Decides-when (changed "type") _ (Decides-IsBackupType H options.backup_type_filter "type"))
        (Decides-then _ _ (Decides-compatible H changed ("table" ∷ "schema" ∷ [])) (
          Decides-then _ _
            (Decides-when (changed "table") _ (Decides-IsFqn H options.table_name_filter "table"))
            (Decides-refused H
              (changed "exclude" && (not (changed "table") && not (changed "schema")))
              ("table" ∷ "schema" ∷ [])))))

-- The flags of report-info are accepted, with the world left as it was, exactly if the timestamp has
-- fourteen digits, the backup directory excludes the plugin's configuration, the paths are absolute
-- and those of a directory and of a configuration not unknown to the file system, and the path of
-- the report in the plugin's storage comes with a configuration; otherwise the program ends with 1.
pub do_report_info_flag_validation-Decides :
    (H : Host) (changed : Changed) (options : ReportInfoOptions)
    → Decides (ReportAccepts H changed options) (do_report_info_flag_validation H changed options)
unfolding do_report_info_flag_validation
do_report_info_flag_validation-Decides H changed options =
    Decides-then _ _
      (Decides-when (changed "timestamp") _ (Decides-IsTimestamp H "timestamp" options.timestamp))
      (Decides-then _ _ (Decides-compatible H changed ("backup-dir" ∷ "plugin-config" ∷ [])) (
        Decides-then _ _ (Decides-Given H changed "backup-dir" options.backup_dir) (
          Decides-then _ _ (Decides-Given H changed "plugin-config" options.plugin_config_file) (
            Decides-when (changed "plugin-report-file-path") _ (
              Decides-then _ _
                (Decides-refused H (not (changed "plugin-config"))
                  ("plugin-report-file-path" ∷ "plugin-config" ∷ []))
                (Decides-full_path H options.report_file_plugin_path false
                  "plugin-report-file-path"))))))
