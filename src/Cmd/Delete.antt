-- ===== src/Cmd/Delete.antt =====
-- backup-delete: cmd/backup_delete.go and cmd/interfaces.go.
use gpbackman.Base.{String, Bool, not, Option, none, some, [], ◌∷◌, if◌then◌else◌, ◌==◌}
use gpbackman.Go.Result.{Error, ok}
use gpbackman.Go.Exec.{Exec, pure, raise, lift, on_error, on_error_ignoring, ◌>>=◌, ◌>>◌}
use gpbackman.TextMsg
use gpbackman.Paths.{backup_dir_path}
use gpbackman.Config.{
  BackupConfig, no_config, date_deleted_in_progress, date_deleted_plugin_failed,
  date_deleted_local_failed, backup_type_metadata_only,
}
use gpbackman.Config.Kind.{get_backup_type}
use gpbackman.Host.{Host, Process, PluginConfig}
use gpbackman.Host.Actions.{log_error, log_info, log_debug, get_current_timestamp}
use gpbackman.Db.{get_backup_data_db, update_delete_status}
use gpbackman.Cmd.Guard.{handle_error_db}
use gpbackman.Cmd.Dirs.{
  MasterDir, no_dir, get_backup_master_dir, get_segment_configuration_cluster_info,
}
use gpbackman.Cmd.Segments.{execute_delete_backup_on_segments}

-- backupDeleteInterface: how one backup is deleted. The flag is `ignoreErrors`.
abbrev pub BackupDeleter : Host → Type 0
BackupDeleter H = String → Bool → Exec H.World (Unit {0})

module _ (H : Host) where
  abbrev pub set_status : String → String → Exec H.World (Unit {0})
  set_status name status =
      on_error (update_delete_status H name status)
        (λ e. log_error H (TextMsg.error_text_unable_set_backup_status status name e))

  -- `if errdel != nil { handleErrorDB(...); if !ignoreErrors { return errdel } }`
  unfoldable pub plugin_result : String → Bool → Option Error → Exec H.World (Unit {0})
  plugin_result name ignore_errors none = pure tt
  plugin_result name ignore_errors (some e) = do
    handle_error_db H name (TextMsg.error_text_unable_delete_backup name e)
        date_deleted_plugin_failed
    if ignore_errors then pure tt else raise e

  unfoldable pub exec_delete_backup_plugin :
      String → String → String → String → Exec H.World Process
  exec_delete_backup_plugin executable command config_file timestamp w =
      let (p, w') = H.run_command (executable ∷ command ∷ config_file ∷ timestamp ∷ []) w in
      (ok p, w')

  -- Everything after the clock is read.
  unfoldable pub delete_plugin_at :
      String → PluginConfig → String → Bool → String → Exec H.World (Unit {0})
  delete_plugin_at config_path config name ignore_errors date = do
    log_info H (TextMsg.info_text_backup_delete_start name)
    set_status name date_deleted_in_progress
    log_debug H (
        TextMsg.info_text_command_execution
          (config.executable_path ∷ "delete_backup" ∷ config_path ∷ name ∷ []))
    p ← exec_delete_backup_plugin config.executable_path "delete_backup" config_path name
    if not (p.stderr == "") then log_error H p.stderr else pure tt
    plugin_result name ignore_errors p.run_error
    log_info H p.stdout
    b ← on_error_ignoring ignore_errors no_config (get_backup_data_db H name) (λ e.
        handle_error_db H name (TextMsg.error_text_unable_get_backup_info name e)
          date_deleted_plugin_failed)
    dir ←
        on_error_ignoring ignore_errors no_dir
          (get_backup_master_dir H "" b.backup_dir b.database_name)
          (λ e.
            handle_error_db H name
              (TextMsg.error_text_unable_get_backup_path "backup directory" name e)
              date_deleted_plugin_failed)
    path ← lift (backup_dir_path dir.dir name)
    log_debug H (TextMsg.info_text_command_execution ("delete directory" ∷ path ∷ []))
    on_error_ignoring ignore_errors tt (H.remove_all path) (λ e.
        handle_error_db H name (TextMsg.error_text_unable_delete_backup name e)
          date_deleted_plugin_failed)
    set_status name date
    log_info H (TextMsg.info_text_backup_delete_success name)

  unfoldable pub backup_delete_db_plugin_func : String → PluginConfig → BackupDeleter H
  unfolding delete_plugin_at
  backup_delete_db_plugin_func config_path config name ignore_errors = do
    date ← get_current_timestamp H
    delete_plugin_at config_path config name ignore_errors date

  -- The part for a backup whose type is not metadata-only: the files on the segments.
  unfoldable pub delete_on_segments :
      String → BackupConfig → MasterDir → String → Bool → Exec H.World (Unit {0})
  delete_on_segments backup_dir b dir name ignore_errors = do
    configs ←
        on_error_ignoring ignore_errors []
          (get_segment_configuration_cluster_info H b.database_name)
          (λ e.
            handle_error_db H name
              (TextMsg.error_text_unable_get_backup_path "segment configuration" name e)
              date_deleted_local_failed)
    on_error_ignoring ignore_errors tt
        (execute_delete_backup_on_segments H backup_dir b.backup_dir name dir.seg_prefix dir.single
          ignore_errors configs)
        (λ e.
          handle_error_db H name (TextMsg.error_text_unable_delete_backup name e)
            date_deleted_local_failed)

  -- Everything after the clock is read.
  unfoldable pub delete_local_at : String → String → Bool → String → Exec H.World (Unit {0})
  delete_local_at backup_dir name ignore_errors date = do
    log_info H (TextMsg.info_text_backup_delete_start name)
    set_status name date_deleted_in_progress
    b ← on_error (get_backup_data_db H name) (λ e.
        handle_error_db H name (TextMsg.error_text_unable_get_backup_info name e)
          date_deleted_local_failed)
    dir ← on_error (get_backup_master_dir H backup_dir b.backup_dir b.database_name) (λ e.
        handle_error_db H name (TextMsg.error_text_unable_get_backup_path "backup directory" name e)
          date_deleted_local_failed)
    log_debug H (TextMsg.info_text_backup_dir_path dir.dir)
    log_debug H (TextMsg.info_text_segment_prefix dir.seg_prefix)
    kind ← on_error (lift (get_backup_type b)) (λ e.
        handle_error_db H name (TextMsg.error_text_unable_get_backup_value "type" name e)
          date_deleted_local_failed)
    if not (kind == backup_type_metadata_only)
        then delete_on_segments backup_dir b dir name ignore_errors
        else pure tt
    path ← lift (backup_dir_path dir.dir name)
    log_debug H (TextMsg.info_text_command_execution ("delete directory" ∷ path ∷ []))
    on_error_ignoring ignore_errors tt (H.remove_all path) (λ e.
        handle_error_db H name (TextMsg.error_text_unable_delete_backup name e)
          date_deleted_local_failed)
    set_status name date
    log_info H (TextMsg.info_text_backup_delete_success name)

  unfoldable pub backup_delete_db_local_func : String → BackupDeleter H
  unfolding delete_local_at
  backup_delete_db_local_func backup_dir name ignore_errors = do
    date ← get_current_timestamp H
    delete_local_at backup_dir name ignore_errors date
