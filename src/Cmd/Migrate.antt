-- ===== src/Cmd/Migrate.antt =====
-- history-migrate: cmd/history_migrate.go, renameHistoryFile of cmd/wrappers.go, and ReadHistoryFile
-- and ParseResult of gpbckpconfig/utils_file.go.
pub mod Laws
pub mod Files
use gpbackman.Base.{String, ◌<>◌, List, [], ◌∷◌}
use gpbackman.Go.Exec.{Exec, pure, lift, on_error, ◌>>=◌, ◌>>◌}
use gpbackman.TextMsg
use gpbackman.Paths.FilePath.{path_join, dir_name, base_name}
use gpbackman.Config.{BackupConfig, History}
use gpbackman.Config.Convert.{convert_to_history_backup_config}
use gpbackman.Host.{Host}
use gpbackman.Host.Actions.{log_error, log_info}
use gpbackman.Cmd.Flags.{get_history_file_path}

unfoldable pub migrated_path : String → String
migrated_path filename = path_join (dir_name filename ∷ (base_name filename <> ".migrated") ∷ [])

module _ (H : Host) where
  unfoldable pub rename_history_file : String → Exec H.World (Unit {0})
  unfolding migrated_path
  rename_history_file filename = H.rename filename (migrated_path filename)

  unfoldable pub read_history_file : String → Exec H.World String
  read_history_file filename = H.read_file filename

  unfoldable pub parse_result : String → Exec H.World History
  parse_result output = lift (H.unmarshal output)

  -- The loop over the records of one file.
  unfoldable pub store_backups : List BackupConfig → Exec H.World (Unit {0})
  store_backups [] = pure tt
  store_backups (b ∷ list) = do
    on_error (H.store_backup_history (convert_to_history_backup_config b))
        (λ e. log_error H (TextMsg.error_text_unable_write_into_history_db e))
    store_backups list

  -- The body of the loop over the files.
  unfoldable pub migrate_file : String → Exec H.World (Unit {0})
  unfolding rename_history_file read_history_file parse_result store_backups
  migrate_file history_file = do
    log_info H (TextMsg.info_text_migrate_history_file "Start" history_file)
    let file = get_history_file_path history_file
    text ←
        on_error (read_history_file file)
          (λ e. log_error H (TextMsg.error_text_unable_action_history_file "read" e))
    history ←
        on_error (parse_result text)
          (λ e. log_error H (TextMsg.error_text_unable_action_history_file "parse" e))
    store_backups history.backup_configs
    on_error (rename_history_file file)
        (λ e. log_error H (TextMsg.error_text_unable_action_history_file "rename" e))
    log_info H (TextMsg.info_text_migrate_history_file "Finish" history_file)

  unfoldable pub migrate_files : List String → Exec H.World (Unit {0})
  unfolding migrate_file
  migrate_files [] = pure tt
  migrate_files (file ∷ files) = do migrate_file file; migrate_files files
