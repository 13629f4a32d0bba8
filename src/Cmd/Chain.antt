-- ===== src/Cmd/Chain.antt =====
-- The loops of backup-delete over the backups and over their dependents: backupDeleteDB and
-- backupDeleteDBCascade (cmd/backup_delete.go), for any way to delete one backup.
pub mod Kept
pub mod Spares
use gpbackman.Base.{String, Bool, true, false, List, [], ◌∷◌, if◌then◌else◌}
use gpbackman.Go.Exec.{Exec, pure, raise, on_error, ◌>>=◌, ◌>>◌}
use gpbackman.TextMsg
use gpbackman.Host.{Host, PluginConfig}
use gpbackman.Host.Actions.{log_error, log_info, log_debug}
use gpbackman.Db.{get_backup_data_db, get_backup_dependencies}
use gpbackman.Cmd.Guard.{check_backup_can_be_used}
use gpbackman.Cmd.Delete.{BackupDeleter, backup_delete_db_plugin_func, backup_delete_db_local_func}

module _ (H : Host) (deleter : BackupDeleter H) (force ignore_errors skip_local : Bool) where
  -- The body of the loop of backupDeleteDBCascade.
  unfoldable pub cascade_one : String → Exec H.World (Unit {0})
  cascade_one backup = do
    b ←
        on_error (get_backup_data_db H backup)
          (λ e. log_error H (TextMsg.error_text_unable_get_backup_info backup e))
    can_be_deleted ← check_backup_can_be_used H force skip_local b
    if can_be_deleted then deleter backup ignore_errors else pure tt

  unfoldable pub backup_delete_db_cascade : List String → Exec H.World (Unit {0})
  unfolding cascade_one
  backup_delete_db_cascade [] = pure tt
  backup_delete_db_cascade (backup ∷ list) = do cascade_one backup; backup_delete_db_cascade list

  -- `if len(backupDependencies) > 0 { ... }`
  unfoldable pub delete_dependencies : Bool → String → List String → Exec H.World (Unit {0})
  unfolding backup_delete_db_cascade
  delete_dependencies cascade name [] = pure tt
  delete_dependencies cascade name (d ∷ ds) = do
    log_info H (TextMsg.info_text_backup_dependencies_list name (d ∷ ds))
    if cascade
        then (do
          log_debug H (TextMsg.info_text_backup_delete_list (d ∷ ds))
          on_error (backup_delete_db_cascade (d ∷ ds))
              (λ e. log_error H (TextMsg.error_text_unable_delete_backup_cascade name e)))
        else (do
          log_error H (
              TextMsg.error_text_unable_delete_backup_use_cascade name
                TextMsg.error_backup_delete_cascade_option_error)
          raise TextMsg.error_backup_delete_cascade_option_error)

  -- The body of the loop of backupDeleteDB, from the check on.
  unfoldable pub delete_checked : Bool → String → Bool → Exec H.World (Unit {0})
  unfolding delete_dependencies
  delete_checked cascade name false = pure tt
  delete_checked cascade name true = do
    dependencies ←
        on_error (get_backup_dependencies H name)
          (λ e. log_error H (TextMsg.error_text_unable_get_backup_value "dependencies" name e))
    delete_dependencies cascade name dependencies
    deleter name ignore_errors

  unfoldable pub delete_one : Bool → String → Exec H.World (Unit {0})
  unfolding delete_checked
  delete_one cascade name = do
    b ←
        on_error (get_backup_data_db H name)
          (λ e. log_error H (TextMsg.error_text_unable_get_backup_info name e))
    can_be_deleted ← check_backup_can_be_used H force skip_local b
    delete_checked cascade name can_be_deleted

  unfoldable pub backup_delete_db : Bool → List String → Exec H.World (Unit {0})
  unfolding delete_one
  backup_delete_db cascade [] = pure tt
  backup_delete_db cascade (name ∷ list) = do delete_one cascade name; backup_delete_db cascade list

module _ (H : Host) where
  -- backupDeleteDBPlugin: local backups are refused.
  unfoldable pub backup_delete_db_plugin :
      List String → Bool → Bool → Bool → String → PluginConfig → Exec H.World (Unit {0})
  unfolding backup_delete_db
  backup_delete_db_plugin list cascade force ignore_errors config_path config =
      backup_delete_db H (backup_delete_db_plugin_func H config_path config) force ignore_errors
        true cascade list

  -- backupDeleteDBLocal: backups in a plugin's storage are refused.
  unfoldable pub backup_delete_db_local :
      List String → String → Bool → Bool → Bool → Exec H.World (Unit {0})
  unfolding backup_delete_db
  backup_delete_db_local list backup_dir cascade force ignore_errors =
      backup_delete_db H (backup_delete_db_local_func H backup_dir) force ignore_errors false
        cascade list
