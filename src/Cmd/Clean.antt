-- ===== src/Cmd/Clean.antt =====
-- backup-clean and history-clean: cmd/backup_clean.go and cmd/history_clean.go.
pub mod Listed
pub mod Removed
pub mod Unselected
pub mod Untouched
use gpbackman.Base.{String, Bool, false, not, List, [], ◌∷◌, if◌then◌else◌, ◌==◌}
use gpbackman.Go.Exec.{Exec, pure, on_error, ◌>>=◌, ◌>>◌}
use gpbackman.TextMsg
use gpbackman.Host.{Host, PluginConfig}
use gpbackman.Host.Actions.{log_error, log_info, log_debug}
use gpbackman.Db.{
  get_backup_names_before_timestamp, get_backup_names_after_timestamp,
  get_backup_names_for_clean_before_timestamp,
}
use gpbackman.Db.Clean.{clean_backups_db}
use gpbackman.Cmd.Chain.{backup_delete_db_plugin, backup_delete_db_local}

module _ (H : Host) where
  -- With both cut-offs the second query's list replaces the first one's.
  unfoldable pub fetch_backup_names_for_deletion : String → String → Exec H.World (List String)
  fetch_backup_names_for_deletion cut_off cut_off_after = do
    before ← if not (cut_off == "") then get_backup_names_before_timestamp H cut_off else pure []
    if not (cut_off_after == "")
        then get_backup_names_after_timestamp H cut_off_after
        else pure before

  unfoldable pub clean_list :
      List String → (List String → Exec H.World (Unit {0})) → Exec H.World (Unit {0})
  clean_list [] delete_all = log_info H TextMsg.info_text_nothing_to_do
  clean_list (x ∷ xs) delete_all = do
    log_debug H (TextMsg.info_text_backup_delete_list (x ∷ xs))
    delete_all (x ∷ xs)

  -- Without force and without ignoring errors.
  unfoldable pub backup_clean_db_plugin :
      Bool → String → String → String → PluginConfig → Exec H.World (Unit {0})
  unfolding clean_list fetch_backup_names_for_deletion
  backup_clean_db_plugin cascade cut_off cut_off_after config_path config = do
    list ←
        on_error (fetch_backup_names_for_deletion cut_off cut_off_after)
          (λ e. log_error H (TextMsg.error_text_unable_read_history_db e))
    clean_list list
        (λ names. backup_delete_db_plugin H names cascade false false config_path config)

  unfoldable pub backup_clean_db_local : Bool → String → String → String → Exec H.World (Unit {0})
  unfolding clean_list fetch_backup_names_for_deletion
  backup_clean_db_local cascade cut_off cut_off_after backup_dir = do
    list ←
        on_error (fetch_backup_names_for_deletion cut_off cut_off_after)
          (λ e. log_error H (TextMsg.error_text_unable_read_history_db e))
    clean_list list (λ names. backup_delete_db_local H names backup_dir cascade false false)

  unfoldable pub clean_history_list : List String → Exec H.World (Unit {0})
  clean_history_list [] = log_info H TextMsg.info_text_nothing_to_do
  clean_history_list (x ∷ xs) = do
    log_debug H (TextMsg.info_text_backup_delete_list_from_history (x ∷ xs))
    clean_backups_db H (x ∷ xs) 1000

  unfoldable pub history_clean_db : String → Exec H.World (Unit {0})
  unfolding clean_history_list
  history_clean_db cut_off = do
    list ←
        on_error (get_backup_names_for_clean_before_timestamp H cut_off)
          (λ e. log_error H (TextMsg.error_text_unable_read_history_db e))
    clean_history_list list
