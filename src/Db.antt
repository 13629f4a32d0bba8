-- ===== src/Db.antt =====
-- The history database: gpbckpconfig/utils_db.go.
pub mod Queries
pub mod Update
pub mod Names
pub mod Clean
use gpbackman.Base.{
  ℕ, zero, suc, ◌+◌, ◌-◌, ◌<◌, String, ◌<>◌, Bool, true, false, ◌&&◌, Option, none, some, List, [],
  ◌∷◌, ◌++◌, if◌then◌else◌, ltb, codes, join, length, take, drop,
}
use gpbackman.Go.Result.{Error, Result, ok, err, panic}
use gpbackman.Go.Exec.{Exec, pure, lift, ◌>>=◌, ◌>>◌, on_error}
use gpbackman.Config.{BackupConfig}
use gpbackman.Config.Convert.{convert_from_history_backup_config}
use gpbackman.Host.{Host, Cursor}
use gpbackman.Host.Actions.{roll_back}
use Queries.{
  get_backup_name_query, get_backup_dependencies_query, get_backup_name_before_timestamp_query,
  get_backup_name_after_timestamp_query, get_backup_name_for_clean_before_timestamp_query,
  delete_backups_form_table_query, update_delete_status_query,
}

-- The loop over the rows: a failing `Scan` ends it.
unfoldable pub scan_rows : List (Result String) → List String → Option Error → Result (List String)
scan_rows [] result none = ok result
scan_rows [] result (some e) = err e
scan_rows (ok b ∷ rows) result last = scan_rows rows (result ++ (b ∷ [])) last
scan_rows (err e ∷ rows) result last = err e
scan_rows (panic p ∷ rows) result last = panic p

module _ (H : Host) where
  unfoldable pub exec_query_func : List ℕ → Exec H.World (List String)
  unfolding scan_rows
  exec_query_func query = do
    cursor ← H.query query
    lift (scan_rows cursor.rows [] cursor.final_error)

  unfoldable pub exec_statement_func : List ℕ → Exec H.World (Unit {0})
  exec_statement_func query = do H.begin; on_error (H.exec query) (λ _. roll_back H); H.commit

  unfoldable pub get_backup_data_db : String → Exec H.World BackupConfig
  get_backup_data_db name = do
    found ← H.get_backup_config name
    pure (convert_from_history_backup_config found)

  unfoldable pub get_backup_names_db : Bool → Bool → Exec H.World (List String)
  get_backup_names_db show_d show_f = exec_query_func (get_backup_name_query show_d show_f)

  unfoldable pub get_backup_dependencies : String → Exec H.World (List String)
  get_backup_dependencies name = exec_query_func (get_backup_dependencies_query name)

  unfoldable pub get_backup_names_before_timestamp : String → Exec H.World (List String)
  get_backup_names_before_timestamp timestamp =
      exec_query_func (get_backup_name_before_timestamp_query timestamp)

  unfoldable pub get_backup_names_after_timestamp : String → Exec H.World (List String)
  get_backup_names_after_timestamp timestamp =
      exec_query_func (get_backup_name_after_timestamp_query timestamp)

  unfoldable pub get_backup_names_for_clean_before_timestamp : String → Exec H.World (List String)
  get_backup_names_for_clean_before_timestamp timestamp =
      exec_query_func (get_backup_name_for_clean_before_timestamp_query timestamp)

  unfoldable pub update_delete_status : String → String → Exec H.World (Unit {0})
  update_delete_status name date_deleted =
      exec_statement_func (update_delete_status_query name date_deleted)
