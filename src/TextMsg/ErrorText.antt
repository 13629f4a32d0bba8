-- ===== src/TextMsg/ErrorText.antt =====
-- The texts that are logged with an error: textmsg/error.go.
use gpbackman.Base.{String, ◌<>◌, List, [], ◌∷◌, join}
use gpbackman.Go.Result.{Error, error_text, Result, ok, err, panic}

pub error_text_unable_action_history_db : String → Error → String
error_text_unable_action_history_db value e =
    "Unable to " <> value <> " history db. Error: " <> error_text e

pub error_text_unable_read_history_db : Error → String
error_text_unable_read_history_db e = "Unable to read data from history db. Error: " <> error_text e

pub error_text_unable_write_into_history_db : Error → String
error_text_unable_write_into_history_db e =
    "Unable to write into history db. Error: " <> error_text e

pub error_text_unable_init_history_db : Error → String
error_text_unable_init_history_db e = "Unable to initialize history db. Error: " <> error_text e

pub error_text_unable_action_history_file : String → Error → String
error_text_unable_action_history_file value e =
    "Unable to " <> value <> " history file. Error: " <> error_text e

pub error_text_unable_get_backup_info : String → Error → String
error_text_unable_get_backup_info backup_name e =
    "Unable to get info for backup " <> backup_name <> ". Error: " <> error_text e

pub error_text_unable_get_backup_value : String → String → Error → String
error_text_unable_get_backup_value value backup_name e =
    "Unable to get backup " <> value <> " for backup " <> backup_name <> ". Error: " <> error_text e

pub error_text_unable_set_backup_status : String → String → Error → String
error_text_unable_set_backup_status value backup_name e =
    "Unable to set " <> value <> " status for backup " <> backup_name <> ". Error: " <> error_text e

pub error_text_unable_delete_backup : String → Error → String
error_text_unable_delete_backup backup_name e =
    "Unable to delete backup " <> backup_name <> ". Error: " <> error_text e

pub error_text_unable_work_backup : String → Error → String
error_text_unable_work_backup backup_name e =
    "Unable to work with backup " <> backup_name <> ". Error: " <> error_text e

pub error_text_unable_delete_backup_cascade : String → Error → String
error_text_unable_delete_backup_cascade backup_name e =
    "Unable to delete dependent backups for backup " <> backup_name <> ". Error: " <> error_text e

pub error_text_unable_delete_backup_use_cascade : String → Error → String
error_text_unable_delete_backup_use_cascade backup_name e =
    "Backup "
    <> backup_name
    <> " has dependent backups. Use --cascade option. Error: "
    <> error_text e

pub error_text_backup_delete_in_progress : String → Error → String
error_text_backup_delete_in_progress backup_name e =
    "Backup " <> backup_name <> " deletion in progress. Error: " <> error_text e

pub error_text_unable_get_backup_report : String → Error → String
error_text_unable_get_backup_report backup_name e =
    "Unable to get report for the backup " <> backup_name <> ". Error: " <> error_text e

pub error_text_unable_get_backup_path : String → String → Error → String
error_text_unable_get_backup_path value backup_name e =
    "Unable to get path to "
    <> value
    <> " for the backup "
    <> backup_name
    <> ". Error: "
    <> error_text e

pub error_text_unable_read_plugin_config_file : Error → String
error_text_unable_read_plugin_config_file e =
    "Unable to read plugin config file. Error: " <> error_text e

pub error_text_command_execution_failed : Error → List String → String
error_text_command_execution_failed e values =
    "Command failed: " <> join values " " <> ". Error: " <> error_text e

pub error_text_unable_validate_flag : String → String → Error → String
error_text_unable_validate_flag value flag e =
    "Unable to validate value " <> value <> " for flag " <> flag <> ". Error: " <> error_text e

pub error_text_unable_compatible_flags : Error → List String → String
error_text_unable_compatible_flags e values =
    "Unable to use the following flags together: "
    <> join values ", "
    <> ". Error: "
    <> error_text e

-- The flags and their values in pairs; an odd number of texts is indexed past its end.
pub pair_values : List String → Result (List String)
pair_values [] = ok []
pair_values (flag ∷ []) = panic "index out of range"
pair_values (flag ∷ given ∷ rest) = elim (pair_values rest) [
  | ok pairs ↦ ok ((flag <> "=" <> given) ∷ pairs)
  | err e ↦ err e
  | panic p ↦ panic p
]

pub error_text_unable_compatible_flags_values : Error → List String → Result String
error_text_unable_compatible_flags_values e values = elim (pair_values values) [
  | ok pairs ↦ ok (
      "Unable to use the provided values for these flags together: "
      <> join pairs ", "
      <> ". Error: "
      <> error_text e)
  | err x ↦ err x
  | panic p ↦ panic p
]

pub error_text_unable_validate_value : Error → List String → String
error_text_unable_validate_value e values =
    "Unable to validate provided arguments. Try to use one of flags: "
    <> join values ", "
    <> ". Error: "
    <> error_text e

pub error_text_unable_connect_local_cluster : Error → String
error_text_unable_connect_local_cluster e =
    "Unable to connect to the cluster locally. Error: " <> error_text e

pub error_text_unable_get_backup_dir_local_cluster_conn : Error → String
error_text_unable_get_backup_dir_local_cluster_conn e =
    "Unable to get backup directory from a local connection to the cluster. Error: " <> error_text e
