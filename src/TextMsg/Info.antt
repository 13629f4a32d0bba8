-- ===== src/TextMsg/Info.antt =====
-- The information and warning messages of textmsg/info.go and textmsg/warn.go.
use gpbackman.Base.{String, ◌<>◌, List, join}

pub info_text_backup_delete_start : String → String
info_text_backup_delete_start backup_name = "Start deleting backup " <> backup_name

pub info_text_backup_already_deleted : String → String
info_text_backup_already_deleted backup_name =
    "Backup " <> backup_name <> " has already been deleted"

pub info_text_backup_status : String → String → String
info_text_backup_status backup_name backup_status =
    "Backup " <> backup_name <> " has status: " <> backup_status

pub info_text_backup_delete_success : String → String
info_text_backup_delete_success backup_name = "Backup " <> backup_name <> " successfully deleted"

pub info_text_backup_dependencies_list : String → List String → String
info_text_backup_dependencies_list backup_name list =
    "Backup " <> backup_name <> " has dependent backups: " <> join list ", "

pub info_text_backup_delete_list : List String → String
info_text_backup_delete_list list = "The following backups will be deleted: " <> join list ", "

pub info_text_backup_delete_list_from_history : List String → String
info_text_backup_delete_list_from_history list =
    "The following backups will be deleted from history: " <> join list ", "

pub info_text_command_execution : List String → String
info_text_command_execution list = "Executing command: " <> join list " "

pub info_text_command_execution_succeeded : List String → String
info_text_command_execution_succeeded list = "Command succeeded: " <> join list " "

pub info_text_backup_dir_path : String → String
info_text_backup_dir_path backup_dir = "Path to backup directory: " <> backup_dir

pub info_text_segment_prefix : String → String
info_text_segment_prefix seg_prefix = "Segment Prefix: " <> seg_prefix

pub info_text_nothing_to_do : String
info_text_nothing_to_do = "Nothing to do"

pub info_text_migrate_history_file : String → String → String
info_text_migrate_history_file action file =
    action <> " file migration to history database: " <> file

pub warn_text_backup_unable_get_report : String → String
warn_text_backup_unable_get_report backup_name =
    "Unable to get report for backup " <> backup_name <> ". Check if backup is active"
