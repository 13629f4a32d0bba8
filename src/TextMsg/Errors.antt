-- ===== src/TextMsg/Errors.antt =====
-- The error values of textmsg/error.go.
use gpbackman.Base.{String, ◌<>◌}
use gpbackman.Go.Result.{Error, error_new, error_text}

pub error_invalid_value_error : Error
error_invalid_value_error = error_new "invalid flag value"

pub error_incompatible_values_error : Error
error_incompatible_values_error = error_new "incompatible flags values"

pub error_incompatible_flags_error : Error
error_incompatible_flags_error = error_new "incompatible flags"

pub error_not_independent_flags_error : Error
error_not_independent_flags_error = error_new "not an independent flag"

pub error_backup_delete_in_progress_error : Error
error_backup_delete_in_progress_error = error_new "backup deletion in progress"

pub error_backup_delete_cascade_option_error : Error
error_backup_delete_cascade_option_error = error_new "use cascade option"

pub error_backup_local_storage_error : Error
error_backup_local_storage_error = error_new "is a local backup"

pub error_backup_not_local_storage_error : Error
error_backup_not_local_storage_error = error_new "is not a local backup"

pub error_validation_full_path : Error
error_validation_full_path = error_new "not an absolute path"

pub error_file_not_exist : Error
error_file_not_exist = error_new "file not exist"

pub error_validation_table_fqn : Error
error_validation_table_fqn = error_new "not a fully qualified table name"

pub error_validation_timestamp : Error
error_validation_timestamp = error_new "not a timestamp"

pub error_validation_value : Error
error_validation_value = error_new "value not set"

pub error_empty_database : Error
error_empty_database = error_new "database name cannot be empty"

pub error_validation_plugin_option : String → String → Error
error_validation_plugin_option value plugin_name =
    error_new ("invalid plugin " <> value <> " option value for plugin " <> plugin_name)

pub error_find_backup_dir_in : String → Error → Error
error_find_backup_dir_in value e =
    error_new ("can not find backup directory in " <> value <> ", error: " <> error_text e)

pub error_not_found_backup_dir_in : String → Error
error_not_found_backup_dir_in value = error_new ("no backup directory found in " <> value)

pub error_several_found_backup_dir_in : String → Error
error_several_found_backup_dir_in value = error_new ("several backup directory found in " <> value)
