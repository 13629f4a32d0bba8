-- ===== src/Config/Status.antt =====
-- The status of a backup, and whether it is shown: struct.go, utils.go, utils_file.go.
use gpbackman.Base.{String, Bool, true, false, ◌&&◌, ◌||◌, not, if◌then◌else◌, ◌==◌}
use gpbackman.Go.Result.{error_new, Result, ok, err}
use gpbackman.Config.{
  BackupConfig, backup_status_success, backup_status_failure, backup_status_in_progress,
  date_deleted_in_progress, date_deleted_plugin_failed, date_deleted_local_failed,
}

unfoldable pub is_success : BackupConfig → Result Bool
is_success b =
    if b.status == backup_status_success
    then ok true
    else if b.status == backup_status_failure || b.status == backup_status_in_progress
    then ok false
    else err (error_new "backup status does not match any of the available values")

unfoldable pub is_local : BackupConfig → Bool
is_local b = b.plugin == ""

unfoldable pub is_in_progress : BackupConfig → Bool
is_in_progress b = b.status == backup_status_in_progress

unfoldable pub is_backup_active : String → Bool
is_backup_active date_deleted =
    date_deleted == ""
    || (date_deleted == date_deleted_plugin_failed || date_deleted == date_deleted_local_failed)

unfoldable pub check_backup_can_be_displayed : Bool → Bool → String → String → Bool
unfolding is_backup_active
check_backup_can_be_displayed show_d show_f status date_deleted =
    if show_d && show_f
    then true
    else if show_d && not show_f
    then (if not (status == backup_status_failure) then true else false)
    else if not show_d && show_f
    then (if is_backup_active date_deleted then true else false)
    else (if not (status == backup_status_failure)
          && (is_backup_active date_deleted || date_deleted == date_deleted_in_progress)
        then true
        else false)
