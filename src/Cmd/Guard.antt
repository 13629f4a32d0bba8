-- ===== src/Cmd/Guard.antt =====
-- Whether a backup can be used: cmd/wrappers.go.
pub mod Laws
pub mod Kept
pub mod Deleted
use gpbackman.Base.{
  String, Bool, true, false, ◌&&◌, ◌||◌, not, Option, none, some, if◌then◌else◌, ◌==◌,
}
use gpbackman.Go.Result.{Error, Result, ok, err, Try, done, failed}
use gpbackman.Go.Exec.{Exec, pure, lift, attempt, on_error, ◌>>=◌, ◌>>◌}
use gpbackman.TextMsg.{
  error_backup_local_storage_error, error_backup_not_local_storage_error,
  error_text_unable_work_backup, info_text_backup_status, error_text_unable_get_backup_value,
  error_text_backup_delete_in_progress, error_backup_delete_in_progress_error,
  info_text_backup_already_deleted, error_text_unable_set_backup_status,
}
use gpbackman.Config.{BackupConfig, date_deleted_in_progress}
use gpbackman.Config.Status.{is_local, is_in_progress, is_backup_active}
use gpbackman.Config.Dates.{get_backup_date_deleted}
use gpbackman.Host.{Host}
use gpbackman.Host.Actions.{log_error, log_debug}
use gpbackman.Db.{update_delete_status}

unfoldable pub check_local_backup_status : Bool → Bool → Result (Unit {0})
check_local_backup_status skip_local_backup is_local_backup =
    if skip_local_backup && is_local_backup
    then err error_backup_local_storage_error
    else if not skip_local_backup && not is_local_backup
    then err error_backup_not_local_storage_error
    else ok tt

abbrev pub is_error : Option Error → Bool
is_error none = false
is_error (some e) = true

module _ (H : Host) where
  -- `if err != nil { gplog.Error(text(err)) }`
  unfoldable pub log_if : Option Error → (Error → String) → Exec H.World (Unit {0})
  log_if none text = pure tt
  log_if (some e) text = log_error H (text e)

  -- The log lines for a backup that is not active.
  unfoldable pub log_inactive : BackupConfig → String → Exec H.World (Unit {0})
  log_inactive b date =
      if date == date_deleted_in_progress
      then log_error H
          (error_text_backup_delete_in_progress b.timestamp error_backup_delete_in_progress_error)
      else log_debug H (info_text_backup_already_deleted b.timestamp)

  -- The part from the deletion date on.
  unfoldable pub check_date_deleted : Bool → BackupConfig → Exec H.World Bool
  check_date_deleted delete_force b =
      let (date, e) = get_backup_date_deleted b in
      do
        log_if e (λ x. error_text_unable_get_backup_value "date deletion" b.timestamp x)
        let usable = is_backup_active date || is_error e
        if usable then pure tt else log_inactive b date
        pure (if delete_force then true else usable)

  unfoldable pub check_backup_can_be_used : Bool → Bool → BackupConfig → Exec H.World Bool
  check_backup_can_be_used delete_force skip_local_backup b = do
    on_error (lift (check_local_backup_status skip_local_backup (is_local b)))
        (λ e. log_error H (error_text_unable_work_backup b.timestamp e))
    if is_in_progress b && not delete_force
        then (do log_error H (info_text_backup_status b.timestamp b.status); pure false)
        else check_date_deleted delete_force b

  abbrev pub log_failed : Try (Unit {0}) → (Error → String) → Exec H.World (Unit {0})
  log_failed (done a) text = pure tt
  log_failed (failed e) text = log_error H (text e)

  unfoldable pub handle_error_db : String → String → String → Exec H.World (Unit {0})
  handle_error_db backup_name error_message backup_status = do
    log_error H error_message
    t ← attempt (update_delete_status H backup_name backup_status)
    log_failed t (error_text_unable_set_backup_status backup_status backup_name)
