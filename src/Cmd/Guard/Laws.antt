-- ===== src/Cmd/Guard/Laws.antt =====
-- When a backup can be used.
use gpbackman.Base.{
  ap, ◌∙◌, ◌≡◌, refl, inl, inr, String, Bool, true, false, ◌&&◌, ◌||◌, not, Option, none, some,
  if◌then◌else◌, ◌==◌, Bool-cases,
}
use gpbackman.Go.Result.{Error, Result, ok, err}
use gpbackman.Go.Exec.{Exec, pure, on_error, ◌>>=◌, ◌>>◌}
use gpbackman.Config.{BackupConfig, date_deleted_in_progress}
use gpbackman.Config.Status.{is_local, is_in_progress, is_backup_active}
use gpbackman.Config.Dates.{get_backup_date_deleted}
use gpbackman.Host.{Host}
use gpbackman.Host.Actions.{write_log, log_error}
use gpbackman.Go.Exec.Steps.{bind_ok}
use gpbackman.TextMsg.{
  error_backup_local_storage_error, error_backup_not_local_storage_error,
  error_text_unable_get_backup_value, info_text_backup_status,
}
use gpbackman.Cmd.Guard.{
  check_local_backup_status, check_date_deleted, check_backup_can_be_used, log_if, log_inactive,
  is_error,
}

-- The answer, without the log: an error where the storage is not the expected one; then no for a
-- backup that is still being made, unless forced; then yes where it is forced, or its deletion date
-- is one of an active backup or cannot be read.
abbrev pub usable : Bool → Bool → BackupConfig → Result Bool
usable force skip b =
    if skip && is_local b
    then err error_backup_local_storage_error
    else if not skip && not (is_local b)
    then err error_backup_not_local_storage_error
    else if is_in_progress b && not force
    then ok false
    else ok (
        if force
        then true
        else is_backup_active (get_backup_date_deleted b).0
          || is_error (get_backup_date_deleted b).1)

module _ (H : Host) where
  pub log_if_ok :
      (e : Option Error) (text : Error → String) (w : H.World) → (log_if H e text w).0 ≡ ok tt
  unfolding log_if write_log ◌>>=◌
  log_if_ok none text w = refl
  log_if_ok (some e) text w = refl

  log_inactive_ok :
      (b : BackupConfig) (date : String) (q : Bool) (w : H.World)
      → ((if q then pure tt else log_inactive H b date) w).0 ≡ ok tt
  unfolding log_inactive write_log ◌>>=◌
  log_inactive_ok b date true w = refl
  log_inactive_ok b date false w = elim (Bool-cases (date == date_deleted_in_progress)) [
    | inl e ↦ rw e
    | inr e ↦ rw e
  ]

  abbrev answer : Bool → BackupConfig → Bool
  answer force b =
      if force
      then true
      else is_backup_active (get_backup_date_deleted b).0 || is_error (get_backup_date_deleted b).1

  check_date_deleted_lem :
      (force : Bool) (b : BackupConfig) (w : H.World)
      → (check_date_deleted H force b w).0 ≡ ok (answer force b)
  unfolding check_date_deleted ◌>>=◌
  check_date_deleted_lem force b w =
      let q =
        is_backup_active (get_backup_date_deleted b).0 || is_error (get_backup_date_deleted b).1 in
      let log1 =
        log_if H (get_backup_date_deleted b).1
          (λ x. error_text_unable_get_backup_value "date deletion" b.timestamp x) in
      let log2 : Exec H.World (Unit {0}) =
        if q then pure tt else log_inactive H b (get_backup_date_deleted b).0 in
      ap (λ out. out.0)
        (bind_ok log1 (λ _. log2 >>= λ _. pure (answer force b)) w (log_if_ok _ _ w)
          ∙ bind_ok log2 (λ _. pure (answer force b)) (log1 w).1
              (log_inactive_ok b (get_backup_date_deleted b).0 q (log1 w).1))

  -- The check from the status on.
  from_status :
      (force : Bool) (b : BackupConfig) (w : H.World)
      → ((if is_in_progress b && not force
            then (do log_error H (info_text_backup_status b.timestamp b.status); pure false)
            else check_date_deleted H force b)
          w).0
        ≡ (if is_in_progress b && not force then ok false else ok (answer force b))
  unfolding write_log ◌>>=◌
  from_status force b w = elim (Bool-cases (is_in_progress b && not force)) [
    | inl e ↦ rw e refl
    | inr e ↦ rw e (check_date_deleted_lem force b w)
  ]

  -- Whether a backup can be used depends on its record alone, and the answer is as `usable` says.
  pub check_backup_can_be_used_lem :
      (force skip : Bool) (b : BackupConfig) (w : H.World)
      → (check_backup_can_be_used H force skip b w).0 ≡ usable force skip b
  unfolding check_backup_can_be_used check_local_backup_status on_error write_log ◌>>=◌
  check_backup_can_be_used_lem force true b w = elim (Bool-cases (is_local b)) [
    | inl e ↦ rw e refl
    | inr e ↦ rw e (from_status force b w)
  ]
  check_backup_can_be_used_lem force false b w = elim (Bool-cases (is_local b)) [
    | inl e ↦ rw e (from_status force b w)
    | inr e ↦ rw e refl
  ]
