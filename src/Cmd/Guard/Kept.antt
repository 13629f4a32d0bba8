-- ===== src/Cmd/Guard/Kept.antt =====
-- The check of a backup keeps what writing to the log keeps.
use gpbackman.Base.{Option, none, some, String, Bool}
use gpbackman.Go.Result.{Error}
use gpbackman.Go.Exec.Rules.{Keeps, Keeps-pure, Keeps-lift, Keeps-bind, Keeps-on_error, keeps_rules}
use gpbackman.Config.{BackupConfig}
use gpbackman.Host.{Host, Level}
use gpbackman.Host.Actions.{write_log}
use gpbackman.Cmd.Guard.{check_backup_can_be_used, check_date_deleted, log_if, log_inactive}

module _ (H : Host) (Q : H.World → Type 0)
    (quiet : (l : Level) (text : String) → Keeps Q (write_log H l text)) where
  pub log_if_quiet : (e : Option Error) (text : Error → String) → Keeps Q (log_if H e text)
  unfolding log_if
  log_if_quiet none text = Keeps-pure tt
  log_if_quiet (some e) text = quiet _ _

  log_inactive_quiet : (b : BackupConfig) (date : String) → Keeps Q (log_inactive H b date)
  unfolding log_inactive
  log_inactive_quiet b date = search (keeps_rules, quiet)

  check_date_deleted_quiet :
      (force : Bool) (b : BackupConfig) → Keeps Q (check_date_deleted H force b)
  unfolding check_date_deleted
  check_date_deleted_quiet force b = search (keeps_rules, log_if_quiet, log_inactive_quiet)

  pub check_quiet :
      (force skip : Bool) (b : BackupConfig) → Keeps Q (check_backup_can_be_used H force skip b)
  unfolding check_backup_can_be_used
  check_quiet force skip b =
      Keeps-bind _ _ (Keeps-on_error _ _ (Keeps-lift _) (λ e. quiet _ _))
        λ _. search (keeps_rules, quiet, check_date_deleted_quiet)
