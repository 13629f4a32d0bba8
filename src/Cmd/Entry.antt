-- ===== src/Cmd/Entry.antt =====
-- The `Run` function of each command, and the functions that end the program where the command
-- returned an error.
use gpbackman.Base.{String, true, false, List}
use gpbackman.Go.Result.{Result, ok, err, panic}
use gpbackman.Go.Exec.{Exec}
use gpbackman.Go.Program.{Outcome, returned, exit, crash, Program, ◌>>=◌, ◌>>◌}
use gpbackman.Host.{Host}
use gpbackman.Cmd.Flags.{Changed, RootOptions, do_root_flag_validation}
use gpbackman.Cmd.Flags.Delete.{BackupDeleteOptions, do_delete_backup_flag_validation}
use gpbackman.Cmd.Flags.Clean.{
  BackupCleanOptions, HistoryCleanOptions, CutOffs, do_clean_backup_flag_validation,
  do_clean_history_flag_validation,
}
use gpbackman.Cmd.Flags.Info.{BackupInfoOptions, do_backup_info_flag_validation}
use gpbackman.Cmd.Flags.Report.{
  ReportInfoOptions, do_report_info_flag_validation, do_history_migrate_flag_validation,
}
use gpbackman.Cmd.Commands.{
  log_headers_debug, delete_backup, clean_backup, clean_history, backup_info, report_info,
  migrate_history,
}

abbrev pub ended_as : Result (Unit {0}) → Outcome (Unit {0})
ended_as (ok u) = returned tt
ended_as (err e) = exit 1
ended_as (panic p) = crash p

module _ (H : Host) where
  -- `err := call(); if err != nil { execOSExit(exitErrorCode) }`
  unfoldable pub call_or_exit : Exec H.World (Unit {0}) → Program H.World (Unit {0})
  call_or_exit call w = let (r, w') = call w in (ended_as r, w')

  -- The log lines at the start, and the call.
  unfoldable pub start_command : RootOptions → Exec H.World (Unit {0}) → Program H.World (Unit {0})
  unfolding call_or_exit
  start_command root call = do call_or_exit (log_headers_debug H root); call_or_exit call

  unfoldable pub do_delete_backup : RootOptions → BackupDeleteOptions → Program H.World (Unit {0})
  unfolding start_command
  do_delete_backup root options = start_command root (delete_backup H root options)

  unfoldable pub do_clean_backup :
      RootOptions → BackupCleanOptions → CutOffs → Program H.World (Unit {0})
  unfolding start_command
  do_clean_backup root options cut_offs = start_command root (clean_backup H root options cut_offs)

  unfoldable pub do_clean_history : RootOptions → String → Program H.World (Unit {0})
  unfolding start_command
  do_clean_history root before_timestamp =
      start_command root (clean_history H root before_timestamp)

  unfoldable pub do_backup_info : RootOptions → BackupInfoOptions → Program H.World (Unit {0})
  unfolding start_command
  do_backup_info root options = start_command root (backup_info H root options)

  unfoldable pub do_report_info : RootOptions → ReportInfoOptions → Program H.World (Unit {0})
  unfolding start_command
  do_report_info root options = start_command root (report_info H root options)

  unfoldable pub do_migrate_history : RootOptions → List String → Program H.World (Unit {0})
  unfolding start_command
  do_migrate_history root history_files = start_command root (migrate_history H root history_files)

  unfoldable pub run_backup_delete :
      Changed → RootOptions → BackupDeleteOptions → Program H.World (Unit {0})
  unfolding do_delete_backup
  run_backup_delete changed root options = do
    do_root_flag_validation H changed true root
    do_delete_backup_flag_validation H changed options
    do_delete_backup root options

  unfoldable pub run_backup_clean :
      Changed → RootOptions → BackupCleanOptions → Program H.World (Unit {0})
  unfolding do_clean_backup
  run_backup_clean changed root options = do
    do_root_flag_validation H changed true root
    cut_offs ← do_clean_backup_flag_validation H changed options
    do_clean_backup root options cut_offs

  unfoldable pub run_history_clean :
      Changed → RootOptions → HistoryCleanOptions → Program H.World (Unit {0})
  unfolding do_clean_history
  run_history_clean changed root options = do
    do_root_flag_validation H changed true root
    before ← do_clean_history_flag_validation H changed options
    do_clean_history root before

  unfoldable pub run_backup_info :
      Changed → RootOptions → BackupInfoOptions → Program H.World (Unit {0})
  unfolding do_backup_info
  run_backup_info changed root options = do
    do_root_flag_validation H changed true root
    do_backup_info_flag_validation H changed options
    do_backup_info root options

  unfoldable pub run_report_info :
      Changed → RootOptions → ReportInfoOptions → Program H.World (Unit {0})
  unfolding do_report_info
  run_report_info changed root options = do
    do_root_flag_validation H changed true root
    do_report_info_flag_validation H changed options
    do_report_info root options

  -- The database need not exist.
  unfoldable pub run_history_migrate :
      Changed → RootOptions → List String → Program H.World (Unit {0})
  unfolding do_migrate_history
  run_history_migrate changed root history_files = do
    do_root_flag_validation H changed false root
    do_history_migrate_flag_validation H changed history_files
    do_migrate_history root history_files
