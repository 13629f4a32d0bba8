-- ===== src/Cmd/Commands.antt =====
-- The commands as a whole: their flags are checked, the history database is opened, the command's
-- work done and the database closed. An error ends the program with exit code 1.
pub mod Around
pub mod ReadOnly
pub mod Clean
pub mod Delete
use gpbackman.Base.{
  ℕ, String, ◌<>◌, Bool, true, false, not, List, [], ◌∷◌, if◌then◌else◌, ◌==◌, join,
}
use gpbackman.Go.Result.{Error, Result, ok, err, panic, Try, done, failed}
use gpbackman.Go.Exec.{Exec, pure, attempt, on_error, ◌>>=◌, ◌>>◌}
use gpbackman.TextMsg
use gpbackman.Host.{Host, PluginConfig}
use gpbackman.Host.Actions.{log_error, log_debug}
use gpbackman.Cmd.Guard.{log_failed}
use gpbackman.Cmd.Segments.{closed_channel}
use gpbackman.Cmd.Flags.{RootOptions, get_history_db_path}
use gpbackman.Cmd.Flags.Delete.{BackupDeleteOptions}
use gpbackman.Cmd.Flags.Clean.{BackupCleanOptions, CutOffs}
use gpbackman.Cmd.Flags.Info.{BackupInfoOptions}
use gpbackman.Cmd.Flags.Report.{ReportInfoOptions}
use gpbackman.Cmd.Chain.{backup_delete_db_plugin, backup_delete_db_local}
use gpbackman.Cmd.Clean.{backup_clean_db_plugin, backup_clean_db_local, history_clean_db}
use gpbackman.Cmd.Info.{init_table, backup_info_db}
use gpbackman.Cmd.Report.{report_info_db_plugin, report_info_db_local}
use gpbackman.Cmd.Migrate.{migrate_files}

module _ (H : Host) where
  -- hDB.Close(), and the log line where it fails.
  unfoldable pub close_history_db : Exec H.World (Unit {0})
  close_history_db = do
    t ← attempt H.close_db
    log_failed H t (TextMsg.error_text_unable_action_history_db "close")

  -- What a function returns after its deferred call, which runs on every way out of the function.
  abbrev pub after_deferred {ℓ} : {A : Type ℓ} → Result A → Result (Unit {0}) → Result A
  after_deferred r (ok u) = r
  after_deferred r (err e) = r
  after_deferred r (panic p) = panic p

  -- A send on a closed channel is made by a segment worker, in a goroutine of its own, where a panic
  -- ends the process at once. Every other panic of the model is one of the main goroutine.
  abbrev pub ends_process : {A : Type 0} → Result A → Bool
  ends_process (ok a) = false
  ends_process (err e) = false
  ends_process (panic p) = p == closed_channel

  unfoldable pub with_deferred_close : {A : Type 0} → Exec H.World A → Exec H.World A
  unfolding close_history_db
  with_deferred_close body w =
      let (r, w') = body w in
      let (c, w'') = close_history_db w' in
      if ends_process r then (r, w') else (after_deferred r c, w'')

  -- OpenHistoryDB, with the log line where it fails.
  unfoldable pub open_history_db : String → Exec H.World (Unit {0})
  open_history_db path =
      on_error (H.open_db (get_history_db_path path))
        (λ e. log_error H (TextMsg.error_text_unable_action_history_db "open" e))

  unfoldable pub delete_backup : RootOptions → BackupDeleteOptions → Exec H.World (Unit {0})
  unfolding open_history_db with_deferred_close
  delete_backup root options = do
    open_history_db root.history_db
    with_deferred_close (
        if not (options.plugin_config_file == "")
        then (do
          config ← H.read_plugin_config options.plugin_config_file
          backup_delete_db_plugin H options.timestamps options.cascade options.force
              options.ignore_errors options.plugin_config_file config)
        else backup_delete_db_local H options.timestamps options.backup_dir options.cascade
            options.force options.ignore_errors)

  abbrev pub plugin_config_of : String → Exec H.World PluginConfig
  plugin_config_of file =
      on_error (H.read_plugin_config file)
        (λ e. log_error H (TextMsg.error_text_unable_read_plugin_config_file e))

  unfoldable pub clean_backup : RootOptions → BackupCleanOptions → CutOffs → Exec H.World (Unit {0})
  unfolding open_history_db with_deferred_close
  clean_backup root options cut_offs = do
    open_history_db root.history_db
    with_deferred_close (
        if not (options.plugin_config_file == "")
        then (do
          config ← plugin_config_of options.plugin_config_file
          backup_clean_db_plugin H options.cascade cut_offs.before cut_offs.after
              options.plugin_config_file config)
        else backup_clean_db_local H options.cascade cut_offs.before cut_offs.after
            options.backup_dir)

  unfoldable pub clean_history : RootOptions → String → Exec H.World (Unit {0})
  unfolding open_history_db with_deferred_close
  clean_history root before_timestamp = do
    open_history_db root.history_db
    with_deferred_close (history_clean_db H before_timestamp)

  -- t.Render()
  unfoldable pub render_table : Bool → List (List String) → Exec H.World (Unit {0})
  unfolding init_table
  render_table show_details rows w = (ok tt, H.render (init_table show_details) rows w)

  unfoldable pub backup_info : RootOptions → BackupInfoOptions → Exec H.World (Unit {0})
  unfolding open_history_db with_deferred_close render_table
  backup_info root options = do
    open_history_db root.history_db
    with_deferred_close (do rows ← backup_info_db H options; render_table options.show_details rows)

  unfoldable pub report_info : RootOptions → ReportInfoOptions → Exec H.World (Unit {0})
  unfolding open_history_db with_deferred_close
  report_info root options = do
    open_history_db root.history_db
    with_deferred_close (
        if not (options.plugin_config_file == "")
        then (do
          config ← plugin_config_of options.plugin_config_file
          report_info_db_plugin H options.timestamp options.report_file_plugin_path
              options.plugin_config_file config)
        else report_info_db_local H options.timestamp options.backup_dir)

  unfoldable pub migrate_history : RootOptions → List String → Exec H.World (Unit {0})
  unfolding with_deferred_close
  migrate_history root history_files = do
    on_error (H.initialize_history_database (get_history_db_path root.history_db))
        (λ e. log_error H (TextMsg.error_text_unable_init_history_db e))
    with_deferred_close (migrate_files H history_files)

  unfoldable pub log_headers_debug : RootOptions → Exec H.World (Unit {0})
  log_headers_debug root w =
      (do
        log_debug H ("Start gpbackman version " <> H.version w)
        log_debug H ("Use console log level: " <> root.log_level_console)
        log_debug H ("Use file log level: " <> root.log_level_file)
        log_debug H ("gpbackman command: [" <> join (H.args w) " " <> "]"))
        w
