-- ===== src/Cmd/Commands/ReadOnly.antt =====
-- backup-info and report-info do not write the history database.
use gpbackman.Base.{
  not, ◌==◌, if◌then◌else◌, ◌≡◌, refl, String, Bool, true, false, List, [], ◌∷◌, Option, none, some,
}
use gpbackman.Go.Result.{Error}
use gpbackman.Go.Exec.{◌>>=◌}
use gpbackman.Go.Exec.Rules.{
  Keeps, Keeps-pure, Keeps-lift, Keeps-if, Keeps-bind, Keeps-on_error, keeps_rules,
}
use gpbackman.Sql.Meaning.{Tables}
use gpbackman.Config.{BackupConfig}
use gpbackman.Host.{Host, Process, PluginConfig}
use gpbackman.Host.Laws.{IsSqlite, IsSeparate}
use gpbackman.Db.{get_backup_names_db}
use gpbackman.Cmd.Frame.{Of, kept, log_kept, get_backup_data_db_kept, get_backup_master_dir_kept}
use gpbackman.Cmd.Chain.Kept.{exec_query_func_kept, dependencies_kept, check_kept, log_if_kept}
use gpbackman.Cmd.Flags.{RootOptions}
use gpbackman.Cmd.Flags.Info.{BackupInfoOptions}
use gpbackman.Cmd.Flags.Report.{ReportInfoOptions}
use gpbackman.Cmd.Info.{
  TableRow, Filters, no_filters, log_unreadable, add_backup_to_table, show_backup, show_backups,
  list_backups, list_chain, backup_info_db,
}
use gpbackman.Cmd.Info.Rows.{filters_of}
use gpbackman.Cmd.Report.{
  print_line, exec_report_info, ended, show_output, report_from_plugin, report_info_plugin_func,
  report_info_db_plugin, report_from_file, report_info_file_local_func, report_info_db_local,
}
use gpbackman.Cmd.Commands.Around.{open_kept, with_deferred_close_kept}
use gpbackman.Cmd.Commands.{plugin_config_of, render_table, backup_info, report_info}

module _ (H : Host) (L : IsSqlite H) (S : IsSeparate H L.committed) (P : Tables → Type 0) where
  add_kept :
      (f : Filters) (details : Bool) (b : BackupConfig) (rows : List TableRow)
      → Keeps (Of H L S P) (add_backup_to_table H f details b rows)
  unfolding add_backup_to_table log_unreadable
  add_kept f details b rows = Keeps-bind _ _ (log_if_kept H L S P _ _) λ _.
      Keeps-bind _ _ (log_if_kept H L S P _ _) λ _. Keeps-bind _ _ (log_if_kept H L S P _ _) λ _.
        Keeps-bind _ _ (log_if_kept H L S P _ _)
          λ _. Keeps-bind _ _ (log_if_kept H L S P _ _) λ _. Keeps-pure _

  show_backup_kept :
      (f : Filters) (details : Bool) (name : String) (rows : List TableRow)
      → Keeps (Of H L S P) (show_backup H f details name rows)
  unfolding show_backup
  show_backup_kept f details name rows =
      Keeps-bind _ _
        (Keeps-on_error _ _ (get_backup_data_db_kept H L S P name) (λ e. log_kept H L S P _ _))
        λ b. add_kept f details b rows

  show_backups_kept :
      (f : Filters) (details : Bool) (names : List String) (rows : List TableRow)
      → Keeps (Of H L S P) (show_backups H f details names rows)
  unfolding show_backups
  show_backups_kept f details [] rows = Keeps-pure rows
  show_backups_kept f details (name ∷ names) rows =
      Keeps-bind _ _ (show_backup_kept f details name rows)
        λ more. show_backups_kept f details names more

  list_backups_kept : (options : BackupInfoOptions) → Keeps (Of H L S P) (list_backups H options)
  unfolding list_backups get_backup_names_db
  list_backups_kept options =
      Keeps-bind _ _
        (Keeps-on_error _ _ (exec_query_func_kept H L S P _) (λ e. log_kept H L S P _ _))
        λ names. show_backups_kept (filters_of options) options.show_details names []

  list_chain_kept : (options : BackupInfoOptions) → Keeps (Of H L S P) (list_chain H options)
  unfolding list_chain
  list_chain_kept options =
      Keeps-bind _ _ (show_backup_kept no_filters options.show_details options.timestamp []) λ rows.
        Keeps-bind _ _
          (Keeps-on_error _ _ (dependencies_kept H L S P _) (λ e. log_kept H L S P _ _))
          λ names. show_backups_kept no_filters options.show_details names rows

  backup_info_db_kept :
      (options : BackupInfoOptions) → Keeps (Of H L S P) (backup_info_db H options)
  unfolding backup_info_db
  backup_info_db_kept options = search (keeps_rules, list_backups_kept, list_chain_kept)

  print_kept : (line : String) → Keeps (Of H L S P) (print_line H line)
  unfolding print_line
  print_kept line = kept H L S P (print_line H line) (S.print_keeps line)

  ended_kept :
      (b : BackupConfig) (out : String) (e : Option Error) → Keeps (Of H L S P) (ended H b out e)
  unfolding ended
  ended_kept b out none = print_kept out
  ended_kept b out (some e) = search (keeps_rules, log_kept H L S P)

  show_output_kept : (b : BackupConfig) (p : Process) → Keeps (Of H L S P) (show_output H b p)
  unfolding show_output
  show_output_kept b p = search (keeps_rules, log_kept H L S P, ended_kept)

  exec_kept : (a b c d : String) → Keeps (Of H L S P) (exec_report_info H a b c d)
  unfolding exec_report_info
  exec_kept a b c d =
      kept H L S P (exec_report_info H a b c d) (S.run_command_keeps (a ∷ b ∷ c ∷ d ∷ []))

  from_plugin_kept :
      (b : BackupConfig) (path config_path : String) (config : PluginConfig)
      → Keeps (Of H L S P) (report_from_plugin H b path config_path config)
  unfolding report_from_plugin
  from_plugin_kept b path config_path config =
      search (keeps_rules, log_kept H L S P, exec_kept, show_output_kept)

  from_file_kept : (b : BackupConfig) (dir : String) → Keeps (Of H L S P) (report_from_file H b dir)
  unfolding report_from_file
  from_file_kept b dir =
      Keeps-bind _ _
        (Keeps-on_error _ _ (get_backup_master_dir_kept H L S P _ _ _) (λ e. log_kept H L S P _ _))
        λ d. Keeps-bind _ _ (log_kept H L S P _ _) λ _. Keeps-bind _ _ (log_kept H L S P _ _) λ _.
          Keeps-bind _ _ (Keeps-lift _) λ joined. Keeps-bind _ _ (log_kept H L S P _ _) λ _.
            Keeps-bind _ _
              (Keeps-on_error _ _ (kept H L S P (H.read_file _) (S.read_file_keeps _))
                (λ e. log_kept H L S P _ _))
              print_kept

  report_plugin_kept :
      (name path config_path : String) (config : PluginConfig)
      → Keeps (Of H L S P) (report_info_db_plugin H name path config_path config)
  unfolding report_info_db_plugin report_info_plugin_func
  report_plugin_kept name path config_path config =
      Keeps-bind _ _
        (Keeps-on_error _ _ (get_backup_data_db_kept H L S P name) (λ e. log_kept H L S P _ _))
        λ b. Keeps-bind _ _ (check_kept H L S P false true b) λ answer.
          Keeps-if answer _ _ (λ _. from_plugin_kept b path config_path config) (λ _. Keeps-pure tt)

  report_local_kept : (name dir : String) → Keeps (Of H L S P) (report_info_db_local H name dir)
  unfolding report_info_db_local report_info_file_local_func
  report_local_kept name dir =
      Keeps-bind _ _
        (Keeps-on_error _ _ (get_backup_data_db_kept H L S P name) (λ e. log_kept H L S P _ _))
        λ b.
          Keeps-bind _ _ (check_kept H L S P false false b)
            λ answer. Keeps-if answer _ _ (λ _. from_file_kept b dir) (λ _. Keeps-pure tt)

  render_kept :
      (details : Bool) (rows : List TableRow) → Keeps (Of H L S P) (render_table H details rows)
  unfolding render_table
  render_kept details rows = kept H L S P (render_table H details rows) (S.render_keeps _ rows)

  config_kept : (file : String) → Keeps (Of H L S P) (H.read_plugin_config file)
  config_kept file = kept H L S P (H.read_plugin_config file) (S.read_plugin_config_keeps file)

  backup_info_kept :
      (root : RootOptions) (options : BackupInfoOptions)
      → Keeps (Of H L S P) (backup_info H root options)
  unfolding backup_info
  backup_info_kept root options = Keeps-bind _ _ (open_kept H L S P root.history_db) λ _.
      with_deferred_close_kept H L S P _
        (Keeps-bind _ _ (backup_info_db_kept options) (λ rows. render_kept _ rows))

  report_work_kept :
      (options : ReportInfoOptions) (with_plugin : Bool)
      → Keeps (Of H L S P) (
          if with_plugin
          then (plugin_config_of H options.plugin_config_file >>= λ config.
              report_info_db_plugin H options.timestamp options.report_file_plugin_path
                options.plugin_config_file config)
          else report_info_db_local H options.timestamp options.backup_dir)
  report_work_kept options true =
      Keeps-bind _ _ (Keeps-on_error _ _ (config_kept _) (λ e. log_kept H L S P _ _))
        λ config. report_plugin_kept _ _ _ config
  report_work_kept options false = report_local_kept _ _

  report_info_kept :
      (root : RootOptions) (options : ReportInfoOptions)
      → Keeps (Of H L S P) (report_info H root options)
  unfolding report_info
  report_info_kept root options = Keeps-bind _ _ (open_kept H L S P root.history_db) λ _.
      with_deferred_close_kept H L S P _
        (report_work_kept options (not (options.plugin_config_file == "")))

-- backup-info leaves the committed tables as they were, however it ends.
pub backup_info-ReadOnly :
    (H : Host) (L : IsSqlite H) (S : IsSeparate H L.committed) (root : RootOptions)
    (options : BackupInfoOptions) (w : H.World)
    → L.committed (backup_info H root options w).1 ≡ L.committed w
backup_info-ReadOnly H L S root options w =
    (backup_info_kept H L S (λ now. now ≡ L.committed w) root options).at w refl

-- report-info leaves the committed tables as they were, however it ends, for a local backup and for
-- one in a plugin's storage.
pub report_info-ReadOnly :
    (H : Host) (L : IsSqlite H) (S : IsSeparate H L.committed) (root : RootOptions)
    (options : ReportInfoOptions) (w : H.World)
    → L.committed (report_info H root options w).1 ≡ L.committed w
report_info-ReadOnly H L S root options w =
    (report_info_kept H L S (λ now. now ≡ L.committed w) root options).at w refl
