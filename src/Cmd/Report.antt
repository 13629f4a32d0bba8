-- ===== src/Cmd/Report.antt =====
-- report-info: cmd/report_info.go and GetReportFilePathPlugin of gpbckpconfig/struct.go.
pub mod Logged
pub mod Local
pub mod Plugin
use gpbackman.Base.{
  String, Bool, true, false, not, Option, none, some, List, [], ◌∷◌, if◌then◌else◌, ◌==◌,
}
use gpbackman.Go.Result.{Error, error_new, Result, ok, err}
use gpbackman.Go.Exec.{Exec, pure, raise, lift, on_error, ◌>>=◌, ◌>>◌}
use gpbackman.TextMsg
use gpbackman.Paths.{
  Options, backup_plugin_custom_report_path, backup_s3_plugin_report_path, report_file_path,
}
use gpbackman.Paths.FilePath.{clean}
use gpbackman.Config.{BackupConfig, backup_s3_plugin}
use gpbackman.Host.{Host, Process, PluginConfig}
use gpbackman.Host.Actions.{log_error, log_debug}
use gpbackman.Db.{get_backup_data_db}
use gpbackman.Cmd.Guard.{check_backup_can_be_used}
use gpbackman.Cmd.Dirs.{get_backup_master_dir}

unfoldable pub get_report_file_path_plugin : BackupConfig → String → Options → Result String
get_report_file_path_plugin b custom_report_path plugin_options =
    if not (custom_report_path == "")
    then ok (backup_plugin_custom_report_path b.timestamp custom_report_path)
    else if b.plugin == backup_s3_plugin
    then backup_s3_plugin_report_path b.timestamp plugin_options
    else err (error_new "the path to the report is not specified")

module _ (H : Host) where
  -- fmt.Println
  unfoldable pub print_line : String → Exec H.World (Unit {0})
  print_line line w = (ok tt, H.print line w)

  unfoldable pub exec_report_info : String → String → String → String → Exec H.World Process
  exec_report_info executable command config_file file w =
      let (p, w') = H.run_command (executable ∷ command ∷ config_file ∷ file ∷ []) w in (ok p, w')

  -- `if err != nil { ... }; fmt.Println(stdout)`
  unfoldable pub ended : BackupConfig → String → Option Error → Exec H.World (Unit {0})
  unfolding print_line
  ended b stdout none = print_line stdout
  ended b stdout (some e) = do
    log_error H (TextMsg.error_text_unable_get_backup_report b.timestamp e)
    raise e

  -- `if stderr != "" { ... }`, and what comes after it.
  unfoldable pub show_output : BackupConfig → Process → Exec H.World (Unit {0})
  unfolding ended
  show_output b p = do
    if not (p.stderr == "") then log_error H p.stderr else pure tt
    ended b p.stdout p.run_error

  -- reportInfoPluginFunc, for a backup that can be used.
  unfoldable pub report_from_plugin :
      BackupConfig → String → String → PluginConfig → Exec H.World (Unit {0})
  unfolding get_report_file_path_plugin exec_report_info show_output
  report_from_plugin b report_path config_path config = do
    file ←
        on_error (lift (get_report_file_path_plugin b report_path config.options))
          (λ e. log_error H (TextMsg.error_text_unable_get_backup_path "report" b.timestamp e))
    log_debug H (
        TextMsg.info_text_command_execution
          (config.executable_path ∷ "restore_data" ∷ config_path ∷ file ∷ []))
    p ← exec_report_info config.executable_path "restore_data" config_path file
    show_output b p

  -- The second argument is the option with the path of the report in the plugin's storage.
  unfoldable pub report_info_plugin_func :
      BackupConfig → String → String → PluginConfig → Exec H.World (Unit {0})
  unfolding report_from_plugin
  report_info_plugin_func b report_path config_path config = do
    can_get_report ← check_backup_can_be_used H false true b
    if can_get_report then report_from_plugin b report_path config_path config else pure tt

  unfoldable pub report_info_db_plugin :
      String → String → String → PluginConfig → Exec H.World (Unit {0})
  unfolding report_info_plugin_func
  report_info_db_plugin name report_path config_path config = do
    b ←
        on_error (get_backup_data_db H name)
          (λ e. log_error H (TextMsg.error_text_unable_get_backup_info name e))
    report_info_plugin_func b report_path config_path config

  -- reportInfoFileLocalFunc, for a backup that can be used.
  unfoldable pub report_from_file : BackupConfig → String → Exec H.World (Unit {0})
  unfolding print_line
  report_from_file b backup_dir = do
    dir ← on_error (get_backup_master_dir H backup_dir b.backup_dir b.database_name) (λ e.
        log_error H (TextMsg.error_text_unable_get_backup_path "backup directory" b.timestamp e))
    log_debug H (TextMsg.info_text_backup_dir_path dir.dir)
    log_debug H (TextMsg.info_text_segment_prefix dir.seg_prefix)
    joined ← lift (report_file_path dir.dir b.timestamp)
    let file = clean joined
    log_debug H (TextMsg.info_text_command_execution ("read file" ∷ file ∷ []))
    content ←
        on_error (H.read_file file)
          (λ e. log_error H (TextMsg.error_text_unable_get_backup_report b.timestamp e))
    print_line content

  unfoldable pub report_info_file_local_func : BackupConfig → String → Exec H.World (Unit {0})
  unfolding report_from_file
  report_info_file_local_func b backup_dir = do
    can_get_report ← check_backup_can_be_used H false false b
    if can_get_report then report_from_file b backup_dir else pure tt

  unfoldable pub report_info_db_local : String → String → Exec H.World (Unit {0})
  unfolding report_info_file_local_func
  report_info_db_local name backup_dir = do
    b ←
        on_error (get_backup_data_db H name)
          (λ e. log_error H (TextMsg.error_text_unable_get_backup_info name e))
    report_info_file_local_func b backup_dir
