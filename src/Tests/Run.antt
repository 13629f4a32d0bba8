-- ===== src/Tests/Run.antt =====
-- A whole run of the deletion of a backup on the host in memory.
use gpbackman.Base.{codes_eq, ◌≡◌, refl, false, sprintf}
use gpbackman.Go.Result.{ok}
use gpbackman.Go.Exec.{◌>>=◌, on_error, on_error_ignoring, attempt}
use gpbackman.Host.Actions.{write_log, get_current_timestamp, roll_back}
use gpbackman.Db.{update_delete_status, exec_statement_func, get_backup_data_db}
use gpbackman.Sql.Lexer.{lex}
use gpbackman.Db.Queries.{update_delete_status_query}
use gpbackman.Config.Convert.{convert_from_history_backup_config}
use gpbackman.Config.Kind.{get_backup_type}
use gpbackman.Time.Format.{format_layout}
use gpbackman.Paths.{get_seg_prefix, backup_dir_path}
use gpbackman.Cmd.Dirs.{
  get_backup_master_dir, get_segment_configuration_cluster_info, check_master_backup_dir,
  get_backup_segment_dir,
}
use gpbackman.Cmd.Segments.{
  execute_delete_backup_on_segments, delete_phases, check_backup_dir_exists_on_segments,
  delete_backup_dir_on_segments, segment_paths,
}
use gpbackman.Cmd.Delete.{backup_delete_db_local_func, delete_on_segments}
use gpbackman.Tests.Memory.{memory}
use gpbackman.Tests.States.{start}

local_delete_runs : (backup_delete_db_local_func memory "" "20230611101130" false start).0 ≡ ok tt
unfolding codes_eq memory start backup_delete_db_local_func ◌>>=◌ get_current_timestamp write_log
    on_error update_delete_status exec_statement_func lex update_delete_status_query
    get_backup_data_db get_backup_master_dir convert_from_history_backup_config get_seg_prefix
    get_backup_type delete_on_segments on_error_ignoring get_segment_configuration_cluster_info
    execute_delete_backup_on_segments delete_phases check_backup_dir_exists_on_segments
    delete_backup_dir_on_segments segment_paths attempt roll_back backup_dir_path
    get_backup_segment_dir check_master_backup_dir format_layout sprintf
local_delete_runs = refl
