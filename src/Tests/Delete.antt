-- ===== src/Tests/Delete.antt =====
-- Deleting backups on the host in memory.
use gpbackman.Time.{days_in}
use gpbackman.Base.{true, ◌≤◌, ◌≡◌, false, [], ◌∷◌, arith}
use gpbackman.Host.{PluginConfig}
use gpbackman.Go.Result.{ok}
use gpbackman.Sql.{set_date_deleted}
use gpbackman.Sql.Meaning.{perform}
use gpbackman.Time.Format.{format_layout}
use gpbackman.Time.RoundTrip.{IsValid}
use gpbackman.Config.{
  date_deleted_in_progress, date_deleted_local_failed, date_deleted_plugin_failed,
}
use gpbackman.Db.{update_delete_status}
use gpbackman.Db.Update.{Atomic, update_delete_status-Atomic}
use gpbackman.Cmd.Outcome.Plugin.{backup_delete_db_plugin_func_outcome}
use gpbackman.Cmd.Delete.{backup_delete_db_plugin_func, backup_delete_db_local_func}
use gpbackman.Cmd.Outcome.Stages.{Stage}
use gpbackman.Cmd.Outcome.{backup_delete_db_local_func_outcome}
use gpbackman.Tests.Memory.{memory, memory-IsSqlite, memory-IsSeparate, clock}
use gpbackman.Tests.States.{start}

days_fit : clock.day ≤ days_in clock.month clock.year
unfolding days_in
days_fit = omega arith

pub clock-IsValid : IsValid clock
clock-IsValid = record {
  year_fits = omega arith;
  month_from = omega arith;
  month_to = omega arith;
  day_from = omega arith;
  day_to = days_fit;
  hour_fits = omega arith;
  minute_fits = omega arith;
  second_fits = omega arith;
}

now-IsValid : IsValid (memory.now start)
unfolding memory
now-IsValid = clock-IsValid

abbrev s3_plugin : PluginConfig
s3_plugin = record {
  executable_path = "/usr/local/bin/gpbackup_s3_plugin";
  options = ("folder", "backup") ∷ [];
}

backup_delete_db_local_func_outcome_example :
    let date = format_layout (memory.now start) in
    let out = backup_delete_db_local_func memory "" "20230611101130" false start in
    (out.0 ≡ ok tt
      → memory-IsSqlite.committed out.1
        ≡ perform (set_date_deleted "20230611101130" date) (memory-IsSqlite.committed start))
    × Stage "20230611101130"
        (date_deleted_in_progress ∷ date_deleted_local_failed ∷ date ∷ [])
        (memory-IsSqlite.committed start)
        (memory-IsSqlite.committed out.1)
backup_delete_db_local_func_outcome_example =
    backup_delete_db_local_func_outcome memory memory-IsSqlite memory-IsSeparate "" "20230611101130"
      false start (omega arith) now-IsValid

update_delete_status-Atomic_example :
    let out = update_delete_status memory "20230611101130" "In progress" start in
    Atomic
      (set_date_deleted "20230611101130" "In progress")
      (memory-IsSqlite.committed start)
      (memory-IsSqlite.committed out.1)
      out.0
update_delete_status-Atomic_example =
    update_delete_status-Atomic memory memory-IsSqlite "20230611101130" "In progress" start
      (omega arith) (omega arith)

backup_delete_db_plugin_func_outcome_example :
    let date = format_layout (memory.now start) in
    let out =
      backup_delete_db_plugin_func memory "/etc/s3.yaml" s3_plugin "20230611101130" true start in
    (out.0 ≡ ok tt
      → memory-IsSqlite.committed out.1
        ≡ perform (set_date_deleted "20230611101130" date) (memory-IsSqlite.committed start))
    × Stage "20230611101130"
        (date_deleted_in_progress ∷ date_deleted_plugin_failed ∷ date ∷ [])
        (memory-IsSqlite.committed start)
        (memory-IsSqlite.committed out.1)
backup_delete_db_plugin_func_outcome_example =
    backup_delete_db_plugin_func_outcome memory memory-IsSqlite memory-IsSeparate "/etc/s3.yaml"
      s3_plugin "20230611101130" true start (omega arith) now-IsValid
