-- ===== src/Tests/Commands.antt =====
-- The commands on the host in memory.
use mathlib.Core.Path.{subst}
use gpbackman.Base.{
  ◌≡◌, refl, sym, ◌&&◌, inl, inr, String, true, false, not, [], ◌∷◌, map, contains, arith, ◌==◌,
  eq_iff, Bool-cases, codes_eq,
}
use gpbackman.Go.Result.{ok}
use gpbackman.Go.Exec.{◌>>=◌, on_error}
use gpbackman.Config.{BackupConfig, no_config}
use gpbackman.Sql.Lexer.{lex, QuoteFree}
use gpbackman.Sql.Meaning.{filter_rows, order_rows, answer}
use gpbackman.Host.{PluginConfig}
use gpbackman.Db.{get_backup_data_db, get_backup_dependencies, exec_query_func, exec_statement_func}
use gpbackman.Db.Names.{get_backup_dependencies_lem}
use gpbackman.Db.Clean.{clean_backups_db, id_str}
use gpbackman.Db.Clean.Emptied.{Gone}
use gpbackman.Db.Clean.Gone.{clean_backups_db-Gone}
use gpbackman.Db.Queries.{delete_backups_form_table_query, get_backup_dependencies_query}
use gpbackman.Db.Queries.Deleting.{include_schemas}
use gpbackman.Cmd.Guard.Laws.{usable}
use gpbackman.Cmd.Chain.Spares.{Spared, Protected, IsPlain}
use gpbackman.Cmd.Clean.{history_clean_db}
use gpbackman.Cmd.Clean.Untouched.{IsKept, SameRows, history_clean_db-SameRows}
use gpbackman.Cmd.Flags.{RootOptions}
use gpbackman.Cmd.Commands.{delete_backup, backup_info, report_info}
use gpbackman.Cmd.Commands.Delete.{delete_backup-Spared}
use gpbackman.Cmd.Commands.ReadOnly.{backup_info-ReadOnly, report_info-ReadOnly}
use gpbackman.Cmd.Report.{report_info_plugin_func, report_info_file_local_func}
use gpbackman.Cmd.Report.Local.{AfterCheck, report_info_file_local_func-AfterCheck}
use gpbackman.Cmd.Report.Plugin.{AfterAnswer, report_info_plugin_func-AfterAnswer}
use gpbackman.Tests.Memory.{memory, memory-IsSqlite, memory-IsSeparate, first_name, second_name}
use gpbackman.Tests.States.{start, start_tables}
use gpbackman.Tests.Delete.{clock-IsValid}
use gpbackman.Tests.Flags.{delete_options, info_options, report_options}

abbrev pub root : RootOptions
root = record { history_db = ""; log_level_console = "info"; log_level_file = "debug" }

known_plain :
    (name : String) → contains (first_name ∷ second_name ∷ []) name ≡ true → QuoteFree name
known_plain name h = elim (Bool-cases (name == first_name)) [
  | inl e ↦ subst QuoteFree (sym ((eq_iff name first_name).0 e)) (omega arith)
  | inr e ↦
      let second : (name == second_name) ≡ true = ground (arith, h, e) in
      subst QuoteFree (sym ((eq_iff name second_name).0 second)) (omega arith)
]

pub memory-IsPlain : IsPlain memory
unfolding memory get_backup_data_db ◌>>=◌
memory-IsPlain = record {
  names_plain = λ name b w e. elim (Bool-cases (contains (first_name ∷ second_name ∷ []) name)) [
    | inl known ↦ known_plain name known
    | inr unknown ↦ absurd (let d = rw unknown at e in cc)
  ];
  clock_valid = λ w. clock-IsValid;
}

delete_backup-Spared_example :
    Spared
      (Protected memory memory-IsSqlite.committed false (not ("" == "")) start)
      (memory-IsSqlite.committed start)
      (memory-IsSqlite.committed (delete_backup memory root delete_options start).1)
delete_backup-Spared_example =
    delete_backup-Spared memory memory-IsSqlite memory-IsSeparate root delete_options memory-IsPlain
      start

clean_runs : (clean_backups_db memory (first_name ∷ []) 1000 start).0 ≡ ok tt
unfolding memory start clean_backups_db ◌>>=◌ codes_eq exec_statement_func on_error lex
    delete_backups_form_table_query id_str
clean_runs = refl

clean_backups_db-Gone_example :
    Gone first_name "include_schemas"
      (memory-IsSqlite.committed (clean_backups_db memory (first_name ∷ []) 1000 start).1)
clean_backups_db-Gone_example =
    clean_backups_db-Gone memory memory-IsSqlite (first_name ∷ []) 1000 first_name include_schemas
      start (omega arith) (omega arith, tt) refl clean_runs

nothing_cleanable : IsKept second_name first_name (memory-IsSqlite.committed start "backups")
nothing_cleanable =
    subst (λ tables. IsKept second_name first_name (tables "backups")) (sym start_tables)
      ((omega arith, λ e. refl), ((omega arith, λ e. refl), tt))

history_clean_db-SameRows_example :
    SameRows first_name
      (memory-IsSqlite.committed start)
      (memory-IsSqlite.committed (history_clean_db memory second_name start).1)
history_clean_db-SameRows_example =
    history_clean_db-SameRows memory memory-IsSqlite memory-IsSeparate second_name first_name start
      (omega arith) nothing_cleanable

dependents : (get_backup_dependencies memory first_name start).0 ≡ ok (second_name ∷ [])
unfolding memory start get_backup_dependencies ◌>>=◌ codes_eq exec_query_func lex
    get_backup_dependencies_query answer
dependents = refl

get_backup_dependencies_lem_example :
    second_name ∷ []
    ≡ map
        (λ r. r "timestamp")
        (order_rows (
          filter_rows
            (λ r.
              not (r "timestamp" == first_name)
              && (r "restore_plan_timestamp" == first_name && true))
            (memory-IsSqlite.committed start "restore_plans")))
get_backup_dependencies_lem_example =
    get_backup_dependencies_lem memory memory-IsSqlite first_name (second_name ∷ []) start
      (omega arith) dependents

backup_info-ReadOnly_example :
    memory-IsSqlite.committed (backup_info memory root info_options start).1
    ≡ memory-IsSqlite.committed start
backup_info-ReadOnly_example =
    backup_info-ReadOnly memory memory-IsSqlite memory-IsSeparate root info_options start

report_info-ReadOnly_example :
    memory-IsSqlite.committed (report_info memory root report_options start).1
    ≡ memory-IsSqlite.committed start
report_info-ReadOnly_example =
    report_info-ReadOnly memory memory-IsSqlite memory-IsSeparate root report_options start

abbrev local_backup : BackupConfig
local_backup = record no_config { timestamp = second_name; status = "Success" }

report_info_file_local_func-AfterCheck_example :
    AfterCheck memory local_backup "/data"
      (usable false false local_backup)
      start
      (report_info_file_local_func memory local_backup "/data" start)
report_info_file_local_func-AfterCheck_example =
    report_info_file_local_func-AfterCheck memory local_backup "/data" start (omega arith)

abbrev s3_backup : BackupConfig
s3_backup = record local_backup { plugin = "gpbackup_s3_plugin" }

abbrev s3_plugin : PluginConfig
s3_plugin = record { executable_path = "/usr/local/bin/plugin"; options = ("folder", "b") ∷ [] }

report_info_plugin_func-AfterAnswer_example :
    AfterAnswer memory s3_backup "" "/etc/s3.yaml" s3_plugin
      (usable false true s3_backup)
      start
      (report_info_plugin_func memory s3_backup "" "/etc/s3.yaml" s3_plugin start)
report_info_plugin_func-AfterAnswer_example =
    report_info_plugin_func-AfterAnswer memory s3_backup "" "/etc/s3.yaml" s3_plugin start
      (omega arith)
