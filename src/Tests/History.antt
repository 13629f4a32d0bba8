-- ===== src/Tests/History.antt =====
-- history-clean and backup-clean on the host in memory.
use mathlib.Core.Path.{subst}
use gpbackman.Base.{◌≡◌, ◌≢◌, eq_iff, refl, sym, arith, codes_eq}
use gpbackman.Go.Result.{ok}
use gpbackman.Go.Exec.{◌>>=◌, on_error}
use gpbackman.Sql.Lexer.{lex}
use gpbackman.Sql.Meaning.{answer, filter_rows}
use gpbackman.Host.Actions.{write_log}
use gpbackman.Db.{get_backup_names_for_clean_before_timestamp, exec_query_func, exec_statement_func}
use gpbackman.Db.Clean.{clean_backups_db, id_str}
use gpbackman.Db.Clean.Emptied.{Gone}
use gpbackman.Db.Queries.{
  delete_backups_form_table_query, get_backup_name_for_clean_before_timestamp_query,
}
use gpbackman.Db.Queries.Deleting.{include_schemas}
use gpbackman.Cmd.Clean.{history_clean_db, clean_history_list}
use gpbackman.Cmd.Clean.Removed.{IsCleanable, PlainNames, history_clean_db-Gone}
use gpbackman.Sql.Meaning.Elsewhere.{NonePasses}
use gpbackman.Cmd.Chain.Spares.{Spared}
use gpbackman.Cmd.Clean.Unselected.{selectable}
use gpbackman.Cmd.Commands.{clean_backup}
use gpbackman.Cmd.Commands.Clean.{clean_backup-Spared}
use gpbackman.Tests.Flags.{clean_options, cut_offs}
use gpbackman.Tests.Commands.{root, memory-IsPlain}
use gpbackman.Tests.Memory.{memory, memory-IsSqlite, memory-IsSeparate, first_name, second_name}
use gpbackman.Tests.States.{start_tables, start, after_deletion, after_deletion_tables}

plain_names : PlainNames (memory-IsSqlite.committed after_deletion "backups")
plain_names =
    subst (λ tables. PlainNames (tables "backups")) (sym after_deletion_tables)
      (omega arith, (omega arith, tt))

first_name-IsCleanable :
    IsCleanable second_name first_name (memory-IsSqlite.committed after_deletion "backups")
unfolding filter_rows
first_name-IsCleanable =
    subst (λ tables. IsCleanable second_name first_name (tables "backups"))
      (sym after_deletion_tables) refl

history_clean_runs : (history_clean_db memory second_name after_deletion).0 ≡ ok tt
unfolding memory start after_deletion history_clean_db clean_history_list clean_backups_db ◌>>=◌
    codes_eq exec_query_func exec_statement_func on_error lex delete_backups_form_table_query id_str
    get_backup_names_for_clean_before_timestamp get_backup_name_for_clean_before_timestamp_query
    answer write_log
history_clean_runs = refl

history_clean_db-Gone_example :
    Gone first_name "include_schemas"
      (memory-IsSqlite.committed (history_clean_db memory second_name after_deletion).1)
history_clean_db-Gone_example =
    history_clean_db-Gone memory memory-IsSqlite second_name first_name include_schemas
      after_deletion (omega arith) plain_names first_name-IsCleanable history_clean_runs

first_other : first_name ≢ second_name
first_other e = ground (arith, (eq_iff first_name second_name).1 e)

none_selectable :
    NonePasses
      (selectable cut_offs.before cut_offs.after)
      second_name
      (memory-IsSqlite.committed start "backups")
none_selectable =
    subst
      (λ tables.
        NonePasses (selectable cut_offs.before cut_offs.after) second_name (tables "backups"))
      (sym start_tables)
      ((omega arith, λ e. refl), ((omega arith, λ e. absurd (first_other e)), tt))

clean_backup-Spared_example :
    Spared
      (λ x. x ≡ second_name)
      (memory-IsSqlite.committed start)
      (memory-IsSqlite.committed (clean_backup memory root clean_options cut_offs start).1)
clean_backup-Spared_example =
    clean_backup-Spared memory memory-IsSqlite memory-IsSeparate root clean_options cut_offs
      second_name start refl memory-IsPlain.clock_valid (omega arith) tt none_selectable
