-- ===== src/Tests/Queries.antt =====
-- The queries at concrete names and dates.
use gpbackman.Base.{codes_eq, ◌≡◌, refl, true, false, [], ◌∷◌, map, arith}
use gpbackman.Go.Exec.{◌>>=◌}
use gpbackman.Go.Result.{ok}
use gpbackman.Sql.{select_tokens}
use gpbackman.Sql.Lexer.{lex}
use gpbackman.Sql.Meaning.{answer, filter_rows, order_rows}
use gpbackman.Db.{get_backup_names_db, exec_query_func}
use gpbackman.Db.Names.{listed, get_backup_names_db-listed}
use gpbackman.Db.Queries.{get_backup_name_query, get_backup_name_before_timestamp_query}
use gpbackman.Db.Queries.Lexing.{names_select, before_select, lex-get_backup_name_query, lex-before}
use gpbackman.Tests.Memory.{memory, memory-IsSqlite}
use gpbackman.Tests.States.{start}

names_query_tokens :
    lex (get_backup_name_query false true) ≡ select_tokens (names_select false true)
names_query_tokens = lex-get_backup_name_query false true

lex-before_example :
    lex (get_backup_name_before_timestamp_query "20230611101130")
    ≡ select_tokens (before_select "20230611101130")
lex-before_example = lex-before "20230611101130" (omega arith)

two_names :
    (get_backup_names_db memory true true start).0 ≡ ok ("20230611101130" ∷ "20230610101130" ∷ [])
unfolding codes_eq memory start get_backup_names_db lex get_backup_name_query exec_query_func ◌>>=◌
    answer filter_rows
two_names = refl

get_backup_names_db-listed_example :
    "20230611101130" ∷ "20230610101130" ∷ []
    ≡ map
        (λ r. r "timestamp")
        (order_rows (filter_rows (listed true true) (memory-IsSqlite.committed start "backups")))
get_backup_names_db-listed_example =
    get_backup_names_db-listed memory memory-IsSqlite true true _ start two_names
