-- ===== src/Cmd/Clean/Removed.antt =====
-- What a successful history-clean has removed.
use mathlib.Core.Path.{subst}
use gpbackman.Base.{◌≡◌, sym, ◌∙◌, ap, String, true, List, [], ◌∷◌, map, All, arith, contains}
use gpbackman.Go.Result.{ok}
use gpbackman.Go.Exec.{on_error}
use gpbackman.Go.Exec.Rules.{on_error-value}
use gpbackman.Go.Exec.Steps.{bind_ok, bind_value}
use gpbackman.TextMsg.{error_text_unable_read_history_db}
use gpbackman.Sql.Lexer.{QuoteFree}
use gpbackman.Sql.Meaning.{Row, filter_rows, order_rows, holds_all, answer}
use gpbackman.Sql.Meaning.Order.{order-All, filter-All, map-All, order-contains}
use gpbackman.Host.{Host}
use gpbackman.Host.Actions.{log_error, log_debug}
use gpbackman.Host.Laws.{IsSqlite}
use gpbackman.Db.{get_backup_names_for_clean_before_timestamp}
use gpbackman.Db.Queries.{get_backup_name_for_clean_before_timestamp_query}
use gpbackman.Db.Queries.Lexing.{clean_select, lex-clean}
use gpbackman.Db.Queries.Deleting.{Table, table_name}
use gpbackman.Db.Names.{exec_query_func_reads, filter_rows-ext}
use gpbackman.Db.Clean.{clean_backups_db}
use gpbackman.Db.Clean.Emptied.{Gone, GoneNow}
use gpbackman.Db.Clean.Gone.{clean_backups_db-Gone}
use gpbackman.Cmd.Clean.{clean_history_list, history_clean_db}
use gpbackman.Cmd.Clean.Untouched.{cleanable}

-- The name of a row that is cleanable.
abbrev pub IsCleanable : String → String → List Row → Type 0
IsCleanable cut_off name rows =
    contains (map (λ r. r "timestamp") (filter_rows (cleanable cut_off) rows)) name ≡ true

abbrev pub PlainNames : List Row → Type 0
PlainNames rows = All (λ r. QuoteFree (r "timestamp")) rows

clean_test :
    (cut_off : String) (r : Row)
    → holds_all (clean_select cut_off).conditions r ≡ cleanable cut_off r
clean_test cut_off r = ground arith

-- The rows that the query selects.
abbrev selected : String → List Row → List Row
selected cut_off rows = order_rows (filter_rows (holds_all (clean_select cut_off).conditions) rows)

selected-PlainNames :
    (cut_off : String) (rows : List Row) → PlainNames rows → PlainNames (selected cut_off rows)
selected-PlainNames cut_off rows plain =
    let P = λ (r : Row). QuoteFree (r "timestamp") in
    order-All P _ (filter-All P P _ (λ r p test. p) rows plain)

selected-contains :
    (cut_off name : String) (rows : List Row)
    → IsCleanable cut_off name rows
    → contains (map (λ r. r "timestamp") (selected cut_off rows)) name ≡ true
selected-contains cut_off name rows h =
    order-contains name _
    ∙ ap (λ l. contains (map (λ r. r "timestamp") l) name)
        (filter_rows-ext _ (cleanable cut_off) (clean_test cut_off) rows)
    ∙ h

module _ (H : Host) (L : IsSqlite H) (name : String) (t : Table) where
  list_gone :
      (l : List String) (w : H.World)
      → All QuoteFree l
      → contains l name ≡ true
      → (clean_history_list H l w).0 ≡ ok tt
      → GoneNow H L name t (clean_history_list H l w).1
  unfolding clean_history_list
  list_gone [] w plain c e = absurd (cc)
  list_gone (x ∷ xs) w plain c e =
      let (u, (logged, rest)) =
        bind_value (log_debug H _) (λ _. clean_backups_db H (x ∷ xs) 1000) w tt e in
      rw (bind_ok (log_debug H _) (λ _. clean_backups_db H (x ∷ xs) 1000) w logged)
        (clean_backups_db-Gone H L (x ∷ xs) 1000 name t _ (omega arith) plain c rest)

-- Where history-clean returns without error, none of the seven tables has a row of a backup that was
-- cleanable, that is whose row in `backups` was older than the cut-off and had a deletion date that
-- is neither empty nor one of a failure nor that of a deletion in progress. The cut-off and the
-- timestamps in `backups` must hold no quote.
pub history_clean_db-Gone :
    (H : Host) (L : IsSqlite H) (cut_off name : String) (t : Table) (w : H.World)
    → QuoteFree cut_off
    → PlainNames (L.committed w "backups")
    → IsCleanable cut_off name (L.committed w "backups")
    → (history_clean_db H cut_off w).0 ≡ ok tt
    → Gone name (table_name t) (L.committed (history_clean_db H cut_off w).1)
unfolding history_clean_db get_backup_names_for_clean_before_timestamp answer
history_clean_db-Gone H L cut_off name t w quote_free plain cleans e =
    let query =
      on_error (get_backup_names_for_clean_before_timestamp H cut_off)
        (λ x. log_error H (error_text_unable_read_history_db x)) in
    let (l, (given, rest)) = bind_value query (clean_history_list H) w tt e in
    let read =
      exec_query_func_reads H L (get_backup_name_for_clean_before_timestamp_query cut_off)
        (clean_select cut_off) l w (lex-clean cut_off quote_free)
        (on_error-value (get_backup_names_for_clean_before_timestamp H cut_off) _ w l given) in
    rw (bind_ok query (clean_history_list H) w given) (
      list_gone H L name t l (query w).1
        (subst (All QuoteFree) (sym read)
          (map-All QuoteFree "timestamp" _ (selected-PlainNames cut_off _ plain)))
        (ap (λ x. contains x name) read ∙ selected-contains cut_off name _ cleans) rest)
