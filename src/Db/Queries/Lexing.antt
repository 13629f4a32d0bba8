-- ===== src/Db/Queries/Lexing.antt =====
-- The statements that the program sends, as tokens.
use gpbackman.Base.{◌≡◌, refl, ap, String, Bool, true, false, List, [], ◌∷◌, ◌++◌, codes}
use gpbackman.Sql.{
  Condition, Select, set_date_deleted, equal, differs, less, greater, one_of, none_of,
  select_tokens, statement_tokens, kw, symbol, condition_tokens, Token,
}
use gpbackman.Sql.Lexer.{lex, lex_from, between, in_text, QuoteFree, lex-value, lex-value_then}
use gpbackman.Config.{
  backup_status_failure, backup_status_in_progress, date_deleted_in_progress,
  date_deleted_plugin_failed, date_deleted_local_failed,
}
use gpbackman.Db.Queries.{
  get_backup_name_query, get_backup_dependencies_query, get_backup_name_before_timestamp_query,
  get_backup_name_after_timestamp_query, get_backup_name_for_clean_before_timestamp_query,
  update_delete_status_query,
}

abbrev backups : List Condition → Select
backups conditions = record { column = "timestamp"; table = "backups"; conditions = conditions }

abbrev pub names_select : Bool → Bool → Select
names_select true true = backups []
names_select true false = backups (differs "status" backup_status_failure ∷ [])
names_select false true = backups (
    one_of "date_deleted"
      ("" ∷ date_deleted_in_progress ∷ date_deleted_plugin_failed ∷ date_deleted_local_failed ∷ [])
    ∷ [])
names_select false false = backups (
    differs "status" backup_status_failure
    ∷ one_of "date_deleted" (
        "" ∷ date_deleted_in_progress ∷ date_deleted_plugin_failed ∷ date_deleted_local_failed ∷ [])
    ∷ [])

-- For each setting of the two flags the text of the query falls into the tokens of a SELECT of the
-- timestamps in `backups` with the conditions of `names_select`, the newest first.
pub lex-get_backup_name_query :
    (show_d show_f : Bool)
    → lex (get_backup_name_query show_d show_f) ≡ select_tokens (names_select show_d show_f)
unfolding lex get_backup_name_query
lex-get_backup_name_query true true = refl
lex-get_backup_name_query true false = refl
lex-get_backup_name_query false true = refl
lex-get_backup_name_query false false = refl

abbrev still_there : List Condition
still_there =
    differs "status" backup_status_in_progress
    ∷ one_of "date_deleted" ("" ∷ date_deleted_plugin_failed ∷ date_deleted_local_failed ∷ [])
    ∷ []

-- What stands behind the timestamp in the two queries for backups to delete.
abbrev still_there_text : String
still_there_text =
    " \n\tAND status != 'In Progress' \n\tAND date_deleted IN ('', 'Plugin Backup Delete Failed', 'Local Delete Failed') \nORDER BY timestamp DESC;\n"

abbrev select_from : String → List Token → List Token
select_from table rest =
    kw "SELECT" ∷ kw "timestamp" ∷ kw "FROM" ∷ kw table ∷ kw "WHERE" ∷ kw "timestamp" ∷ rest

abbrev pub before_select : String → Select
before_select timestamp = backups (less "timestamp" timestamp ∷ still_there)

-- The query for the backups before a timestamp that holds no quote falls into the tokens of a SELECT
-- of those timestamps whose status is not "In Progress" and whose deletion date is empty or a failure.
pub lex-before :
    (timestamp : String)
    → QuoteFree timestamp
    → lex (get_backup_name_before_timestamp_query timestamp)
      ≡ select_tokens (before_select timestamp)
unfolding lex get_backup_name_before_timestamp_query
lex-before timestamp h =
    ap (λ l. select_from "backups" (symbol b'<' ∷ l))
      (lex-value timestamp (codes still_there_text) h refl)

abbrev pub after_select : String → Select
after_select timestamp = backups (greater "timestamp" timestamp ∷ still_there)

-- The query for the backups after a timestamp that holds no quote falls into the tokens of a SELECT
-- of those timestamps whose status is not "In Progress" and whose deletion date is empty or a failure.
pub lex-after :
    (timestamp : String)
    → QuoteFree timestamp
    → lex (get_backup_name_after_timestamp_query timestamp) ≡ select_tokens (after_select timestamp)
unfolding lex get_backup_name_after_timestamp_query
lex-after timestamp h =
    ap (λ l. select_from "backups" (symbol b'>' ∷ l))
      (lex-value timestamp (codes still_there_text) h refl)

abbrev pub clean_select : String → Select
clean_select timestamp = backups (
    less "timestamp" timestamp
    ∷ none_of "date_deleted" (
        "" ∷ date_deleted_plugin_failed ∷ date_deleted_local_failed ∷ date_deleted_in_progress ∷ [])
    ∷ [])

abbrev clean_text : String
clean_text =
    " \n\tAND date_deleted NOT IN ('', 'Plugin Backup Delete Failed', 'Local Delete Failed', 'In progress') \nORDER BY timestamp DESC;\n"

-- The query of `history-clean` before a timestamp that holds no quote falls into the tokens of a
-- SELECT of those timestamps whose deletion date is none of the four that stand for no deletion, a
-- failed one, or one in progress.
pub lex-clean :
    (timestamp : String)
    → QuoteFree timestamp
    → lex (get_backup_name_for_clean_before_timestamp_query timestamp)
      ≡ select_tokens (clean_select timestamp)
unfolding lex get_backup_name_for_clean_before_timestamp_query
lex-clean timestamp h =
    ap (λ l. select_from "backups" (symbol b'<' ∷ l))
      (lex-value timestamp (codes clean_text) h refl)

abbrev pub dependencies_select : String → Select
dependencies_select name = record {
  column = "timestamp";
  table = "restore_plans";
  conditions = differs "timestamp" name ∷ equal "restore_plan_timestamp" name ∷ [];
}

abbrev dependencies_middle : String
dependencies_middle = "\n\tAND restore_plan_timestamp = '"

abbrev dependencies_end : String
dependencies_end = "\nORDER BY timestamp DESC;\n"

dependencies_rest :
    (name : String)
    → QuoteFree name
    → lex_from between (codes dependencies_middle ++ (codes name ++ (39 ∷ codes dependencies_end)))
      ≡ kw "AND"
        ∷ condition_tokens
            (equal "restore_plan_timestamp" name)
            (kw "ORDER" ∷ kw "BY" ∷ kw "timestamp" ∷ kw "DESC" ∷ symbol b';' ∷ [])
unfolding lex_from
dependencies_rest name h =
    ap (λ l. kw "AND" ∷ kw "restore_plan_timestamp" ∷ symbol b'=' ∷ l)
      {x = lex_from (in_text []) (codes name ++ (39 ∷ codes dependencies_end))}
      (lex-value name (codes dependencies_end) h refl)

-- The query for the dependencies of a backup whose name holds no quote falls into the tokens of a
-- SELECT of the other backups whose restore plan names it.
pub lex-dependencies :
    (name : String)
    → QuoteFree name
    → lex (get_backup_dependencies_query name) ≡ select_tokens (dependencies_select name)
unfolding lex get_backup_dependencies_query
lex-dependencies name h =
    ap (λ l. select_from "restore_plans" (symbol b'!' ∷ symbol b'=' ∷ l))
      {x = lex_from (in_text []) (
        codes name
        ++ (39 ∷ (codes dependencies_middle ++ (codes name ++ (39 ∷ codes dependencies_end)))))}
      (lex-value_then name
        (codes dependencies_middle ++ (codes name ++ (39 ∷ codes dependencies_end))) h refl
        (dependencies_rest name h))

update_rest :
    (timestamp : String)
    → QuoteFree timestamp
    → lex_from between (codes " WHERE timestamp = '" ++ (codes timestamp ++ (39 ∷ codes ";")))
      ≡ kw "WHERE" ∷ condition_tokens (equal "timestamp" timestamp) (symbol b';' ∷ [])
unfolding lex_from
update_rest timestamp h =
    ap (λ l. kw "WHERE" ∷ kw "timestamp" ∷ symbol b'=' ∷ l)
      {x = lex_from (in_text []) (codes timestamp ++ (39 ∷ codes ";"))}
      (lex-value timestamp (codes ";") h refl)

-- The UPDATE for a timestamp and a status that hold no quote falls into the tokens of the statement
-- that sets that deletion date on that timestamp: neither value can end its literal early.
pub lex-update :
    (timestamp status : String)
    → QuoteFree timestamp
    → QuoteFree status
    → lex (update_delete_status_query timestamp status)
      ≡ statement_tokens (set_date_deleted timestamp status)
unfolding lex update_delete_status_query
lex-update timestamp status h k =
    ap (λ l. kw "UPDATE" ∷ kw "backups" ∷ kw "SET" ∷ kw "date_deleted" ∷ symbol b'=' ∷ l)
      {x = lex_from (in_text []) (
        codes status
        ++ (39 ∷ (codes " WHERE timestamp = '" ++ (codes timestamp ++ (39 ∷ codes ";")))))}
      (lex-value_then status (codes " WHERE timestamp = '" ++ (codes timestamp ++ (39 ∷ codes ";")))
        k refl (update_rest timestamp h))
