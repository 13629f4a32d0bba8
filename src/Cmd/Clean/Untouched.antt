-- ===== src/Cmd/Clean/Untouched.antt =====
-- What history-clean leaves alone.
use mathlib.Core.Path.{subst}
use gpbackman.Base.{
  ◌≡◌, refl, sym, ◌∙◌, ap, String, Bool, true, false, ◌&&◌, not, List, [], ◌∷◌, All, arith, eq_iff,
  contains,
}
use gpbackman.Go.Result.{ok}
use gpbackman.Go.Exec.{Exec, on_error}
use gpbackman.Go.Exec.Rules.{Keeps, Keeps-bind, Keeps-on_error, on_error-value}
use gpbackman.Go.Exec.Steps.{bind_at}
use gpbackman.TextMsg.{error_text_unable_read_history_db}
use gpbackman.Sql.Lexer.{QuoteFree}
use gpbackman.Sql.Meaning.{Tables, Row, named, filter_rows, str_lt, answer}
use gpbackman.Sql.Meaning.Order.{contains_none}
use gpbackman.Sql.Meaning.Elsewhere.{Elsewhere, absent, plain_names, answer-Elsewhere}
use gpbackman.Sql.Meaning.Order.{All-map}
use gpbackman.Config.{
  date_deleted_in_progress, date_deleted_plugin_failed, date_deleted_local_failed,
}
use gpbackman.Host.{Host}
use gpbackman.Host.Actions.{log_error}
use gpbackman.Host.Laws.{IsSqlite, IsSeparate}
use gpbackman.Db.{get_backup_names_for_clean_before_timestamp}
use gpbackman.Db.Queries.{get_backup_name_for_clean_before_timestamp_query}
use gpbackman.Db.Queries.Lexing.{clean_select, lex-clean}
use gpbackman.Db.Names.{exec_query_func_reads}
use gpbackman.Db.Clean.Safe.{Untouched, other, filter-filter, clean_backups_db-Untouched}
use gpbackman.Cmd.Frame.{log_kept}
use gpbackman.Cmd.Chain.Kept.{exec_query_func_kept}
use gpbackman.Cmd.Clean.{clean_history_list, history_clean_db}

-- A backup that is older than the cut-off and whose deletion has ended with success.
abbrev pub cleanable : String → Row → Bool
cleanable cut_off r =
    str_lt (r "timestamp") cut_off
    && not (
        contains
          ("" ∷ date_deleted_plugin_failed ∷ date_deleted_local_failed ∷ date_deleted_in_progress
            ∷ [])
          (r "date_deleted"))

-- No row of that name is cleanable, and no name in the table holds a quote.
abbrev pub IsKept : String → String → List Row → Type 0
IsKept cut_off name rows =
    All (λ r. QuoteFree (r "timestamp") × (r "timestamp" ≡ name → cleanable cut_off r ≡ false)) rows

-- The rows of that name are the same in every table.
abbrev pub SameRows : String → Tables → Tables → Type 0
SameRows name before now =
    (table : String)
    → filter_rows (named name) (now table) ≡ filter_rows (named name) (before table)

-- A name that the list does not hold is untouched by a clean of that list.
Untouched-SameRows :
    (name : String) (list : List String) (before now : Tables)
    → contains list name ≡ false
    → Untouched list before now
    → SameRows name before now
Untouched-SameRows name list before now out same table =
    let spare = λ (r : Row) (e : named name r ≡ true).
      let same_name : r "timestamp" ≡ name = (eq_iff (r "timestamp") name).0 e in
      ap (λ x. not (contains list x)) same_name ∙ ap not out in
    sym (filter-filter (named name) (other list) spare (now table))
    ∙ ap (filter_rows (named name)) (same table)
    ∙ filter-filter (named name) (other list) spare (before table)

module _ (H : Host) (L : IsSqlite H) (S : IsSeparate H L.committed) (cut_off name : String)
    (start : H.World) where
  abbrev Good : Tables → Type 0
  Good = SameRows name (L.committed start)

  abbrev Same : Tables → Type 0
  Same now = now ≡ L.committed start

  abbrev query_names : Exec H.World (List String)
  query_names =
      on_error (get_backup_names_for_clean_before_timestamp H cut_off)
        (λ e. log_error H (error_text_unable_read_history_db e))

  query-Same : Keeps (λ w. Same (L.committed w)) query_names
  unfolding get_backup_names_for_clean_before_timestamp
  query-Same = Keeps-on_error _ _ (exec_query_func_kept H L S Same _) (λ e. log_kept H L S Same _ _)

  clean_kept :
      (list : List String)
      → All (Elsewhere name) list
      → Keeps (λ w. Good (L.committed w)) (clean_history_list H list)
  unfolding clean_history_list
  clean_kept [] h = log_kept H L S Good _ _
  clean_kept (x ∷ xs) h = Keeps-bind _ _ (log_kept H L S Good _ _) λ _. record {
    at = λ w good table.
        Untouched-SameRows name (x ∷ xs) (L.committed w) _
          (contains_none name (x ∷ xs) (absent name (x ∷ xs) h))
          (clean_backups_db-Untouched H L (x ∷ xs) 1000 w (omega arith)
            (plain_names name (x ∷ xs) h))
          table
        ∙ good table;
  }

  -- The names that the query gives.
  queried_names :
      (l : List String)
      → QuoteFree cut_off
      → IsKept cut_off name (L.committed start "backups")
      → (query_names start).0 ≡ ok l
      → All (Elsewhere name) l
  unfolding get_backup_names_for_clean_before_timestamp answer
  queried_names l plain kept e =
      let read =
        exec_query_func_reads H L (get_backup_name_for_clean_before_timestamp_query cut_off)
          (clean_select cut_off) l start (lex-clean cut_off plain)
          (on_error-value (get_backup_names_for_clean_before_timestamp H cut_off) _ start l e) in
      subst (All (Elsewhere name)) (sym read) (
        answer-Elsewhere name (clean_select cut_off) (L.committed start "backups") (
          All-map _ _ (λ r p. (p.0, λ same. ground (arith, p.1 same))) (L.committed start "backups")
            kept))

-- history-clean, however it ends, changes no row of a name under which `backups` has no row that is
-- older than the cut-off and has a deletion date that is neither empty nor one of a failure nor that
-- of a deletion in progress. The cut-off and the timestamps in `backups` must hold no quote.
pub history_clean_db-SameRows :
    (H : Host) (L : IsSqlite H)
    → IsSeparate H L.committed
    → (cut_off name : String) (w : H.World) → QuoteFree cut_off
    → IsKept cut_off name (L.committed w "backups")
    → SameRows name (L.committed w) (L.committed (history_clean_db H cut_off w).1)
unfolding history_clean_db
history_clean_db-SameRows H L S cut_off name w plain kept =
    let same : SameRows name (L.committed w) (L.committed (query_names H L S cut_off name w w).1) =
      λ table.
        ap (λ now. filter_rows (named name) (now table))
          ((query-Same H L S cut_off name w).at w refl) in
    bind_at (λ v. SameRows name (L.committed w) (L.committed v)) (clean_history_list H) _ w same
      λ l e.
        (clean_kept H L S cut_off name w l (queried_names H L S cut_off name w l plain kept e)).at _
          same
