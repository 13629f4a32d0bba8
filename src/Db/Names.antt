-- ===== src/Db/Names.antt =====
-- Which backups the queries give (gpbckpconfig/utils_db.go), over SQLite.
use mathlib.Core.List.{append_assoc, append-nil}
use gpbackman.Base.{
  ℕ, ◌≡◌, refl, sym, ◌∙◌, ap, String, Bool, true, false, ◌&&◌, ◌||◌, not, List, [], ◌∷◌, ◌++◌, map,
  Option, none, some, arith, ◌==◌,
}
use gpbackman.Go.Result.{Error, Result, ok, err, panic}
use gpbackman.Go.Exec.{◌>>=◌, lift}
use gpbackman.Go.Exec.Steps.{bind_ok, bind_err, bind_panic}
use gpbackman.Sql.{Select, select_tokens}
use gpbackman.Sql.Lexer.{lex, QuoteFree}
use gpbackman.Sql.Meaning.{Tables, Row, answer, filter_rows, order_rows, holds_all}
use gpbackman.Config.{date_deleted_in_progress}
use gpbackman.Config.Status.{check_backup_can_be_displayed, is_backup_active}
use gpbackman.Host.{Host, Cursor}
use gpbackman.Host.Laws.{IsSqlite}
use gpbackman.Db.{scan_rows, exec_query_func, get_backup_names_db, get_backup_dependencies}
use gpbackman.Db.Queries.{get_backup_name_query, get_backup_dependencies_query}
use gpbackman.Db.Queries.Lexing.{
  names_select, dependencies_select, lex-get_backup_name_query, lex-dependencies,
}

-- A scan that ends without error has read every row.
scan_rows_all :
    (rows : List (Result String)) (before l : List String) (last : Option Error)
    → scan_rows rows before last ≡ ok l
    → (m : List String) × (rows ≡ map ok m) × (l ≡ before ++ m) × (last ≡ none)
unfolding scan_rows
scan_rows_all [] before l none h =
    let e : before ≡ l = cc in ([], refl, sym e ∙ sym (append-nil before), refl)
scan_rows_all [] before l (some e) h = ground arith
scan_rows_all (ok b ∷ rows) before l last h =
    let (m, p, q, r) = scan_rows_all rows (before ++ (b ∷ [])) l last h in
    (b ∷ m, ap (λ rest. ok b ∷ rest) p, q ∙ append_assoc before (b ∷ []) m, r)
scan_rows_all (err e ∷ rows) before l last h = ground arith
scan_rows_all (panic p ∷ rows) before l last h = ground arith

module _ (H : Host) (L : IsSqlite H) (q : List ℕ) (s : Select) where
  from_cursor :
      (l : List String) (w : H.World) (r : Result Cursor)
      → (H.query q w).0 ≡ r
      → lex q ≡ select_tokens s
      → (exec_query_func H q w).0 ≡ ok l
      → l ≡ answer s (L.committed w)
  unfolding exec_query_func ◌>>=◌
  from_cursor l w (ok cursor) e t h =
      let (m, p, k, n) = scan_rows_all cursor.rows [] l cursor.final_error (
        sym (
          ap (λ out. out.0)
            (bind_ok (H.query q) (λ c. lift (scan_rows c.rows [] c.final_error)) w e))
        ∙ h) in
      k
      ∙ L.query_reads q s m w t (
          e
          ∙ ap (λ rs. ok (record { rows = rs; final_error = cursor.final_error })) p
          ∙ ap (λ f. ok (record { rows = map (λ x. ok x) m; final_error = f })) n)
  from_cursor l w (err x) e t h =
      let out =
        ap (λ o. o.0) (bind_err (H.query q) (λ c. lift (scan_rows c.rows [] c.final_error)) w e) in
      ground (arith, out, h)
  from_cursor l w (panic x) e t h =
      let out =
        ap (λ o. o.0)
          (bind_panic (H.query q) (λ c. lift (scan_rows c.rows [] c.final_error)) w e) in
      ground (arith, out, h)

  -- A query whose text is that of a SELECT gives, where it returns without error, the answer of the
  -- SELECT on the committed tables: a scan or an iteration that fails is not taken for the end.
  pub exec_query_func_reads :
      (l : List String) (w : H.World)
      → lex q ≡ select_tokens s
      → (exec_query_func H q w).0 ≡ ok l
      → l ≡ answer s (L.committed w)
  exec_query_func_reads l w t h = from_cursor l w _ refl t h

pub filter_rows-ext :
    (f g : Row → Bool)
    → ((r : Row) → f r ≡ g r)
    → (rows : List Row) → filter_rows f rows ≡ filter_rows g rows
unfolding filter_rows
filter_rows-ext f g h [] = refl
filter_rows-ext f g h (r ∷ rows) = rw (h r, filter_rows-ext f g h rows) refl

-- The rule of the query: that of `CheckBackupCanBeDisplayed`, and beside it, where the failed
-- backups are shown and the deleted ones are not, those whose deletion is in progress.
abbrev pub listed : Bool → Bool → Row → Bool
listed show_d show_f r =
    check_backup_can_be_displayed show_d show_f (r "status") (r "date_deleted")
    || (not show_d && (show_f && r "date_deleted" == date_deleted_in_progress))

names_select-listed :
    (show_d show_f : Bool) (r : Row)
    → holds_all (names_select show_d show_f).conditions r ≡ listed show_d show_f r
unfolding check_backup_can_be_displayed is_backup_active
names_select-listed true true r = refl
names_select-listed true false r = ground arith
names_select-listed false true r = ground arith
names_select-listed false false r = ground arith

names_answer :
    (show_d show_f : Bool) (tables : Tables)
    → answer (names_select show_d show_f) tables
      ≡ map
          (λ r. r "timestamp")
          (order_rows
            (filter_rows (holds_all (names_select show_d show_f).conditions) (tables "backups")))
unfolding answer
names_answer true true tables = refl
names_answer true false tables = refl
names_answer false true tables = refl
names_answer false false tables = refl

-- The backups that are listed, the newest first: where the query returns without error, its names
-- are those of the committed rows that `listed` keeps, ordered by descending timestamp.
pub get_backup_names_db-listed :
    (H : Host) (L : IsSqlite H) (show_d show_f : Bool) (l : List String) (w : H.World)
    → (get_backup_names_db H show_d show_f w).0 ≡ ok l
    → l
      ≡ map
          (λ r. r "timestamp")
          (order_rows (filter_rows (listed show_d show_f) (L.committed w "backups")))
unfolding get_backup_names_db answer
get_backup_names_db-listed H L show_d show_f l w h =
    let s = names_select show_d show_f in
    let e =
      exec_query_func_reads H L (get_backup_name_query show_d show_f) s l w
        (lex-get_backup_name_query show_d show_f) h in
    e
    ∙ names_answer show_d show_f (L.committed w)
    ∙ ap (λ rows. map (λ r. r "timestamp") (order_rows rows))
        (filter_rows-ext (holds_all s.conditions) (listed show_d show_f)
          (names_select-listed show_d show_f) (L.committed w "backups"))

-- The dependencies of a backup whose name holds no quote: where the query returns without error, its
-- names are those of the other backups whose restore plan names that backup, ordered by descending
-- timestamp.
pub get_backup_dependencies_lem :
    (H : Host) (L : IsSqlite H) (name : String) (l : List String) (w : H.World)
    → QuoteFree name
    → (get_backup_dependencies H name w).0 ≡ ok l
    → l
      ≡ map
          (λ r. r "timestamp")
          (order_rows (
            filter_rows
              (λ r. not (r "timestamp" == name) && (r "restore_plan_timestamp" == name && true))
              (L.committed w "restore_plans")))
unfolding get_backup_dependencies answer
get_backup_dependencies_lem H L name l w plain h =
    exec_query_func_reads H L (get_backup_dependencies_query name) (dependencies_select name) l w
      (lex-dependencies name plain) h
