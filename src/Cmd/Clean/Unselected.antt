-- ===== src/Cmd/Clean/Unselected.antt =====
-- The backups that backup-clean leaves alone without cascade.
use mathlib.Core.Path.{subst}
use gpbackman.Base.{
  ◌≡◌, refl, sym, String, Bool, true, false, not, ◌&&◌, ◌==◌, if◌then◌else◌, List, [], ◌∷◌, All,
  arith, Bool-cases, inl, inr, contains,
}
use gpbackman.Go.Exec.{Exec, on_error, pure, ◌>>=◌}
use gpbackman.Go.Exec.Rules.{
  Keeps, Keeps-pure, Keeps-if, Keeps-bind, Keeps-on_error, on_error-value,
}
use gpbackman.Go.Result.{Error, ok}
use gpbackman.Go.Exec.Steps.{bind_value, bind_at, pure_value}
use gpbackman.Sql.Lexer.{QuoteFree}
use gpbackman.Sql.Meaning.{Tables, Row, str_lt, holds_all, answer}
use gpbackman.Sql.Meaning.Elsewhere.{Elsewhere, NonePasses, answer-Elsewhere}
use gpbackman.Sql.Meaning.Order.{All-map}
use gpbackman.Host.{Host, PluginConfig}
use gpbackman.Host.Actions.{log_error}
use gpbackman.Host.Laws.{IsSqlite, IsSeparate}
use gpbackman.Time.RoundTrip.{IsValid}
use gpbackman.Time.Format.{format_layout}
use gpbackman.Config.{
  backup_status_in_progress, date_deleted_in_progress, date_deleted_plugin_failed,
  date_deleted_local_failed,
}
use gpbackman.Db.{get_backup_names_before_timestamp, get_backup_names_after_timestamp}
use gpbackman.Db.Queries.{
  get_backup_name_before_timestamp_query, get_backup_name_after_timestamp_query,
}
use gpbackman.Db.Queries.Lexing.{before_select, after_select, lex-before, lex-after}
use gpbackman.Db.Names.{exec_query_func_reads}
use gpbackman.Cmd.Frame.{Of, log_kept}
use gpbackman.Cmd.Delete.{BackupDeleter, backup_delete_db_local_func, backup_delete_db_plugin_func}
use gpbackman.Cmd.Outcome.{backup_delete_db_local_func_outcome}
use gpbackman.Cmd.Outcome.Plugin.{backup_delete_db_plugin_func_outcome}
use gpbackman.Cmd.Chain.{backup_delete_db, backup_delete_db_local, backup_delete_db_plugin}
use gpbackman.Cmd.Chain.Kept.{exec_query_func_kept}
use gpbackman.Cmd.Chain.Spares.{Spared, Stage-Spared}
use gpbackman.Cmd.Clean.Listed.{clean_list_kept}
use gpbackman.Cmd.Clean.{
  fetch_backup_names_for_deletion, clean_list, backup_clean_db_local, backup_clean_db_plugin,
}

-- The rule of backup-clean: a backup behind the second cut-off, where that is given, or else before
-- the first, whose status is not "In Progress" and which is not deleted or being deleted.
abbrev pub selectable : String → String → Row → Bool
selectable cut_off cut_off_after r =
    (if not (cut_off_after == "")
      then str_lt cut_off_after (r "timestamp")
      else not (cut_off == "") && str_lt (r "timestamp") cut_off)
    && (not (r "status" == backup_status_in_progress)
        && contains ("" ∷ date_deleted_plugin_failed ∷ date_deleted_local_failed ∷ [])
            (r "date_deleted"))

module _ (H : Host) (L : IsSqlite H) (S : IsSeparate H L.committed)
    (cut_off cut_off_after name : String) (start : H.World) where
  abbrev first_query : Exec H.World (List String)
  first_query = if not (cut_off == "") then get_backup_names_before_timestamp H cut_off else pure []

  first_query_kept : (P : Tables → Type 0) → Keeps (Of H L S P) first_query
  unfolding get_backup_names_before_timestamp
  first_query_kept P =
      Keeps-if (not (cut_off == "")) _ _ (λ _. exec_query_func_kept H L S P _) (λ _. Keeps-pure [])

  fetch_kept :
      (P : Tables → Type 0)
      → Keeps (Of H L S P) (fetch_backup_names_for_deletion H cut_off cut_off_after)
  unfolding fetch_backup_names_for_deletion get_backup_names_after_timestamp
  fetch_kept P = Keeps-bind _ _ (first_query_kept P) λ before.
      Keeps-if (not (cut_off_after == "")) _ _ (λ _. exec_query_func_kept H L S P _)
        (λ _. Keeps-pure before)

  module _ (plain : QuoteFree cut_off) (plain_after : QuoteFree cut_off_after)
      (none_selectable : NonePasses
        (selectable cut_off cut_off_after)
        name
        (L.committed start "backups")) where
    first_names :
        (l : List String)
        → (cut_off_after == "") ≡ true
        → (first_query start).0 ≡ ok l
        → All (Elsewhere name) l
    unfolding get_backup_names_before_timestamp answer
    first_names l last e = elim (Bool-cases (cut_off == "")) [
      | inl none ↦
          let empty : [] ≡ l = pure_value [] l start (rw none at e) in
          subst (All (Elsewhere name)) empty tt
      | inr some ↦
          subst (All (Elsewhere name))
            (sym (
              exec_query_func_reads H L (get_backup_name_before_timestamp_query cut_off)
                (before_select cut_off) l start (lex-before cut_off plain) (rw some at e)))
            (answer-Elsewhere name (before_select cut_off) (L.committed start "backups") (
              All-map _ _ (λ r p. (p.0, λ same. ground (arith, p.1 same, last, some)))
                (L.committed start "backups") none_selectable))
    ]

    fetched_names :
        (l : List String)
        → (fetch_backup_names_for_deletion H cut_off cut_off_after start).0 ≡ ok l
        → All (Elsewhere name) l
    unfolding fetch_backup_names_for_deletion get_backup_names_after_timestamp answer
    fetched_names l e =
        let (before, (first, rest)) = bind_value first_query _ start l e in
        elim (Bool-cases (cut_off_after == "")) [
          | inl last ↦
              let same : before ≡ l = pure_value before l (first_query start).1 (rw last at rest) in
              subst (All (Elsewhere name)) same (first_names before last first)
          | inr some ↦
              let tables : L.committed (first_query start).1 ≡ L.committed start =
                (first_query_kept (λ now. now ≡ L.committed start)).at start refl in
              subst (All (Elsewhere name))
                (sym (
                  exec_query_func_reads H L (get_backup_name_after_timestamp_query cut_off_after)
                    (after_select cut_off_after) l (first_query start).1
                    (lex-after cut_off_after plain_after) (rw some at rest)))
                (answer-Elsewhere name (after_select cut_off_after)
                  (L.committed (first_query start).1 "backups")
                  (subst
                    (λ now.
                      NonePasses (holds_all (after_select cut_off_after).conditions) name
                        (now "backups"))
                    (sym tables)
                    (All-map _ _ (λ r p. (p.0, λ same. ground (arith, p.1 same, some)))
                      (L.committed start "backups") none_selectable)))
        ]

    abbrev Alone : Tables → Type 0
    Alone = Spared (λ x. x ≡ name) (L.committed start)

    -- Fetching the names and deleting the listed backups keeps what every deletion of another backup
    -- keeps.
    clean_from_kept :
        (deleter : BackupDeleter H) (force ignore skip : Bool) (text : Error → String)
        → ((x : String) → Elsewhere name x → Keeps (Of H L S Alone) (deleter x ignore))
        → Alone (
            L.committed
              ((do
                list ←
                    on_error
                      (fetch_backup_names_for_deletion H cut_off cut_off_after)
                      (λ e. log_error H (text e))
                clean_list H list
                    (λ names. backup_delete_db H deleter force ignore skip false names))
                start).1)
    clean_from_kept deleter force ignore skip text safe =
        bind_at (λ w. Alone (L.committed w)) _ _ start
          ((Keeps-on_error _ _ (fetch_kept Alone) (λ e. log_kept H L S Alone _ _)).at start
            ((λ table n. refl), λ x e. refl))
          λ l e.
            (clean_list_kept H L S Alone deleter force ignore skip l (
                All-map (Elsewhere name) _ safe l
                  (fetched_names l (on_error-value _ _ start l e)))).at
              _
              ((Keeps-on_error _ _ (fetch_kept Alone) (λ e. log_kept H L S Alone _ _)).at start
                ((λ table n. refl), λ x e. refl))

-- backup-clean of local backups without cascade, however it ends: no table but `backups` is changed,
-- and there no row of a name under which no row is selectable. The cut-offs and the
-- timestamps in `backups` must hold no quote, and the clock must show valid times.
pub backup_clean_db_local-Spared :
    (H : Host) (L : IsSqlite H) (S : IsSeparate H L.committed)
    (cut_off cut_off_after name dir : String) (w : H.World)
    → ((v : H.World) → IsValid (H.now v))
    → QuoteFree cut_off
    → QuoteFree cut_off_after
    → NonePasses (selectable cut_off cut_off_after) name (L.committed w "backups")
    → Spared
        (λ x. x ≡ name)
        (L.committed w)
        (L.committed (backup_clean_db_local H false cut_off cut_off_after dir w).1)
unfolding backup_clean_db_local backup_delete_db_local
backup_clean_db_local-Spared H L S cut_off cut_off_after name dir w valid plain plain_after none =
    clean_from_kept H L S cut_off cut_off_after name w plain plain_after none
      (backup_delete_db_local_func H dir) false false false _
      λ x p. record {
        at = λ v h.
            Stage-Spared (λ y. y ≡ name) (L.committed w) (L.committed v) _ x
              (date_deleted_in_progress ∷ date_deleted_local_failed ∷ format_layout (H.now v) ∷ [])
              p.1 (backup_delete_db_local_func_outcome H L S dir x false v p.0 (valid v)).1 h;
      }

-- The same for backups in a plugin's storage: backup-clean without cascade, however it ends, changes
-- no table but `backups`, and there no row of a name under which no row is selectable by the
-- cut-offs. The cut-offs and the timestamps in `backups` must hold no quote, and the clock must show
-- valid times.
pub backup_clean_db_plugin-Spared :
    (H : Host) (L : IsSqlite H) (S : IsSeparate H L.committed)
    (cut_off cut_off_after name config_path : String) (config : PluginConfig) (w : H.World)
    → ((v : H.World) → IsValid (H.now v))
    → QuoteFree cut_off
    → QuoteFree cut_off_after
    → NonePasses (selectable cut_off cut_off_after) name (L.committed w "backups")
    → Spared
        (λ x. x ≡ name)
        (L.committed w)
        (L.committed (backup_clean_db_plugin H false cut_off cut_off_after config_path config w).1)
unfolding backup_clean_db_plugin backup_delete_db_plugin
backup_clean_db_plugin-Spared H L S cut_off cut_off_after name config_path config w valid plain
      plain_after none =
    clean_from_kept H L S cut_off cut_off_after name w plain plain_after none
      (backup_delete_db_plugin_func H config_path config) false false true _
      λ x p. record {
        at = λ v h.
            Stage-Spared (λ y. y ≡ name) (L.committed w) (L.committed v) _ x
              (date_deleted_in_progress ∷ date_deleted_plugin_failed ∷ format_layout (H.now v) ∷ [])
              p.1
              (backup_delete_db_plugin_func_outcome H L S config_path config x false v p.0
                (valid v)).1
              h;
      }
