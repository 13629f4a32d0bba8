-- ===== src/Cmd/Commands/Clean.antt =====
-- What the backup-clean command leaves alone without cascade.
use mathlib.Core.Path.{subst}
use gpbackman.Base.{◌≡◌, refl, sym, String, Bool, true, false, not, ◌==◌, if◌then◌else◌}
use gpbackman.Go.Exec.{Exec, ◌>>=◌}
use gpbackman.Go.Exec.Steps.{bind_at}
use gpbackman.Sql.Lexer.{QuoteFree}
use gpbackman.Sql.Meaning.{Tables}
use gpbackman.Sql.Meaning.Elsewhere.{NonePasses}
use gpbackman.Time.RoundTrip.{IsValid}
use gpbackman.Host.{Host}
use gpbackman.Host.Laws.{IsSqlite, IsSeparate}
use gpbackman.Cmd.Chain.Spares.{Spared}
use gpbackman.Cmd.Clean.{backup_clean_db_local, backup_clean_db_plugin}
use gpbackman.Cmd.Clean.Unselected.{
  selectable, backup_clean_db_local-Spared, backup_clean_db_plugin-Spared,
}
use gpbackman.Cmd.Flags.{RootOptions}
use gpbackman.Cmd.Flags.Clean.{BackupCleanOptions, CutOffs}
use gpbackman.Cmd.Commands.{plugin_config_of, open_history_db, clean_backup}
use gpbackman.Cmd.Commands.Around.{open_kept, with_deferred_close_at, plugin_config_of_kept}

abbrev clean_work : (H : Host) → BackupCleanOptions → CutOffs → Bool → Exec H.World (Unit {0})
clean_work H options cut_offs with_plugin =
    if with_plugin
    then (plugin_config_of H options.plugin_config_file >>= λ config.
        backup_clean_db_plugin H false cut_offs.before cut_offs.after options.plugin_config_file
          config)
    else backup_clean_db_local H false cut_offs.before cut_offs.after options.backup_dir

module _ (H : Host) (L : IsSqlite H) (S : IsSeparate H L.committed) (options : BackupCleanOptions)
    (cut_offs : CutOffs) (name : String) (start : H.World)
    (valid : (v : H.World) → IsValid (H.now v)) (plain : QuoteFree cut_offs.before)
    (plain_after : QuoteFree cut_offs.after)
    (none : NonePasses
      (selectable cut_offs.before cut_offs.after)
      name
      (L.committed start "backups")) where
  abbrev Same : Tables → Type 0
  Same now = now ≡ L.committed start

  abbrev Alone : Tables → Type 0
  Alone = Spared (λ x. x ≡ name) (L.committed start)

  -- Tables that are still as at the start are as good as those at the start.
  from_start :
      (now : Tables) (next : Tables)
      → Same now
      → (NonePasses (selectable cut_offs.before cut_offs.after) name (now "backups")
          → Spared (λ x. x ≡ name) now next)
      → Alone next
  from_start now next same h =
      let spared = h (
        subst (λ t. NonePasses (selectable cut_offs.before cut_offs.after) name (t "backups"))
          (sym same) none) in
      subst (λ t. Spared (λ x. x ≡ name) t next) same spared

  work_Alone :
      (with_plugin : Bool) (w : H.World)
      → Same (L.committed w)
      → Alone (L.committed (clean_work H options cut_offs with_plugin w).1)
  work_Alone true w same =
      let read = (plugin_config_of_kept H L S Same options.plugin_config_file).at w same in
      bind_at (λ v. Alone (L.committed v)) _ _ w
        (from_start _ _ read (λ _. ((λ table n. refl), λ x e. refl)))
        λ config _. from_start _ _ read (
          backup_clean_db_plugin-Spared H L S cut_offs.before cut_offs.after name
            options.plugin_config_file config _ valid plain plain_after)
  work_Alone false w same = from_start _ _ same (
      backup_clean_db_local-Spared H L S cut_offs.before cut_offs.after name options.backup_dir w
        valid plain plain_after)

-- The backup-clean command without cascade, from opening the database to closing it, however it
-- ends: no table but `backups` is changed, and there no row of a name under which no row is selected.
-- A row is selected where it lies behind the second cut-off, if that is given, or else before the
-- first, if that is given, its status is not "In Progress" and its deletion date is empty or one of a
-- failure. The cut-offs and the timestamps in `backups` must hold no quote, and the clock must show
-- valid times.
pub clean_backup-Spared :
    (H : Host) (L : IsSqlite H) (S : IsSeparate H L.committed) (root : RootOptions)
    (options : BackupCleanOptions) (cut_offs : CutOffs) (name : String) (w : H.World)
    → options.cascade ≡ false
    → ((v : H.World) → IsValid (H.now v))
    → QuoteFree cut_offs.before
    → QuoteFree cut_offs.after
    → NonePasses (selectable cut_offs.before cut_offs.after) name (L.committed w "backups")
    → Spared
        (λ x. x ≡ name)
        (L.committed w)
        (L.committed (clean_backup H root options cut_offs w).1)
unfolding clean_backup
clean_backup-Spared H L S root options cut_offs name w alone valid plain plain_after none =
    let opened = (open_kept H L S (λ now. now ≡ L.committed w) root.history_db).at w refl in
    let work =
      work_Alone H L S options cut_offs name w valid plain plain_after none
        (not (options.plugin_config_file == "")) in
    rw alone (
      bind_at (λ v. Spared (λ x. x ≡ name) (L.committed w) (L.committed v)) _ _ w
        (from_start H L S options cut_offs name w valid plain plain_after none _ _ opened
          (λ _. ((λ table n. refl), λ x e. refl)))
        λ _ _.
          with_deferred_close_at H L S (Spared (λ x. x ≡ name) (L.committed w))
            (clean_work H options cut_offs (not (options.plugin_config_file == "")))
            (open_history_db H root.history_db w).1 (work _ opened))
