-- ===== src/Cmd/Commands/Delete.antt =====
-- What the backup-delete command leaves alone.
use gpbackman.Base.{◌≡◌, refl, sym, Bool, true, false, not, ◌==◌, if◌then◌else◌}
use gpbackman.Go.Exec.{◌>>=◌}
use gpbackman.Go.Exec.Rules.{Keeps, Keeps-bind}
use gpbackman.Sql.Meaning.{Tables}
use gpbackman.Host.{Host}
use gpbackman.Host.Laws.{IsSqlite, IsSeparate}
use gpbackman.Cmd.Frame.{Of, kept}
use gpbackman.Cmd.Delete.{backup_delete_db_local_func, backup_delete_db_plugin_func}
use gpbackman.Cmd.Chain.{backup_delete_db_local, backup_delete_db_plugin}
use gpbackman.Cmd.Chain.Kept.{backup_delete_db_kept}
use gpbackman.Cmd.Chain.Spares.{Spared, SparedOf, Protected, IsPlain, local_Spared, plugin_Spared}
use gpbackman.Cmd.Flags.{RootOptions}
use gpbackman.Cmd.Flags.Delete.{BackupDeleteOptions}
use gpbackman.Cmd.Commands.{delete_backup}
use gpbackman.Cmd.Commands.Around.{with_deferred_close_kept, open_kept}

module _ (H : Host) (L : IsSqlite H) (S : IsSeparate H L.committed) (plain : IsPlain H)
    (root : RootOptions) (options : BackupDeleteOptions) (start : H.World) where
  abbrev Safe : Bool → Tables → Type 0
  Safe skip = SparedOf H L S options.force options.ignore_errors skip start

  work_kept :
      (skip : Bool)
      → Keeps (Of H L S (Safe skip)) (
          if skip
          then (H.read_plugin_config options.plugin_config_file >>= λ config.
              backup_delete_db_plugin H options.timestamps options.cascade options.force
                options.ignore_errors options.plugin_config_file config)
          else backup_delete_db_local H options.timestamps options.backup_dir options.cascade
              options.force options.ignore_errors)
  unfolding backup_delete_db_plugin backup_delete_db_local
  work_kept true =
      Keeps-bind _ _
        (kept H L S (Safe true) (H.read_plugin_config options.plugin_config_file)
          (S.read_plugin_config_keeps options.plugin_config_file))
        λ config.
          backup_delete_db_kept H L S (Safe true)
            (backup_delete_db_plugin_func H options.plugin_config_file config) options.force
            options.ignore_errors true
            (λ name d.
              plugin_Spared H L S options.force options.ignore_errors true start
                options.plugin_config_file name config plain d)
            options.cascade options.timestamps
  work_kept false =
      backup_delete_db_kept H L S (Safe false) (backup_delete_db_local_func H options.backup_dir)
        options.force options.ignore_errors false
        (λ name d.
          local_Spared H L S options.force options.ignore_errors false start options.backup_dir name
            plain d)
        options.cascade options.timestamps

  delete_backup_kept :
      (skip : Bool)
      → skip ≡ not (options.plugin_config_file == "")
      → Keeps (Of H L S (Safe skip)) (delete_backup H root options)
  unfolding delete_backup
  delete_backup_kept skip e = rw (sym e) (
      Keeps-bind _ _ (open_kept H L S (Safe skip) root.history_db)
        λ _. with_deferred_close_kept H L S (Safe skip) _ (work_kept skip))

-- The backup-delete command, from opening the database to closing it, however it ends: no table but
-- `backups` is changed, and there no row of a backup whose record, read while its rows are as at the
-- start, does not pass the check of backups that can be used, for the storage that the options
-- choose. Names under which records are found must hold no quote, and the clock must show valid
-- times.
pub delete_backup-Spared :
    (H : Host) (L : IsSqlite H) (S : IsSeparate H L.committed) (root : RootOptions)
    (options : BackupDeleteOptions)
    → IsPlain H
    → (w : H.World)
    → Spared
        (Protected H L.committed options.force (not (options.plugin_config_file == "")) w)
        (L.committed w)
        (L.committed (delete_backup H root options w).1)
delete_backup-Spared H L S root options plain w =
    (delete_backup_kept H L S plain root options w (not (options.plugin_config_file == "")) refl).at
      w ((λ table n. refl), λ name out. refl)
