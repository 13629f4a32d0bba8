-- ===== src/Cmd/Dirs.antt =====
-- Where the files of a backup are: cmd/wrappers.go, CheckMasterBackupDir of gpbckpconfig/utils.go
-- and the connection of gpbckpconfig/cluster.go.
use gpbackman.Base.{String, ◌<>◌, Bool, true, false, not, List, [], ◌∷◌, if◌then◌else◌, ◌==◌}
use gpbackman.Go.Result.{Result, ok, err, Try, done, failed}
use gpbackman.Go.Exec.{Exec, pure, raise, lift, attempt, on_error, ◌>>=◌, ◌>>◌}
use gpbackman.TextMsg.{
  error_find_backup_dir_in, error_not_found_backup_dir_in, error_several_found_backup_dir_in,
  error_validation_value, error_empty_database, error_text_unable_connect_local_cluster,
  error_text_unable_get_backup_dir_local_cluster_conn,
}
use gpbackman.Paths.{get_seg_prefix}
use gpbackman.Paths.FilePath.{path_join}
use gpbackman.Host.{Host, SegmentConfig, Stat, found, not_exist, stat_error}
use gpbackman.Host.Actions.{log_error, log_debug}

-- The directory of the master, the prefix of the segments' directories, and whether all use one
-- directory.
pub record MasterDir : Type 0 where
  pub dir : String
  pub seg_prefix : String
  pub single : Bool

abbrev pub no_dir : MasterDir
no_dir = record { dir = ""; seg_prefix = ""; single = false }

unfoldable pub check_single_backup_dir : String → String → String → Bool → String
check_single_backup_dir backup_dir seg_prefix seg_id is_single =
    if is_single then backup_dir else path_join (backup_dir ∷ (seg_prefix <> seg_id) ∷ [])

unfoldable pub get_backup_segment_dir :
    String → String → String → String → String → Bool → Result String
unfolding check_single_backup_dir
get_backup_segment_dir backup_dir data_backup_dir data_dir seg_prefix seg_id is_single =
    if not (backup_dir == "")
    then ok (check_single_backup_dir backup_dir seg_prefix seg_id is_single)
    else if not (data_backup_dir == "")
    then ok (check_single_backup_dir data_backup_dir seg_prefix seg_id is_single)
    else if not (data_dir == "")
    then ok data_dir
    else err error_validation_value

module _ (H : Host) where
  -- The one directory that `Glob` must find.
  unfoldable pub master_of_matches : String → List String → Exec H.World MasterDir
  master_of_matches backup_dir [] = raise (error_not_found_backup_dir_in backup_dir)
  master_of_matches backup_dir (match ∷ []) = do
    prefix ← lift (get_seg_prefix match)
    pure (record {
      dir = path_join (backup_dir ∷ (prefix <> "-1") ∷ []);
      seg_prefix = prefix;
      single = false;
    })
  master_of_matches backup_dir (a ∷ b ∷ rest) = raise (error_several_found_backup_dir_in backup_dir)

  abbrev pub matches_of : String → Try (List String) → Exec H.World MasterDir
  matches_of backup_dir (done matches) = master_of_matches backup_dir matches
  matches_of backup_dir (failed e) = raise (error_find_backup_dir_in backup_dir e)

  unfoldable pub master_of_stat : String → Stat → Exec H.World MasterDir
  unfolding master_of_matches
  master_of_stat backup_dir (stat_error e) = raise (error_find_backup_dir_in backup_dir e)
  master_of_stat backup_dir found =
      pure (record { dir = backup_dir; seg_prefix = ""; single = true })
  master_of_stat backup_dir (not_exist e) = do
    t ← attempt (H.glob (backup_dir <> "/*-1/backups"))
    matches_of backup_dir t

  unfoldable pub check_master_backup_dir : String → Exec H.World MasterDir
  unfolding master_of_stat
  check_master_backup_dir backup_dir w =
      master_of_stat backup_dir (H.stat (backup_dir <> "/backups") w) w

  unfoldable pub new_cluster_local_cluster_conn : String → Exec H.World (Unit {0})
  new_cluster_local_cluster_conn db_name =
      if db_name == "" then raise error_empty_database else H.connect db_name

  abbrev pub master_dir_query : String
  master_dir_query =
      "SELECT datadir FROM gp_segment_configuration WHERE content = -1 AND role = 'p';"

  abbrev pub queried : Try String → Exec H.World String
  queried (failed e) = do
    log_error H (error_text_unable_get_backup_dir_local_cluster_conn e)
    pure ""
  queried (done result) = do log_debug H ("Master data directory: " <> result); pure result

  abbrev pub connected : Try (Unit {0}) → Exec H.World String
  connected (failed e) = do log_error H (error_text_unable_connect_local_cluster e); pure ""
  connected (done u) = do t ← attempt (H.select_string master_dir_query); queried t

  unfoldable pub get_backup_master_dir_cluster_info : String → Exec H.World String
  unfolding new_cluster_local_cluster_conn
  get_backup_master_dir_cluster_info db_name = do
    t ← attempt (new_cluster_local_cluster_conn db_name)
    connected t

  unfoldable pub get_segment_configuration_cluster_info : String → Exec H.World (List SegmentConfig)
  unfolding new_cluster_local_cluster_conn
  get_segment_configuration_cluster_info db_name = do
    on_error (new_cluster_local_cluster_conn db_name)
        (λ e. log_error H (error_text_unable_connect_local_cluster e))
    on_error
        (H.select_segments
          "SELECT content as contentid, hostname, datadir FROM gp_segment_configuration WHERE role = 'p' and content != -1 ORDER BY content;")
        (λ e. log_error H (error_text_unable_get_backup_dir_local_cluster_conn e))

  unfoldable pub from_cluster : String → Exec H.World MasterDir
  from_cluster info =
      if not (info == "")
      then (do
        prefix ← lift (get_seg_prefix (path_join (info ∷ "backups" ∷ [])))
        pure (record { dir = info; seg_prefix = prefix; single = false }))
      else raise error_validation_value

  unfoldable pub get_backup_master_dir : String → String → String → Exec H.World MasterDir
  unfolding check_master_backup_dir get_backup_master_dir_cluster_info from_cluster
  get_backup_master_dir backup_dir data_backup_dir data_db_name =
      if not (backup_dir == "")
      then check_master_backup_dir backup_dir
      else if not (data_backup_dir == "")
      then check_master_backup_dir data_backup_dir
      else (do info ← get_backup_master_dir_cluster_info data_db_name; from_cluster info)
