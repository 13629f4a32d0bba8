-- ===== src/Cmd/Frame.antt =====
-- The calls that leave the history database alone, one lemma for each.
use mathlib.Core.Path.{subst}
use gpbackman.Base.{◌≡◌, sym, String, ◌<>◌, Bool, false, List, [], ◌∷◌}
use gpbackman.TextMsg.{error_not_found_backup_dir_in}
use gpbackman.Go.Result.{Error, Try, done, failed}
use gpbackman.Go.Exec.{Exec}
use gpbackman.Go.Exec.Rules.{
  Keeps, Keeps-pure, Keeps-bind, Keeps-bind-lift, Keeps-attempt, keeps_rules,
}
use gpbackman.Sql.Meaning.{Tables}
use gpbackman.Host.{Host, Level, SegmentConfig, Stat, found, not_exist, stat_error}
use gpbackman.Host.Actions.{write_log}
use gpbackman.Host.Laws.{IsSqlite, IsSeparate}
use gpbackman.Db.{get_backup_data_db}
use gpbackman.Cmd.Segments.{
  Channel, drain, ran, on_host, check_backup_dir_exists_on_segments, delete_backup_dir_on_segments,
  sent, run_workers, segment_paths, delete_phases, execute_delete_backup_on_segments,
}
use gpbackman.Cmd.Delete.{exec_delete_backup_plugin}
use gpbackman.Cmd.Dirs.{
  master_of_matches, matches_of, master_of_stat, check_master_backup_dir,
  new_cluster_local_cluster_conn, queried, connected, get_backup_master_dir_cluster_info,
  from_cluster, get_backup_master_dir, get_segment_configuration_cluster_info,
}

module _ (H : Host) (L : IsSqlite H) (S : IsSeparate H L.committed) (P : Tables → Type 0) where
  -- `P` of the committed tables.
  abbrev pub Of : H.World → Type 0
  Of w = P (L.committed w)

  -- A call that leaves the committed tables alone keeps `P` of them.
  pub kept :
      {A : Type 0} (m : Exec H.World A)
      → ((w : H.World) → L.committed (m w).1 ≡ L.committed w)
      → Keeps Of m
  kept m same = record { at = λ w h. subst P (sym (same w)) h }

  pub log_kept : (l : Level) (text : String) → Keeps Of (write_log H l text)
  unfolding write_log
  log_kept l text = kept (write_log H l text) (S.log_keeps l text)

  pub get_backup_data_db_kept : (name : String) → Keeps Of (get_backup_data_db H name)
  unfolding get_backup_data_db
  get_backup_data_db_kept name =
      Keeps-bind (H.get_backup_config name) _
        (kept (H.get_backup_config name) (S.get_backup_config_keeps name)) (λ b. Keeps-pure _)

  pub remove_all_kept : (path : String) → Keeps Of (H.remove_all path)
  remove_all_kept path = kept (H.remove_all path) (S.remove_all_keeps path)

  pub glob_kept : (pattern : String) → Keeps Of (H.glob pattern)
  glob_kept pattern = kept (H.glob pattern) (S.glob_keeps pattern)

  pub connect_kept : (db : String) → Keeps Of (H.connect db)
  connect_kept db = kept (H.connect db) (S.connect_keeps db)

  pub select_string_kept : (q : String) → Keeps Of (H.select_string q)
  select_string_kept q = kept (H.select_string q) (S.select_string_keeps q)

  pub select_segments_kept : (q : String) → Keeps Of (H.select_segments q)
  select_segments_kept q = kept (H.select_segments q) (S.select_segments_keeps q)

  ssh_config_kept : Keeps Of H.ssh_config
  ssh_config_kept = kept H.ssh_config S.ssh_config_keeps

  ssh_dial_kept : (host : String) → Keeps Of (H.ssh_dial host)
  ssh_dial_kept host = kept (H.ssh_dial host) (S.ssh_dial_keeps host)

  ssh_session_kept : (host : String) → Keeps Of (H.ssh_session host)
  ssh_session_kept host = kept (H.ssh_session host) (S.ssh_session_keeps host)

  ssh_run_kept : (host command : String) → Keeps Of (H.ssh_run host command)
  ssh_run_kept host command = kept (H.ssh_run host command) (S.ssh_run_keeps host command)

  ruleset frame_rules = (
    keeps_rules, log_kept, get_backup_data_db_kept, remove_all_kept, glob_kept, connect_kept,
    select_string_kept, select_segments_kept,
  )

  master_of_matches_kept :
      (dir : String) (matches : List String) → Keeps Of (master_of_matches H dir matches)
  unfolding master_of_matches
  master_of_matches_kept dir [] = search frame_rules
  master_of_matches_kept dir (a ∷ []) = search frame_rules
  master_of_matches_kept dir (a ∷ b ∷ rest) = search frame_rules

  matches_of_kept : (dir : String) (t : Try (List String)) → Keeps Of (matches_of H dir t)
  matches_of_kept dir (done l) = master_of_matches_kept dir l
  matches_of_kept dir (failed e) = search frame_rules

  master_of_stat_kept : (dir : String) (st : Stat) → Keeps Of (master_of_stat H dir st)
  unfolding master_of_stat
  master_of_stat_kept dir (stat_error e) = search frame_rules
  master_of_stat_kept dir found = search frame_rules
  master_of_stat_kept dir (not_exist e) = search (frame_rules, matches_of_kept)

  check_master_backup_dir_kept : (dir : String) → Keeps Of (check_master_backup_dir H dir)
  unfolding check_master_backup_dir
  check_master_backup_dir_kept dir = record {
    at = λ w h. (master_of_stat_kept dir (H.stat (dir <> "/backups") w)).at w h;
  }

  conn_kept : (db : String) → Keeps Of (new_cluster_local_cluster_conn H db)
  unfolding new_cluster_local_cluster_conn
  conn_kept db = search frame_rules

  queried_kept : (t : Try String) → Keeps Of (queried H t)
  queried_kept (done r) = search frame_rules
  queried_kept (failed e) = search frame_rules

  connected_kept : (t : Try (Unit {0})) → Keeps Of (connected H t)
  connected_kept (done r) = search (frame_rules, queried_kept)
  connected_kept (failed e) = search frame_rules

  cluster_info_kept : (db : String) → Keeps Of (get_backup_master_dir_cluster_info H db)
  unfolding get_backup_master_dir_cluster_info
  cluster_info_kept db = search (keeps_rules, conn_kept, connected_kept)

  from_cluster_kept : (info : String) → Keeps Of (from_cluster H info)
  unfolding from_cluster
  from_cluster_kept info = search frame_rules

  pub get_backup_master_dir_kept : (a b c : String) → Keeps Of (get_backup_master_dir H a b c)
  unfolding get_backup_master_dir
  get_backup_master_dir_kept a b c =
      search (keeps_rules, check_master_backup_dir_kept, cluster_info_kept, from_cluster_kept)

  pub get_segment_configuration_kept :
      (db : String) → Keeps Of (get_segment_configuration_cluster_info H db)
  unfolding get_segment_configuration_cluster_info
  get_segment_configuration_kept db = search (frame_rules, conn_kept)

  ran_kept :
      (f : Error → Error) (command host : String) (t : Try (Unit {0}))
      → Keeps Of (ran H f command host t)
  ran_kept f command host (done u) = search frame_rules
  ran_kept f command host (failed e) = search frame_rules

  on_host_kept :
      (command_of : String → String) (f : String → Error → Error) (path host : String)
      → Keeps Of (on_host H command_of f path host)
  unfolding on_host
  on_host_kept command_of f path host =
      search (frame_rules, ssh_dial_kept, ssh_session_kept, ssh_run_kept, ran_kept) depth 9

  run_workers_kept :
      (worker : String → String → Exec H.World (Unit {0}))
      → ((path host : String) → Keeps Of (worker path host))
      → (paths : List (String × String)) (ch : Channel) → Keeps Of (run_workers H worker paths ch)
  unfolding run_workers
  run_workers_kept worker kw [] ch = Keeps-pure ch
  run_workers_kept worker kw ((path, host) ∷ rest) ch =
      Keeps-bind _ _ (Keeps-attempt _ (kw path host))
        λ t. Keeps-bind-lift (sent H ch t) _ (λ ch' _. run_workers_kept worker kw rest ch')

  check_worker_kept :
      (path host : String) → Keeps Of (check_backup_dir_exists_on_segments H path host)
  unfolding check_backup_dir_exists_on_segments
  check_worker_kept path host =
      on_host_kept (λ p. "test -d " <> p)
        (λ p e. error_not_found_backup_dir_in (p <> " on host " <> host)) path host

  delete_worker_kept : (path host : String) → Keeps Of (delete_backup_dir_on_segments H path host)
  unfolding delete_backup_dir_on_segments
  delete_worker_kept path host = on_host_kept (λ p. "rm -rf " <> p) (λ p e. e) path host

  delete_phases_kept :
      (ignore : Bool) (paths : List (String × String)) → Keeps Of (delete_phases H ignore paths)
  unfolding delete_phases
  delete_phases_kept ignore paths =
      Keeps-bind _ _ (record { at = λ w h. h })
        λ order.
          Keeps-bind _ _
            (run_workers_kept (check_backup_dir_exists_on_segments H) check_worker_kept order
              (record { errors = []; closed = false }))
            λ ch. Keeps-bind-lift (drain ignore _) _ λ ch' _.
              Keeps-bind _ _ (record { at = λ w h. h })
                λ order'.
                  Keeps-bind _ _
                    (run_workers_kept (delete_backup_dir_on_segments H) delete_worker_kept order'
                      ch')
                    λ ch''. Keeps-bind-lift (drain ignore _) _ (λ _ _. Keeps-pure tt)

  pub execute_delete_kept :
      (a b c d : String) (single ignore : Bool) (configs : List SegmentConfig)
      → Keeps Of (execute_delete_backup_on_segments H a b c d single ignore configs)
  unfolding execute_delete_backup_on_segments
  execute_delete_kept a b c d single ignore configs = Keeps-bind _ _ ssh_config_kept λ _.
      Keeps-bind-lift (segment_paths a b c d single configs) _
        λ paths _. delete_phases_kept ignore paths

  pub plugin_run_kept : (a b c d : String) → Keeps Of (exec_delete_backup_plugin H a b c d)
  unfolding exec_delete_backup_plugin
  plugin_run_kept a b c d =
      kept (exec_delete_backup_plugin H a b c d) (S.run_command_keeps (a ∷ b ∷ c ∷ d ∷ []))
