-- ===== src/Cmd/Segments.antt =====
-- Deleting the files of a backup on the segment hosts: executeDeleteBackupOnSegments and its workers
-- (cmd/backup_delete.go). The workers of a phase run one after another, in an order that the host
-- chooses; the errors that they send stand in the channel in that order.
pub mod Panic
use gpbackman.Base.{
  String, ◌<>◌, Bool, true, false, Option, none, some, List, [], ◌∷◌, ◌++◌, if◌then◌else◌,
}
use gpbackman.Go.Result.{Error, Result, ok, err, panic, Try, done, failed}
use gpbackman.Go.Exec.{Exec, pure, raise, lift, attempt, on_error, ◌>>=◌, ◌>>◌}
use gpbackman.TextMsg.{
  info_text_command_execution, info_text_command_execution_succeeded,
  error_text_command_execution_failed, error_not_found_backup_dir_in,
}
use gpbackman.Paths.{backup_dir_path, with_result}
use gpbackman.Host.{Host, SegmentConfig}
use gpbackman.Host.Actions.{log_error, log_debug}
use gpbackman.Cmd.Dirs.{get_backup_segment_dir}

-- `errCh`: the errors that stand in it, and whether it is closed.
pub record Channel : Type 0 where
  pub errors : List Error
  pub closed : Bool

abbrev pub closed_channel : String
closed_channel = "send on closed channel"

-- `errCh <- err`; a send on a closed channel panics.
unfoldable pub send : Channel → Error → Result Channel
send ch e =
    if ch.closed then panic closed_channel else ok (record ch { errors = ch.errors ++ (e ∷ []) })

-- `for err := range errCh { if err != nil && !ignoreErrors { return err } }`
unfoldable pub drain : Bool → Channel → Result Channel
drain true ch = ok (record ch { errors = [] })
drain false ch = elim ch.errors [ [] ↦ ok ch | e ∷ rest ↦ err e ]

-- The directory of the backup on each segment's host, with the host. The paths are all computed
-- before the workers start; in the source a worker may have started when a later path fails.
unfoldable pub segment_paths :
    String → String → String → String → Bool → List SegmentConfig → Result (List (String × String))
segment_paths backup_dir data_backup_dir backup_name seg_prefix is_single [] = ok []
segment_paths backup_dir data_backup_dir backup_name seg_prefix is_single (c ∷ configs) =
    let rest = segment_paths backup_dir data_backup_dir backup_name seg_prefix is_single configs in
    with_result
      (get_backup_segment_dir backup_dir data_backup_dir c.data_dir seg_prefix c.content_id
        is_single)
      λ dir.
        with_result (backup_dir_path dir backup_name)
          λ path. with_result rest λ paths. ok ((path, c.hostname) ∷ paths)

module _ (H : Host) where
  abbrev pub ran : (Error → Error) → String → String → Try (Unit {0}) → Exec H.World (Unit {0})
  ran failure command host (failed e) = do
    log_error H (error_text_command_execution_failed e (command ∷ "on host" ∷ host ∷ []))
    raise (failure e)
  ran failure command host (done u) =
      log_debug H (info_text_command_execution_succeeded (command ∷ "on host" ∷ host ∷ []))

  -- What a worker does on one host. `failure` is the error that it sends where the command fails.
  unfoldable pub on_host :
      (String → String) → (String → Error → Error) → String → String → Exec H.World (Unit {0})
  on_host command_of failure path host = do
    H.ssh_dial host
    H.ssh_session host
    let command = command_of path
    log_debug H (info_text_command_execution (command ∷ "on host" ∷ host ∷ []))
    t ← attempt (H.ssh_run host command)
    ran (failure path) command host t

  unfoldable pub check_backup_dir_exists_on_segments : String → String → Exec H.World (Unit {0})
  unfolding on_host
  check_backup_dir_exists_on_segments path host =
      on_host (λ p. "test -d " <> p)
        (λ p e. error_not_found_backup_dir_in (p <> " on host " <> host)) path host

  unfoldable pub delete_backup_dir_on_segments : String → String → Exec H.World (Unit {0})
  unfolding on_host
  delete_backup_dir_on_segments path host = on_host (λ p. "rm -rf " <> p) (λ p e. e) path host

  abbrev pub sent : Channel → Try (Unit {0}) → Result Channel
  sent ch (done u) = ok ch
  sent ch (failed e) = send ch e

  -- The workers of one phase.
  unfoldable pub run_workers :
      (String → String → Exec H.World (Unit {0}))
      → List (String × String)
      → Channel
      → Exec H.World Channel
  unfolding send
  run_workers worker [] ch = pure ch
  run_workers worker ((path, host) ∷ rest) ch = do
    t ← attempt (worker path host)
    ch' ← lift (sent ch t)
    run_workers worker rest ch'

  -- The phases: check the directories, wait, close the channel, read it; then delete them, wait,
  -- and read the channel again. The channel stays closed, since `once` has run.
  unfoldable pub delete_phases : Bool → List (String × String) → Exec H.World (Unit {0})
  unfolding drain run_workers
  delete_phases ignore_errors paths = do
    order ← (λ w. (ok (H.schedule w paths), w))
    ch ←
        run_workers check_backup_dir_exists_on_segments order
          (record { errors = []; closed = false })
    ch' ← lift (drain ignore_errors (record ch { closed = true }))
    order' ← (λ w. (ok (H.schedule w paths), w))
    ch'' ← run_workers delete_backup_dir_on_segments order' ch'
    lift (drain ignore_errors ch'')
    pure tt

  unfoldable pub execute_delete_backup_on_segments :
      String → String → String → String → Bool → Bool → List SegmentConfig → Exec H.World (Unit {0})
  unfolding segment_paths delete_phases
  execute_delete_backup_on_segments backup_dir data_backup_dir backup_name seg_prefix is_single
        ignore_errors configs =
      do
        H.ssh_config
        paths ←
            lift (segment_paths backup_dir data_backup_dir backup_name seg_prefix is_single configs)
        delete_phases ignore_errors paths
