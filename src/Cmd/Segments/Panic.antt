-- ===== src/Cmd/Segments/Panic.antt =====
-- The errors of the delete phase.
use gpbackman.Base.{◌≡◌, refl, ◌∙◌, ap, String, Bool, true, false, List, [], ◌∷◌, ◌++◌}
use gpbackman.Go.Result.{Error, ok, err, panic}
use gpbackman.Go.Exec.{Exec, attempt, ◌>>=◌}
use gpbackman.Host.{Host}
use gpbackman.Cmd.Segments.{
  Channel, send, drain, run_workers, delete_phases, check_backup_dir_exists_on_segments,
  delete_backup_dir_on_segments,
}

module _ (H : Host) (worker : String → String → Exec H.World (Unit {0})) where
  -- One run of all the workers, as far as the state goes, where none fails.
  abbrev pub Quiet : List (String × String) → H.World → H.World → Type 0
  Quiet [] w v = w ≡ v
  Quiet ((path, host) ∷ rest) w v =
      ((worker path host w).0 ≡ ok tt) × Quiet rest (worker path host w).1 v

  pub run_workers-Quiet :
      (jobs : List (String × String)) (ch : Channel) (w v : H.World)
      → Quiet jobs w v
      → run_workers H worker jobs ch w ≡ (ok ch, v)
  unfolding run_workers attempt ◌>>=◌
  run_workers-Quiet [] ch w v q = ap (λ u. (ok ch, u)) q
  run_workers-Quiet ((path, host) ∷ rest) ch w v (e, q) =
      rw e (run_workers-Quiet rest ch (worker path host w).1 v q)

  -- The first worker that fails after the channel has been closed ends the program: its send panics.
  pub run_workers_closed :
      (before after : List (String × String)) (path host : String) (errors : List Error)
      (w v : H.World) (x : Error)
      → Quiet before w v
      → (worker path host v).0 ≡ err x
      → (run_workers H worker
          (before ++ ((path, host) ∷ after))
          (record { errors = errors; closed = true })
          w).0
        ≡ panic "send on closed channel"
  unfolding run_workers send attempt ◌>>=◌
  run_workers_closed [] after path host errors w v x q f =
      let g : (worker path host w).0 ≡ err x = ap (λ u. (worker path host u).0) q ∙ f in rw g refl
  run_workers_closed ((p, h) ∷ before) after path host errors w v x (e, q) f =
      rw e (run_workers_closed before after path host errors (worker p h w).1 v x q f)

module _ (H : Host) (paths before after : List (String × String)) (path host : String)
    (w v u : H.World) (x : Error) where
  -- Where the check of every host succeeds and then a deletion fails, the error is lost: the channel
  -- was closed after the checks, so that sending on it ends the program with a panic, whether errors
  -- are ignored or not.
  pub delete_phases_panics :
      (ignore : Bool)
      → Quiet H (check_backup_dir_exists_on_segments H) (H.schedule w paths) w v
      → H.schedule v paths ≡ before ++ ((path, host) ∷ after)
      → Quiet H (delete_backup_dir_on_segments H) before v u
      → (delete_backup_dir_on_segments H path host u).0 ≡ err x
      → (delete_phases H ignore paths w).0 ≡ panic "send on closed channel"
  unfolding delete_phases drain ◌>>=◌
  delete_phases_panics true c s d f =
      rw
        (
          run_workers-Quiet H (check_backup_dir_exists_on_segments H) (H.schedule w paths)
              (record { errors = []; closed = false }) w v c,
          s,
          run_workers_closed H (delete_backup_dir_on_segments H) before after path host [] v u x d
              f,
        )
        refl
  delete_phases_panics false c s d f =
      rw
        (
          run_workers-Quiet H (check_backup_dir_exists_on_segments H) (H.schedule w paths)
              (record { errors = []; closed = false }) w v c,
          s,
          run_workers_closed H (delete_backup_dir_on_segments H) before after path host [] v u x d
              f,
        )
        refl
