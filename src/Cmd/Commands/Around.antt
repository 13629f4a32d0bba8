-- ===== src/Cmd/Commands/Around.antt =====
-- Opening and closing the history database do not write it.
use gpbackman.Base.{String, Bool-cases, inl, inr}
use gpbackman.Go.Result.{Error, Try, done, failed}
use gpbackman.Go.Exec.{Exec}
use gpbackman.Go.Exec.Rules.{Keeps, Keeps-pure, Keeps-bind, Keeps-attempt, Keeps-on_error}
use gpbackman.Sql.Meaning.{Tables}
use gpbackman.Host.{Host}
use gpbackman.Host.Laws.{IsSqlite, IsSeparate}
use gpbackman.Cmd.Frame.{Of, kept, log_kept}
use gpbackman.Cmd.Guard.{log_failed}
use gpbackman.Cmd.Commands.{
  ends_process, plugin_config_of, close_history_db, with_deferred_close, open_history_db,
}

module _ (H : Host) (L : IsSqlite H) (S : IsSeparate H L.committed) (P : Tables → Type 0) where
  log_failed_kept :
      (t : Try (Unit {0})) (text : Error → String) → Keeps (Of H L S P) (log_failed H t text)
  log_failed_kept (done u) text = Keeps-pure tt
  log_failed_kept (failed e) text = log_kept H L S P _ _

  close_kept : Keeps (Of H L S P) (close_history_db H)
  unfolding close_history_db
  close_kept =
      Keeps-bind _ _ (Keeps-attempt _ (kept H L S P H.close_db S.close_db_keeps))
        λ t. log_failed_kept t _

  -- What holds behind the body holds behind the deferred close.
  pub with_deferred_close_at :
      {A : Type 0} (body : Exec H.World A) (w : H.World)
      → Of H L S P (body w).1
      → Of H L S P (with_deferred_close H body w).1
  unfolding with_deferred_close
  with_deferred_close_at body w h = elim (Bool-cases (ends_process H (body w).0)) [
    | inl ends ↦ rw ends h
    | inr returns ↦ rw returns (close_kept.at (body w).1 h)
  ]

  pub with_deferred_close_kept :
      {A : Type 0} (body : Exec H.World A)
      → Keeps (Of H L S P) body
      → Keeps (Of H L S P) (with_deferred_close H body)
  with_deferred_close_kept body k = record { at = λ w h. with_deferred_close_at body w (k.at w h) }

  pub open_kept : (path : String) → Keeps (Of H L S P) (open_history_db H path)
  unfolding open_history_db
  open_kept path =
      Keeps-on_error _ _ (kept H L S P (H.open_db _) (S.open_db_keeps _))
        (λ e. log_kept H L S P _ _)

  pub plugin_config_of_kept : (file : String) → Keeps (Of H L S P) (plugin_config_of H file)
  plugin_config_of_kept file =
      Keeps-on_error _ _
        (kept H L S P (H.read_plugin_config file) (S.read_plugin_config_keeps file))
        (λ e. log_kept H L S P _ _)
