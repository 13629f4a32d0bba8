-- ===== src/Cmd/Report/Logged.antt =====
-- Runs that only write to the log.
use gpbackman.Base.{◌≡◌, ap, ◌∙◌, String}
use gpbackman.Go.Result.{Error, Result, err}
use gpbackman.Go.Exec.{Exec, on_error, ◌>>=◌}
use gpbackman.Go.Exec.Rules.{Keeps}
use gpbackman.Go.Exec.Steps.{bind_err, on_error_err}
use gpbackman.Host.{Host, Level, error}
use gpbackman.Host.Actions.{write_log, log_error}

-- The second world is reached from the first by writing lines to the log, and by nothing else.
pub data Logged (H : Host) (start : H.World) : H.World → Type 0 where
  unchanged : Logged H start start
  line :
      (level : Level) (text : String) (w : H.World)
      → Logged H start w
      → Logged H start (H.log level text w)

module _ (H : Host) (start : H.World) where
  pub write_log-Logged : (l : Level) (text : String) → Keeps (Logged H start) (write_log H l text)
  unfolding write_log
  write_log-Logged l text = record { at = λ w h. line l text w h }

module _ (H : Host) {A B : Type 0} (m : Exec H.World A) (text : Error → String)
    (f : A → Exec H.World B) (w : H.World) where
  -- A call that fails is reported in one line, and nothing follows.
  pub reported_err :
      {x : Error}
      → (m w).0 ≡ err x
      → (on_error m (λ e. log_error H (text e)) >>= f) w ≡ (err x, H.log error (text x) (m w).1)
  unfolding write_log ◌>>=◌
  reported_err {x} e =
      let out = on_error_err m (λ y. log_error H (text y)) w e in
      bind_err (on_error m (λ y. log_error H (text y))) f w (ap (λ o. o.0) out)
      ∙ ap (λ (o : Result A × H.World). (err x, o.1)) out
