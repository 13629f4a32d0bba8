-- ===== src/Host/Actions.antt =====
-- The calls on the host that cannot fail, as actions.
use gpbackman.Base.{String}
use gpbackman.Go.Result.{ok}
use gpbackman.Go.Exec.{Exec}
use gpbackman.Host.{Host, Level, error, info, debug}
use gpbackman.Time.Format.{format_layout}

module _ (H : Host) where
  unfoldable pub write_log : Level → String → Exec H.World (Unit {0})
  write_log level text w = (ok tt, H.log level text w)

  abbrev pub log_error : String → Exec H.World (Unit {0})
  log_error = write_log error

  abbrev pub log_info : String → Exec H.World (Unit {0})
  log_info = write_log info

  abbrev pub log_debug : String → Exec H.World (Unit {0})
  log_debug = write_log debug

  unfoldable pub roll_back : Exec H.World (Unit {0})
  roll_back w = (ok tt, H.rollback w)

  -- getCurrentTimestamp (cmd/wrappers.go): time.Now().Format(gpbckpconfig.Layout)
  unfoldable pub get_current_timestamp : Exec H.World String
  get_current_timestamp w = (ok (format_layout (H.now w)), w)
