-- ===== src/Host/Laws.antt =====
-- What a theorem assumes of the host.
use gpbackman.Base.{ℕ, ◌≡◌, String, List, map, none}
use gpbackman.Go.Result.{ok}
use gpbackman.Host.{Host, Level}
use gpbackman.Sql.{Select, Statement, select_tokens, statement_tokens}
use gpbackman.Sql.Lexer.{lex}
use gpbackman.Sql.Meaning.{Tables, answer, perform}

-- `database/sql` over SQLite: text that falls into the tokens of a statement means that statement.
-- `committed` are the tables as a new reader sees them, `working` those inside the open
-- transaction. A call that fails leaves the committed tables as they were.
pub record IsSqlite (H : Host) : Type 0 where
  pub committed : H.World → Tables
  pub working : H.World → Tables
  pub query_reads :
      (q : List ℕ) (s : Select) (l : List String) (w : H.World)
      → lex q ≡ select_tokens s
      → (H.query q w).0 ≡ ok (record { rows = map ok l; final_error = none })
      → l ≡ answer s (committed w)
  pub query_keeps : (q : List ℕ) (w : H.World) → committed (H.query q w).1 ≡ committed w
  pub begin_keeps : (w : H.World) → committed (H.begin w).1 ≡ committed w
  pub begin_starts : (w : H.World) → (H.begin w).0 ≡ ok tt → working (H.begin w).1 ≡ committed w
  pub exec_keeps : (q : List ℕ) (w : H.World) → committed (H.exec q w).1 ≡ committed w
  pub exec_acts :
      (q : List ℕ) (s : Statement) (w : H.World)
      → lex q ≡ statement_tokens s
      → (H.exec q w).0 ≡ ok tt
      → working (H.exec q w).1 ≡ perform s (working w)
  pub rollback_keeps : (w : H.World) → committed (H.rollback w) ≡ committed w
  pub commit_publishes :
      (w : H.World) → (H.commit w).0 ≡ ok tt → committed (H.commit w).1 ≡ working w
  pub commit_fails :
      (w : H.World) → ((H.commit w).0 ≡ ok tt → ⊥) → committed (H.commit w).1 ≡ committed w

-- The other calls do not write the history database: the log, the file system, the plugin's process,
-- the cluster and ssh are apart from it, and reading a backup's record changes nothing.
pub record IsSeparate (H : Host) (committed : H.World → Tables) : Type 0 where
  pub log_keeps :
      (l : Level) (text : String) (w : H.World) → committed (H.log l text w) ≡ committed w
  pub get_backup_config_keeps :
      (name : String) (w : H.World) → committed (H.get_backup_config name w).1 ≡ committed w
  pub remove_all_keeps :
      (path : String) (w : H.World) → committed (H.remove_all path w).1 ≡ committed w
  pub glob_keeps : (pattern : String) (w : H.World) → committed (H.glob pattern w).1 ≡ committed w
  pub run_command_keeps :
      (args : List String) (w : H.World) → committed (H.run_command args w).1 ≡ committed w
  pub connect_keeps : (db : String) (w : H.World) → committed (H.connect db w).1 ≡ committed w
  pub select_string_keeps :
      (q : String) (w : H.World) → committed (H.select_string q w).1 ≡ committed w
  pub select_segments_keeps :
      (q : String) (w : H.World) → committed (H.select_segments q w).1 ≡ committed w
  pub ssh_config_keeps : (w : H.World) → committed (H.ssh_config w).1 ≡ committed w
  pub ssh_dial_keeps : (host : String) (w : H.World) → committed (H.ssh_dial host w).1 ≡ committed w
  pub ssh_session_keeps :
      (host : String) (w : H.World) → committed (H.ssh_session host w).1 ≡ committed w
  pub ssh_run_keeps :
      (host command : String) (w : H.World) → committed (H.ssh_run host command w).1 ≡ committed w
  pub open_db_keeps : (path : String) (w : H.World) → committed (H.open_db path w).1 ≡ committed w
  pub close_db_keeps : (w : H.World) → committed (H.close_db w).1 ≡ committed w
  pub read_plugin_config_keeps :
      (path : String) (w : H.World) → committed (H.read_plugin_config path w).1 ≡ committed w
  pub read_file_keeps :
      (path : String) (w : H.World) → committed (H.read_file path w).1 ≡ committed w
  pub print_keeps : (line : String) (w : H.World) → committed (H.print line w) ≡ committed w
  pub render_keeps :
      (header : List String) (rows : List (List String)) (w : H.World)
      → committed (H.render header rows w) ≡ committed w
