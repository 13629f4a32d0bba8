-- ===== src/Host.antt =====
-- What the program uses and does not implement: the SQLite driver behind `database/sql`, gpbackup's
-- history package, the log, the clock, the file system, other processes, the cluster and ssh.
-- Nothing is assumed of it here; what a theorem assumes stands in Host/Laws.antt.
pub mod Actions
pub mod Laws
use gpbackman.Base.{ℕ, String, List, Option}
use gpbackman.Go.Result.{Error, Result}
use gpbackman.Go.Exec.{Exec}
use gpbackman.Time.{Time}
use gpbackman.Config.{History}
use gpbackman.Config.Convert.{HistoryBackupConfig}

pub data Level : Type 0 where
  error info debug : Level

-- The rows of a query as `Next` and `Scan` give them, and the error that `Err` gives at the end.
pub record Cursor : Type 0 where
  pub rows : List (Result String)
  pub final_error : Option Error

-- cluster.go
pub record SegmentConfig : Type 0 where
  pub content_id : String
  pub hostname : String
  pub data_dir : String

-- What `Stat` says of a path.
pub data Stat : Type 0 where
  found : Stat
  not_exist : Error → Stat
  stat_error : Error → Stat

-- What a process wrote, and the error of its run.
pub record Process : Type 0 where
  pub stdout : String
  pub stderr : String
  pub run_error : Option Error

-- gplog.LOGERROR, LOGINFO, LOGVERBOSE, LOGDEBUG
pub data Verbosity : Type 0 where
  log_error_level log_info_level log_verbose_level log_debug_level : Verbosity

-- utils.PluginConfig, as far as it is used.
pub record PluginConfig : Type 0 where
  pub executable_path : String
  pub options : List (String × String)

pub record Host : Type 1 where
  pub World : Type 0
  -- database/sql on the open history database
  pub query : List ℕ → Exec World Cursor
  pub begin : Exec World (Unit {0})
  pub exec : List ℕ → Exec World (Unit {0})
  pub rollback : World → World
  pub commit : Exec World (Unit {0})
  -- history.GetBackupConfig
  pub get_backup_config : String → Exec World HistoryBackupConfig
  -- sql.Open("sqlite3", path), its Close, history.InitializeHistoryDatabase,
  -- history.StoreBackupHistory
  pub open_db : String → Exec World (Unit {0})
  pub close_db : Exec World (Unit {0})
  pub initialize_history_database : String → Exec World (Unit {0})
  pub store_backup_history : HistoryBackupConfig → Exec World (Unit {0})
  -- utils.ReadPluginConfig, and yaml.Unmarshal into a History
  pub read_plugin_config : String → Exec World PluginConfig
  pub unmarshal : String → Result History
  -- gplog.SetVerbosity, gplog.SetLogFileVerbosity
  pub set_verbosity : Verbosity → World → World
  pub set_log_file_verbosity : Verbosity → World → World
  -- os.Args, and the version that main sets
  pub args : World → List String
  pub version : World → String
  -- gplog.Error, gplog.Info, gplog.Debug
  pub log : Level → String → World → World
  -- time.Now
  pub now : World → Time
  -- os.RemoveAll, operating.System.Stat, operating.System.Glob
  pub remove_all : String → Exec World (Unit {0})
  pub stat : String → World → Stat
  pub glob : String → Exec World (List String)
  -- os.ReadFile, os.Rename
  pub read_file : String → Exec World String
  pub rename : String → String → Exec World (Unit {0})
  -- fmt.Println, and t.Render() of a table with this header and these rows
  pub print : String → World → World
  pub render : List String → List (List String) → World → World
  -- exec.Command(...).Run
  pub run_command : List String → World → Process × World
  -- the connection to the local cluster, and its two queries
  pub connect : String → Exec World (Unit {0})
  pub select_string : String → Exec World String
  pub select_segments : String → Exec World (List SegmentConfig)
  -- ssh: the client's configuration, the connection, the session, the command
  pub ssh_config : Exec World (Unit {0})
  pub ssh_dial : String → Exec World (Unit {0})
  pub ssh_session : String → Exec World (Unit {0})
  pub ssh_run : String → String → Exec World (Unit {0})
  -- the order in which the workers of a phase run
  pub schedule : World → List (String × String) → List (String × String)
