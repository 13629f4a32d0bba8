-- ===== src/Tests/Memory.antt =====
-- A host in memory: the tables, a clock that stands, one segment host and no failing call but those
-- that ask for what is not there. It shows that what the theorems assume of a host can hold.
pub mod Engine
use gpbackman.Base.{
  ◌≡◌, map, ◌++◌, ◌==◌, refl, String, ◌<>◌, List, [], ◌∷◌, Option, none, if◌then◌else◌, contains,
  true, false,
}
use gpbackman.Go.Result.{Error, Result, ok, err}
use gpbackman.Time.{Time}
use gpbackman.Config.{History, no_config}
use gpbackman.Config.Convert.{HistoryBackupConfig}
use gpbackman.Sql.{Select, Statement, delete, set_date_deleted}
use gpbackman.Sql.Lexer.{lex}
use gpbackman.Sql.Meaning.{Tables}
use gpbackman.Host.{Host, not_exist}
use gpbackman.Cmd.Migrate.Laws.{filled}
use gpbackman.Host.Laws.{IsSqlite, IsSeparate}
use gpbackman.Db.Queries.Lexing.{names_select, dependencies_select, before_select, clean_select}
use gpbackman.Db.Queries.Deleting.{
  Table, table_name, backups, restore_plans, restore_plan_tables, exclude_relations,
  exclude_schemas, include_relations, include_schemas,
}
use Engine.{
  Store, unknown, do_query, do_statement, do_query_reads, do_query_keeps, do_statement_acts,
  do_statement_keeps,
}

-- A backup of two segments' data, in the directory of its own.
abbrev pub sample : String → HistoryBackupConfig
sample name = record {
  backup_dir = "/data/backups";
  backup_version = "1.30.5";
  compressed = true;
  compression_type = "gzip";
  database_name = "demo";
  database_version = "6.26.4";
  segment_count = 2;
  data_only = false;
  date_deleted = "";
  exclude_relations = [];
  exclude_schema_filtered = false;
  exclude_schemas = [];
  exclude_table_filtered = false;
  include_relations = [];
  include_schema_filtered = false;
  include_schemas = [];
  include_table_filtered = false;
  incremental = false;
  leaf_partition_data = false;
  metadata_only = false;
  plugin = "";
  plugin_version = "";
  restore_plan = [];
  single_data_file = false;
  timestamp = name;
  end_time = "20230611101132";
  without_globals = false;
  with_statistics = false;
  status = "Success";
}

abbrev pub clock : Time
clock = record {
  year = 2023;
  month = 6;
  day = 11;
  hour = 12;
  minute = 30;
  second = 5;
  nanosecond = 0;
}

abbrev pub first_name : String
first_name = "20230610101130"

abbrev pub second_name : String
second_name = "20230611101130"

abbrev dates : List String
dates =
    "In progress" ∷ "Local Delete Failed" ∷ "Plugin Backup Delete Failed" ∷ "20230611123005" ∷ []

abbrev known_selects : List Select
known_selects =
    names_select true true
    ∷ names_select false true
    ∷ dependencies_select first_name
    ∷ dependencies_select second_name
    ∷ before_select second_name
    ∷ clean_select second_name
    ∷ []

abbrev all_tables : List Table
all_tables =
    backups ∷ restore_plans ∷ restore_plan_tables ∷ exclude_relations ∷ exclude_schemas
    ∷ include_relations ∷ include_schemas ∷ []

abbrev known_statements : List Statement
known_statements =
    map (set_date_deleted first_name) dates
    ++ (map (set_date_deleted second_name) dates
        ++ map (λ t. delete (table_name t) (first_name ∷ [])) all_tables)

unfoldable pub memory : Host
unfolding do_query do_statement
memory = record {
  World = Store;
  query = λ q w. do_query known_selects (lex q) w;
  begin = λ w. (ok tt, record w { working = w.committed });
  exec = λ q w. do_statement known_statements (lex q) w;
  rollback = λ w. w;
  commit = λ w. (ok tt, record w { committed = w.working });
  get_backup_config = λ name w.
      (if contains (first_name ∷ second_name ∷ []) name then ok (sample name) else err unknown, w);
  open_db = λ path w. (ok tt, w);
  close_db = λ w. (ok tt, w);
  initialize_history_database = λ path w. (ok tt, w);
  store_backup_history = λ h w. (ok tt, record w { stored = w.stored ++ (filled clock h ∷ []) });
  read_plugin_config =
      λ path w. (ok (record { executable_path = "/usr/local/bin/plugin"; options = [] }), w);
  unmarshal = λ text. ok (record { backup_configs = no_config ∷ [] });
  set_verbosity = λ v w. w;
  set_log_file_verbosity = λ v w. w;
  args = λ w. "gpbackman" ∷ [];
  version = λ w. "0.8.0";
  log = λ level line w. w;
  now = λ w. clock;
  remove_all = λ path w. (ok tt, w);
  stat = λ path w. not_exist unknown;
  glob = λ pattern w. (ok ("/data/backups/gpseg-1/backups" ∷ []), w);
  read_file = λ path w. (ok ("content of " <> path), w);
  rename = λ old new w. (ok tt, record w { renamed = (old, new) ∷ w.renamed });
  print = λ line w. record w { printed = line ∷ w.printed };
  render = λ header rows w. w;
  run_command = λ args w. (record { stdout = "done"; stderr = ""; run_error = none }, w);
  connect = λ db w. (ok tt, w);
  select_string = λ q w. (ok "/data/master/gpseg-1", w);
  select_segments = λ q w. (
    ok (record { content_id = "0"; hostname = "sdw1"; data_dir = "/data/primary/gpseg0" } ∷ []),
    w,
  );
  ssh_config = λ w. (ok tt, w);
  ssh_dial = λ host w. (ok tt, w);
  ssh_session = λ host w. (ok tt, w);
  ssh_run = λ host command w. (ok tt, w);
  schedule = λ w jobs. jobs;
}

unfoldable pub memory-IsSqlite : IsSqlite memory
unfolding memory
memory-IsSqlite = record {
  committed = λ w. w.committed;
  working = λ w. w.working;
  query_reads = λ q s l w t e. do_query_reads known_selects (lex q) s l w t e;
  query_keeps = λ q w. do_query_keeps known_selects (lex q) w;
  begin_keeps = λ w. refl;
  begin_starts = λ w e. refl;
  exec_keeps = λ q w. do_statement_keeps known_statements (lex q) w;
  exec_acts = λ q s w l e. do_statement_acts known_statements (lex q) s w l e;
  rollback_keeps = λ w. refl;
  commit_publishes = λ w e. refl;
  commit_fails = λ w f. absurd (f refl);
}

pub memory-IsSeparate : IsSeparate memory memory-IsSqlite.committed
unfolding memory memory-IsSqlite
memory-IsSeparate = record {
  log_keeps = λ l text w. refl;
  get_backup_config_keeps = λ name w. refl;
  remove_all_keeps = λ path w. refl;
  glob_keeps = λ pattern w. refl;
  run_command_keeps = λ args w. refl;
  connect_keeps = λ db w. refl;
  select_string_keeps = λ q w. refl;
  select_segments_keeps = λ q w. refl;
  ssh_config_keeps = λ w. refl;
  ssh_dial_keeps = λ host w. refl;
  ssh_session_keeps = λ host w. refl;
  ssh_run_keeps = λ host command w. refl;
  open_db_keeps = λ path w. refl;
  close_db_keeps = λ w. refl;
  read_plugin_config_keeps = λ path w. refl;
  read_file_keeps = λ path w. refl;
  print_keeps = λ line w. refl;
  render_keeps = λ header rows w. refl;
}
