-- ===== src/Tests/Shown.antt =====
-- What backup-info shows and history-migrate stores on the host in memory.
use gpbackman.Base.{
  ◌≡◌, refl, String, ◌<>◌, ℕ, ◌+◌, ◌*◌, ◌/◌, ◌<◌, Bool, true, false, List, [], ◌∷◌,
}
use gpbackman.Config.{BackupConfig, no_config}
use gpbackman.Config.Dates.{forth}
use gpbackman.Cmd.Flags.Info.{BackupInfoOptions}
use gpbackman.Cmd.Info.{TableRow, format_backup_duration}
use gpbackman.Cmd.Info.Elapsed.{clock_text, format_backup_duration-parts}
use gpbackman.Cmd.Migrate.{store_backups}
use gpbackman.Cmd.Migrate.Laws.{IsHistoryStore, Stored, store_backups-Stored}
use gpbackman.Tests.Memory.{clock, memory, first_name, second_name}
use gpbackman.Tests.States.{start}

abbrev all_options : BackupInfoOptions
all_options = record {
  show_deleted = true;
  show_failed = true;
  backup_type_filter = "full";
  table_name_filter = "";
  schema_name_filter = "";
  exclude_filter = false;
  timestamp = "";
  show_details = false;
}

abbrev shown_row : String → String → TableRow
shown_row name date = name ∷ date ∷ "Success" ∷ "demo" ∷ "full" ∷ "" ∷ "" ∷ "00:00:02" ∷ "" ∷ []

abbrev shown_rows : List TableRow
shown_rows =
    shown_row second_name "Sun Jun 11 2023 10:11:30"
    ∷ ("20230610101130" ∷ "Sat Jun 10 2023 10:11:30" ∷ "Success" ∷ "demo" ∷ "full" ∷ "" ∷ ""
        ∷ "24:00:02" ∷ "" ∷ [])
    ∷ []

format_backup_duration-parts_example :
    (hours : ℕ) × (minutes : ℕ) × (seconds : ℕ) × ((format_backup_duration (forth 86402000000000)
        ≡ clock_text hours minutes seconds)
      × ((minutes < 60)
          × ((seconds < 60)
              × (hours * 3600 + minutes * 60 + seconds ≡ 86402000000000 / 1000000000))))
format_backup_duration-parts_example = format_backup_duration-parts 86402000000000

memory_store : IsHistoryStore memory
unfolding memory
memory_store = record {
  records = λ w. w.stored;
  store_appends = λ h w e. (clock, refl);
  store_fails = λ h w f. absurd (f refl);
  log_keeps = λ l line w. refl;
  read_file_keeps = λ path w. refl;
  rename_keeps = λ old new w. refl;
}

-- The second record has no end time.
abbrev two_configs : List BackupConfig
two_configs =
    record no_config { timestamp = first_name; end_time = "20230610101132" }
    ∷ record no_config { timestamp = second_name }
    ∷ []

store_backups-Stored_example :
    Stored memory memory_store two_configs start (store_backups memory two_configs start)
store_backups-Stored_example = store_backups-Stored memory memory_store two_configs start
