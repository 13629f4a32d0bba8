-- ===== src/Cmd/Info.antt =====
-- backup-info: cmd/backup_info.go and formatBackupDuration of cmd/wrappers.go.
pub mod Rows
pub mod Elapsed
use gpbackman.Base.{
  ℕ, ◌-◌, ◌+◌, ◌*◌, ◌/◌, ◌%◌, String, ◌<>◌, Bool, true, false, ◌&&◌, ◌||◌, not, Option, none, some,
  List, [], ◌∷◌, ◌++◌, if◌then◌else◌, ◌==◌, ltb, ℤ, padded,
}
use gpbackman.Go.Result.{Error, Result, ok, err, panic}
use gpbackman.Go.Exec.{Exec, pure, lift, on_error, ◌>>=◌, ◌>>◌}
use gpbackman.TextMsg.{
  error_text_unable_get_backup_value, error_text_unable_read_history_db,
  error_text_unable_get_backup_info,
}
use gpbackman.Config.{BackupConfig}
use gpbackman.Config.Kind.{
  get_backup_type, get_object_filtering_info, get_object_filtering_details,
  check_object_filtering_exists,
}
use gpbackman.Config.Dates.{
  Duration, forth, back, get_backup_date, get_backup_duration, get_backup_date_deleted,
}
use gpbackman.Host.{Host}
use gpbackman.Host.Actions.{log_error}
use gpbackman.Db.{get_backup_names_db, get_backup_data_db, get_backup_dependencies}
use gpbackman.Cmd.Flags.Info.{BackupInfoOptions}
use gpbackman.Cmd.Guard.{log_if}

-- A row of the printed table, cell by cell.
abbrev pub TableRow : Type 0
TableRow = List String

-- `int(value)` of a duration in seconds: the fraction is cut off, also of a negative number.
unfoldable pub whole_seconds : Duration → ℤ
whole_seconds (forth n) = ℤ.pos (n / 1000000000)
whole_seconds (back n) =
    if ltb (n + 1) 1000000000 then ℤ.pos 0 else ℤ.negsuc ((n + 1) / 1000000000 - 1)

-- Go's division and remainder of an integer by a positive number, which cut off toward zero.
unfoldable pub quotient : ℤ → ℕ → ℤ
quotient (ℤ.pos n) d = ℤ.pos (n / d)
quotient (ℤ.negsuc n) d = if ltb (n + 1) d then ℤ.pos 0 else ℤ.negsuc ((n + 1) / d - 1)

unfoldable pub remainder : ℤ → ℕ → ℤ
remainder (ℤ.pos n) d = ℤ.pos (n % d)
remainder (ℤ.negsuc n) d = if ltb 0 ((n + 1) % d) then ℤ.negsuc ((n + 1) % d - 1) else ℤ.pos 0

unfoldable pub format_backup_duration : Duration → String
unfolding whole_seconds quotient remainder padded
format_backup_duration value =
    let seconds = whole_seconds value in
    padded (quotient seconds 3600)
    <> ":"
    <> padded (quotient (remainder seconds 3600) 60)
    <> ":"
    <> padded (remainder seconds 60)

abbrev pub header_cells : TableRow
header_cells =
    "timestamp" ∷ "date" ∷ "status" ∷ "database" ∷ "type" ∷ "object filtering" ∷ "plugin"
    ∷ "duration" ∷ "date deleted" ∷ []

-- initTable: the header. The rows are shown by descending timestamp.
unfoldable pub init_table : Bool → TableRow
init_table include_details =
    if include_details then header_cells ++ ("object filtering details" ∷ []) else header_cells

-- The value beside an error is the zero value.
abbrev pub value_or {ℓ} : {A : Type ℓ} → A → Result A → A
value_or zero_value (ok a) = a
value_or zero_value (err e) = zero_value
value_or zero_value (panic p) = zero_value

abbrev pub error_of {ℓ} : {A : Type ℓ} → Result A → Option Error
error_of (ok a) = none
error_of (err e) = some e
error_of (panic p) = none

-- The filters of backup-info.
pub record Filters : Type 0 where
  pub kind : String
  pub table : String
  pub schema : String
  pub exclude : Bool

abbrev pub no_filters : Filters
no_filters = record { kind = ""; table = ""; schema = ""; exclude = false }

-- Whether a backup passes the filters.
unfoldable pub matches : Filters → BackupConfig → Bool
matches f b =
    (f.kind == "" || f.kind == value_or "" (get_backup_type b))
    && check_object_filtering_exists b f.table f.schema (value_or "" (get_object_filtering_info b))
        f.exclude

unfoldable pub backup_row : Bool → BackupConfig → TableRow
unfolding format_backup_duration
backup_row include_details b =
    let row =
      b.timestamp
      ∷ value_or "" (get_backup_date b)
      ∷ b.status
      ∷ b.database_name
      ∷ value_or "" (get_backup_type b)
      ∷ value_or "" (get_object_filtering_info b)
      ∷ b.plugin
      ∷ format_backup_duration (value_or (forth 0) (get_backup_duration b))
      ∷ (get_backup_date_deleted b).0
      ∷ [] in
    if include_details then row ++ (get_object_filtering_details b ∷ []) else row

module _ (H : Host) where
  unfoldable pub log_unreadable : String → BackupConfig → Option Error → Exec H.World (Unit {0})
  log_unreadable value b e =
      log_if H e (λ x. error_text_unable_get_backup_value value b.timestamp x)

  -- The rows of the table before, and the backup's row behind them where it passes the filters.
  -- Values that cannot be read are logged, and shown as empty.
  unfoldable pub add_backup_to_table :
      Filters → Bool → BackupConfig → List TableRow → Exec H.World (List TableRow)
  unfolding log_unreadable matches backup_row
  add_backup_to_table filters include_details b rows = do
    log_unreadable "date" b (error_of (get_backup_date b))
    log_unreadable "type" b (error_of (get_backup_type b))
    log_unreadable "object filtering" b (error_of (get_object_filtering_info b))
    log_unreadable "duration" b (error_of (get_backup_duration b))
    log_unreadable "date deletion" b (get_backup_date_deleted b).1
    pure (if matches filters b then rows ++ (backup_row include_details b ∷ []) else rows)

  -- The body of the loops: the record is read, and its row added.
  unfoldable pub show_backup :
      Filters → Bool → String → List TableRow → Exec H.World (List TableRow)
  unfolding add_backup_to_table
  show_backup filters include_details name rows = do
    b ←
        on_error (get_backup_data_db H name)
          (λ e. log_error H (error_text_unable_get_backup_info name e))
    add_backup_to_table filters include_details b rows

  unfoldable pub show_backups :
      Filters → Bool → List String → List TableRow → Exec H.World (List TableRow)
  unfolding show_backup
  show_backups filters include_details [] rows = pure rows
  show_backups filters include_details (name ∷ names) rows = do
    more ← show_backup filters include_details name rows
    show_backups filters include_details names more

  -- With no timestamp, the listed backups that pass the filters.
  unfoldable pub list_backups : BackupInfoOptions → Exec H.World (List TableRow)
  unfolding show_backups
  list_backups options = do
    names ←
        on_error (get_backup_names_db H options.show_deleted options.show_failed)
          (λ e. log_error H (error_text_unable_read_history_db e))
    show_backups
        (record {
          kind = options.backup_type_filter;
          table = options.table_name_filter;
          schema = options.schema_name_filter;
          exclude = options.exclude_filter;
        })
        options.show_details names []

  -- With a timestamp, that backup and those that depend on it.
  unfoldable pub list_chain : BackupInfoOptions → Exec H.World (List TableRow)
  unfolding show_backups
  list_chain options = do
    rows ← show_backup no_filters options.show_details options.timestamp []
    names ←
        on_error (get_backup_dependencies H options.timestamp)
          (λ e. log_error H (error_text_unable_read_history_db e))
    show_backups no_filters options.show_details names rows

  -- backupInfoDB, which fills the table with these rows.
  unfoldable pub backup_info_db : BackupInfoOptions → Exec H.World (List TableRow)
  unfolding list_backups list_chain
  backup_info_db options =
      if options.timestamp == "" then list_backups options else list_chain options
