-- ===== src/Tests/Flags.antt =====
-- The flags of the commands on the host in memory.
use gpbackman.Base.{
  ◌≡◌, refl, ◌↔◌, ◌&&◌, ◌==◌, String, true, false, List, [], ◌∷◌, ℤ, contains, arith, ◌≤◌, ◌+◌,
}
use gpbackman.Go.Result.{ok}
use gpbackman.Go.Program.{returned, ◌>>=◌, when, check}
use gpbackman.Go.Program.Deciding.{Decides}
use gpbackman.Sql.Lexer.{QuoteFree}
use gpbackman.Time.Parse.{parse}
use gpbackman.Time.{Time, is_digit, days_in}
use gpbackman.Time.Format.{format_layout, day_number, days_before_month}
use gpbackman.Time.RoundTrip.{IsValid}
use gpbackman.Config.Validate.{
  check_timestamp, check_table_fqn, digits_only, get_timestamp_older_then,
}
use gpbackman.Paths.{first_eight}
use gpbackman.Config.Validate.Laws.{IsFqn, check_table_fqn_iff, check_timestamp-safe}
use gpbackman.Config.Validate.Older.{get_timestamp_older_then-day_number}
use gpbackman.Cmd.Flags.{Changed, compatible}
use gpbackman.Cmd.Flags.Delete.{
  BackupDeleteOptions, parallel_flag, do_delete_backup_flag_validation,
}
use gpbackman.Cmd.Flags.Clean.{
  BackupCleanOptions, HistoryCleanOptions, CutOffs, do_clean_backup_flag_validation,
  do_clean_history_flag_validation,
}
use gpbackman.Cmd.Flags.Info.{BackupInfoOptions, do_backup_info_flag_validation}
use gpbackman.Cmd.Flags.Report.{ReportInfoOptions, do_report_info_flag_validation}
use gpbackman.Cmd.Flags.Valid.{
  DeleteAccepts, InfoAccepts, ReportAccepts, do_delete_backup_flag_validation-Decides,
  do_backup_info_flag_validation-Decides, do_report_info_flag_validation-Decides,
}
use gpbackman.Cmd.Flags.CutOffs.{
  do_clean_backup_flag_validation-QuoteFree, do_clean_history_flag_validation-QuoteFree,
}
use gpbackman.Tests.Memory.{memory, clock, second_name}
use gpbackman.Tests.States.{start}
use gpbackman.Tests.Delete.{clock-IsValid}

-- The flags given are those named.
abbrev given : List String → Changed
given names flag = contains names flag

abbrev pub delete_options : BackupDeleteOptions
delete_options = record {
  timestamps = second_name ∷ [];
  plugin_config_file = "";
  backup_dir = "/data/backups";
  cascade = true;
  force = false;
  ignore_errors = false;
  parallel_processes = ℤ.pos 2;
}

do_delete_backup_flag_validation-Decides_example :
    let changed = given ("timestamp" ∷ "backup-dir" ∷ "ignore-errors" ∷ []) in
    Decides
      (DeleteAccepts memory changed delete_options)
      (do_delete_backup_flag_validation memory changed delete_options)
do_delete_backup_flag_validation-Decides_example =
    do_delete_backup_flag_validation-Decides memory
      (given ("timestamp" ∷ "backup-dir" ∷ "ignore-errors" ∷ [])) delete_options

abbrev pub info_options : BackupInfoOptions
info_options = record {
  show_deleted = false;
  show_failed = false;
  backup_type_filter = "full";
  table_name_filter = "public.t";
  schema_name_filter = "";
  exclude_filter = true;
  timestamp = "";
  show_details = false;
}

do_backup_info_flag_validation-Decides_example :
    let changed = given ("type" ∷ "table" ∷ "exclude" ∷ []) in
    Decides
      (λ w. InfoAccepts memory changed info_options)
      (do_backup_info_flag_validation memory changed info_options)
do_backup_info_flag_validation-Decides_example =
    do_backup_info_flag_validation-Decides memory (given ("type" ∷ "table" ∷ "exclude" ∷ []))
      info_options

abbrev pub report_options : ReportInfoOptions
report_options = record {
  timestamp = second_name;
  plugin_config_file = "";
  report_file_plugin_path = "/reports";
  backup_dir = "";
}

do_report_info_flag_validation-Decides_example :
    let changed = given ("timestamp" ∷ "plugin-report-file-path" ∷ []) in
    Decides
      (ReportAccepts memory changed report_options)
      (do_report_info_flag_validation memory changed report_options)
do_report_info_flag_validation-Decides_example =
    do_report_info_flag_validation-Decides memory
      (given ("timestamp" ∷ "plugin-report-file-path" ∷ [])) report_options

clock_always : (w : memory.World) → IsValid (memory.now w)
unfolding memory
clock_always w = clock-IsValid

abbrev pub clean_options : BackupCleanOptions
clean_options = record {
  before_timestamp = second_name;
  after_timestamp = "";
  older_than_days = 0;
  plugin_config_file = "";
  backup_dir = "";
  cascade = false;
  parallel_processes = ℤ.pos 1;
}

abbrev pub cut_offs : CutOffs
cut_offs = record { before = second_name; after = "" }

clean_flags_accepted :
    (do_clean_backup_flag_validation memory (given ("before-timestamp" ∷ [])) clean_options start).0
    ≡ returned cut_offs
unfolding memory start do_clean_backup_flag_validation ◌>>=◌ check check_timestamp compatible
    parallel_flag when
clean_flags_accepted = refl

do_clean_backup_flag_validation-QuoteFree_example :
    QuoteFree second_name × (QuoteFree "" × ((second_name == "" && "" == "") ≡ false))
do_clean_backup_flag_validation-QuoteFree_example =
    do_clean_backup_flag_validation-QuoteFree memory clock_always (given ("before-timestamp" ∷ []))
      clean_options cut_offs start clean_flags_accepted

abbrev history_options : HistoryCleanOptions
history_options = record { before_timestamp = ""; older_than_days = 11 }

history_flags_accepted :
    (do_clean_history_flag_validation memory
      (given ("older-than-days" ∷ []))
      history_options
      start).0
    ≡ returned "20230531123005"
unfolding memory start do_clean_history_flag_validation ◌>>=◌ when get_timestamp_older_then
    format_layout
history_flags_accepted = refl

do_clean_history_flag_validation-QuoteFree_example :
    QuoteFree "20230531123005" × (("20230531123005" == "") ≡ false)
do_clean_history_flag_validation-QuoteFree_example =
    do_clean_history_flag_validation-QuoteFree memory clock_always (given ("older-than-days" ∷ []))
      history_options "20230531123005" start history_flags_accepted

check_table_fqn_iff_example : (check_table_fqn "public.t" ≡ ok tt) ↔ IsFqn "public.t"
check_table_fqn_iff_example = check_table_fqn_iff "public.t"

second_passes : check_timestamp second_name ≡ ok tt
unfolding check_timestamp digits_only is_digit
second_passes = refl

check_timestamp-safe_example :
    QuoteFree second_name × ((day : String) × (first_eight second_name ≡ ok day))
check_timestamp-safe_example = check_timestamp-safe second_name second_passes

long_after : 200 ≤ day_number clock
unfolding day_number days_before_month days_in
long_after = omega arith

get_timestamp_older_then-day_number_example :
    (t : Time) × ((parse (get_timestamp_older_then 200 clock) ≡ ok t)
      × ((day_number t + 200 ≡ day_number clock)
          × ((t.hour ≡ clock.hour) × ((t.minute ≡ clock.minute) × (t.second ≡ clock.second)))))
get_timestamp_older_then-day_number_example =
    get_timestamp_older_then-day_number 200 clock clock-IsValid long_after
