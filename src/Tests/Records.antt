-- ===== src/Tests/Records.antt =====
-- The laws of records, times and the history in memory, at concrete records.
use gpbackman.Base.{
  ◌≡◌, refl, ◌≢◌, ◌↔◌, ◌≤◌, String, true, false, [], ◌∷◌, none, arith, Contains, take,
}
use gpbackman.Go.Result.{ok}
use gpbackman.Time.Parse.{parse}
use gpbackman.Time.Format.{format_layout, format_date}
use gpbackman.Time.RoundTrip.{parse-format_layout}
use gpbackman.Config.{BackupConfig, History, no_config}
use gpbackman.Config.Kind.{
  get_backup_type, get_object_filtering_info, check_object_filtering_exists,
}
use gpbackman.Config.Kind.Laws.{
  documented_type, filters, IsErr, get_backup_type-documented, get_object_filtering_info_error,
}
use gpbackman.Config.Kind.Filter.{
  table_kind, table_list, schema_kind, schema_list, check_object_filtering_exists_iff,
}
use gpbackman.Config.Search.{
  find_backup_config, find_backup_config_dependencies, update_backup_config_date_deleted,
}
use gpbackman.Config.Search.Laws.{
  FindsFrom, dependents, found_after, search_in, find_backup_config_first,
  find_backup_config_dependencies_total, find-update,
}
use gpbackman.Config.Convert.{convert_from_history_backup_config, convert_to_history_backup_config}
use gpbackman.Config.Convert.Laws.{convert_from-convert_to, convert_to-convert_from}
use gpbackman.Config.Dates.{get_backup_date_deleted}
use gpbackman.Config.Dates.Laws.{get_backup_date_deleted-format_layout}
use gpbackman.Config.Status.{is_local}
use gpbackman.Cmd.Guard.{check_backup_can_be_used}
use gpbackman.Cmd.Guard.Deleted.{check_backup_can_be_used-deleted}
use gpbackman.Tests.Memory.{memory, clock, sample}
use gpbackman.Tests.States.{start}
use gpbackman.Tests.Delete.{clock-IsValid}

clock_read_back : parse (format_layout clock) ≡ ok clock
clock_read_back = parse-format_layout clock clock-IsValid

-- An incremental backup of one table, which depends on one other backup.
abbrev backup : BackupConfig
backup = record no_config {
  timestamp = "20230611101130";
  incremental = true;
  data_only = false;
  include_table_filtered = true;
  exclude_schema_filtered = true;
  include_relations = "public.t" ∷ [];
  status = "Success";
  date_deleted = format_layout clock;
  restore_plan = record { timestamp = "20230610101130"; table_fqns = "public.t" ∷ [] } ∷ [];
}

abbrev history : History
history = record {
  backup_configs = backup ∷ record no_config { timestamp = "20230610101130" } ∷ [];
}

get_backup_type-documented_example : get_backup_type backup ≡ documented_type true false false
get_backup_type-documented_example = get_backup_type-documented backup

get_object_filtering_info_error_example :
    IsErr (get_object_filtering_info backup) ↔ (2 ≤ filters backup)
get_object_filtering_info_error_example = get_object_filtering_info_error backup

abbrev table : String
table = "public.t"

abbrev no_schema : String
no_schema = ""

abbrev kind : String
kind = "include-table"

check_object_filtering_exists_iff_example :
    (table ≢ no_schema
      → (check_object_filtering_exists backup table no_schema kind false ≡ true)
        ↔ ((kind ≡ table_kind false) × Contains table (table_list false backup)))
    × (table ≡ no_schema
        → no_schema ≢ no_schema
        → (check_object_filtering_exists backup table no_schema kind false ≡ true)
          ↔ ((kind ≡ schema_kind false) × Contains no_schema (schema_list false backup)))
    × (table ≡ no_schema
        → no_schema ≡ no_schema
        → check_object_filtering_exists backup table no_schema kind false ≡ true)
check_object_filtering_exists_iff_example =
    check_object_filtering_exists_iff backup table no_schema kind false

find_backup_config_first_example :
    FindsFrom 0 "20230610101130" history.backup_configs
      (find_backup_config history "20230610101130")
find_backup_config_first_example = find_backup_config_first history "20230610101130"

find_backup_config_dependencies_total_example :
    find_backup_config_dependencies history "20230610101130" 1
    ≡ ok (dependents "20230610101130" (take 1 history.backup_configs))
find_backup_config_dependencies_total_example =
    find_backup_config_dependencies_total history "20230610101130" 1 (omega arith)

find-update_example :
    search_in "20230610101130"
      (update_backup_config_date_deleted history "20230610101130" "In progress")
    ≡ found_after "In progress" (find_backup_config history "20230610101130")
find-update_example = find-update history "20230610101130" "In progress"

convert_from-convert_to_example :
    convert_from_history_backup_config (convert_to_history_backup_config backup) ≡ backup
convert_from-convert_to_example = convert_from-convert_to backup

convert_to-convert_from_example :
    convert_to_history_backup_config (convert_from_history_backup_config (sample "20230611101130"))
    ≡ record (sample "20230611101130") { segment_count = 0 }
convert_to-convert_from_example = convert_to-convert_from (sample "20230611101130")

get_backup_date_deleted-format_layout_example :
    get_backup_date_deleted backup ≡ (format_date clock, none)
get_backup_date_deleted-format_layout_example =
    get_backup_date_deleted-format_layout backup clock clock-IsValid refl

local_storage : is_local backup ≡ true
unfolding is_local
local_storage = refl

check_backup_can_be_used-deleted_example :
    (check_backup_can_be_used memory false false backup start).0 ≡ ok false
check_backup_can_be_used-deleted_example =
    check_backup_can_be_used-deleted memory false backup clock start clock-IsValid refl
      local_storage
