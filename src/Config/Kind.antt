-- ===== src/Config/Kind.antt =====
-- The type of a backup and its object filtering, from the flags of its record (struct.go).
pub mod Laws
pub mod Filter
use gpbackman.Base.{
  String, Bool, true, false, ◌&&◌, ◌||◌, not, List, [], ◌∷◌, if◌then◌else◌, ◌==◌, join,
}
use gpbackman.Go.Result.{error_new, Result, ok, err, panic}
use gpbackman.Config.{
  BackupConfig, backup_type_full, backup_type_incremental, backup_type_data_only,
  backup_type_metadata_only, object_filtering_include_schema, object_filtering_exclude_schema,
  object_filtering_include_table, object_filtering_exclude_table,
}

unfoldable pub get_backup_type : BackupConfig → Result String
get_backup_type b =
    if not b.incremental && (not b.data_only && not b.metadata_only)
    then ok backup_type_full
    else if b.incremental && (not b.data_only && not b.metadata_only)
    then ok backup_type_incremental
    else if b.data_only && (not b.incremental && not b.metadata_only)
    then ok backup_type_data_only
    else if b.metadata_only && not b.incremental || b.metadata_only && not b.data_only
    then ok backup_type_metadata_only
    else err (error_new "backup type does not match any of the available values")

unfoldable pub get_object_filtering_info : BackupConfig → Result String
get_object_filtering_info b =
    if b.include_schema_filtered
      && (not b.exclude_schema_filtered
          && (not b.include_table_filtered && not b.exclude_table_filtered))
    then ok object_filtering_include_schema
    else if b.exclude_schema_filtered
        && (not b.include_schema_filtered
            && (not b.include_table_filtered && not b.exclude_table_filtered))
    then ok object_filtering_exclude_schema
    else if b.include_table_filtered
        && (not b.include_schema_filtered
            && (not b.exclude_schema_filtered && not b.exclude_table_filtered))
    then ok object_filtering_include_table
    else if b.exclude_table_filtered
        && (not b.include_schema_filtered
            && (not b.exclude_schema_filtered && not b.include_table_filtered))
    then ok object_filtering_exclude_table
    else if not b.exclude_table_filtered
        && (not b.include_schema_filtered
            && (not b.exclude_schema_filtered && not b.include_table_filtered))
    then ok ""
    else err (error_new "backup filtering type does not match any of the available values")

-- The string of a result, "" beside an error: `filter, _ := ...`.
abbrev pub value_or_empty : Result String → String
value_or_empty (ok s) = s
value_or_empty (err e) = ""
value_or_empty (panic p) = ""

unfoldable pub get_object_filtering_details : BackupConfig → String
unfolding get_object_filtering_info
get_object_filtering_details b =
    let filter = value_or_empty (get_object_filtering_info b) in
    if filter == object_filtering_include_table
    then join b.include_relations ", "
    else if filter == object_filtering_exclude_table
    then join b.exclude_relations ", "
    else if filter == object_filtering_include_schema
    then join b.include_schemas ", "
    else if filter == object_filtering_exclude_schema
    then join b.exclude_schemas ", "
    else ""

-- utils.go
unfoldable pub search_filter : List String → String → Bool
search_filter [] value = false
search_filter (item ∷ rest) value = if item == value then true else search_filter rest value

unfoldable pub check_object_filtering_exists : BackupConfig → String → String → String → Bool → Bool
check_object_filtering_exists b table_filter schema_filter object_filter exclude_filter =
    if not (table_filter == "") && not exclude_filter
    then (if object_filter == object_filtering_include_table
        then search_filter b.include_relations table_filter
        else false)
    else if not (table_filter == "") && exclude_filter
    then (if object_filter == object_filtering_exclude_table
        then search_filter b.exclude_relations table_filter
        else false)
    else if not (schema_filter == "") && not exclude_filter
    then (if object_filter == object_filtering_include_schema
        then search_filter b.include_schemas schema_filter
        else false)
    else if not (schema_filter == "") && exclude_filter
    then (if object_filter == object_filtering_exclude_schema
        then search_filter b.exclude_schemas schema_filter
        else false)
    else true
