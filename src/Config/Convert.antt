-- ===== src/Config/Convert.antt =====
-- The conversions between the program's records and those of gpbackup's history package
-- (converters.go). The record of that package has one more field, the number of segments.
pub mod Laws
use gpbackman.Base.{ℕ, String, Bool, List, [], ◌∷◌}
use gpbackman.Config.{RestorePlanEntry, BackupConfig}

pub record HistoryRestorePlanEntry : Type 0 where
  pub timestamp : String
  pub table_fqns : List String

pub record HistoryBackupConfig : Type 0 where
  pub backup_dir : String
  pub backup_version : String
  pub compressed : Bool
  pub compression_type : String
  pub database_name : String
  pub database_version : String
  pub segment_count : ℕ
  pub data_only : Bool
  pub date_deleted : String
  pub exclude_relations : List String
  pub exclude_schema_filtered : Bool
  pub exclude_schemas : List String
  pub exclude_table_filtered : Bool
  pub include_relations : List String
  pub include_schema_filtered : Bool
  pub include_schemas : List String
  pub include_table_filtered : Bool
  pub incremental : Bool
  pub leaf_partition_data : Bool
  pub metadata_only : Bool
  pub plugin : String
  pub plugin_version : String
  pub restore_plan : List HistoryRestorePlanEntry
  pub single_data_file : Bool
  pub timestamp : String
  pub end_time : String
  pub without_globals : Bool
  pub with_statistics : Bool
  pub status : String

convert_from_history_restore_plan_entry : HistoryRestorePlanEntry → RestorePlanEntry
convert_from_history_restore_plan_entry e = record {
  timestamp = e.timestamp;
  table_fqns = e.table_fqns;
}

convert_from_history_restore_plan : List HistoryRestorePlanEntry → List RestorePlanEntry
unfolding convert_from_history_restore_plan_entry
convert_from_history_restore_plan [] = []
convert_from_history_restore_plan (e ∷ rest) =
    convert_from_history_restore_plan_entry e ∷ convert_from_history_restore_plan rest

unfoldable pub convert_from_history_backup_config : HistoryBackupConfig → BackupConfig
unfolding convert_from_history_restore_plan
convert_from_history_backup_config h = record {
  backup_dir = h.backup_dir;
  backup_version = h.backup_version;
  compressed = h.compressed;
  compression_type = h.compression_type;
  database_name = h.database_name;
  database_version = h.database_version;
  data_only = h.data_only;
  date_deleted = h.date_deleted;
  exclude_relations = h.exclude_relations;
  exclude_schema_filtered = h.exclude_schema_filtered;
  exclude_schemas = h.exclude_schemas;
  exclude_table_filtered = h.exclude_table_filtered;
  include_relations = h.include_relations;
  include_schema_filtered = h.include_schema_filtered;
  include_schemas = h.include_schemas;
  include_table_filtered = h.include_table_filtered;
  incremental = h.incremental;
  leaf_partition_data = h.leaf_partition_data;
  metadata_only = h.metadata_only;
  plugin = h.plugin;
  plugin_version = h.plugin_version;
  restore_plan = convert_from_history_restore_plan h.restore_plan;
  single_data_file = h.single_data_file;
  timestamp = h.timestamp;
  end_time = h.end_time;
  without_globals = h.without_globals;
  with_statistics = h.with_statistics;
  status = h.status;
}

convert_to_history_restore_plan_entry : RestorePlanEntry → HistoryRestorePlanEntry
convert_to_history_restore_plan_entry e = record {
  timestamp = e.timestamp;
  table_fqns = e.table_fqns;
}

convert_to_history_restore_plan : List RestorePlanEntry → List HistoryRestorePlanEntry
unfolding convert_to_history_restore_plan_entry
convert_to_history_restore_plan [] = []
convert_to_history_restore_plan (e ∷ rest) =
    convert_to_history_restore_plan_entry e ∷ convert_to_history_restore_plan rest

-- `SegmentCount` is not given: it is the zero value.
unfoldable pub convert_to_history_backup_config : BackupConfig → HistoryBackupConfig
unfolding convert_to_history_restore_plan
convert_to_history_backup_config b = record {
  backup_dir = b.backup_dir;
  backup_version = b.backup_version;
  compressed = b.compressed;
  compression_type = b.compression_type;
  database_name = b.database_name;
  database_version = b.database_version;
  segment_count = 0;
  data_only = b.data_only;
  date_deleted = b.date_deleted;
  exclude_relations = b.exclude_relations;
  exclude_schema_filtered = b.exclude_schema_filtered;
  exclude_schemas = b.exclude_schemas;
  exclude_table_filtered = b.exclude_table_filtered;
  include_relations = b.include_relations;
  include_schema_filtered = b.include_schema_filtered;
  include_schemas = b.include_schemas;
  include_table_filtered = b.include_table_filtered;
  incremental = b.incremental;
  leaf_partition_data = b.leaf_partition_data;
  metadata_only = b.metadata_only;
  plugin = b.plugin;
  plugin_version = b.plugin_version;
  restore_plan = convert_to_history_restore_plan b.restore_plan;
  single_data_file = b.single_data_file;
  timestamp = b.timestamp;
  end_time = b.end_time;
  without_globals = b.without_globals;
  with_statistics = b.with_statistics;
  status = b.status;
}
