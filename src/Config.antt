-- ===== src/Config.antt =====
-- The data of a backup: gpbckpconfig/struct.go.
pub mod Kind
pub mod Status
pub mod Dates
pub mod Search
pub mod Convert
pub mod Validate
use gpbackman.Base.{ℕ, String, Bool, false, List, []}

pub record RestorePlanEntry : Type 0 where
  pub timestamp : String
  pub table_fqns : List String

pub record BackupConfig : Type 0 where
  pub backup_dir : String
  pub backup_version : String
  pub compressed : Bool
  pub compression_type : String
  pub database_name : String
  pub database_version : String
  pub data_only : Bool
  pub date_deleted : String
  pub exclude_relations : List String
  pub exclude_schema_filtered : Bool
  pub exclude_schemas : List String
  pub exclude_table_filtered : Bool
  pub include_relations : List String
  pub include_schema_filtered : Bool
  pub include_schemas : List String
  pub include_table_filtered : Bool
  pub incremental : Bool
  pub leaf_partition_data : Bool
  pub metadata_only : Bool
  pub plugin : String
  pub plugin_version : String
  pub restore_plan : List RestorePlanEntry
  pub single_data_file : Bool
  pub timestamp : String
  pub end_time : String
  pub without_globals : Bool
  pub with_statistics : Bool
  pub status : String

pub record History : Type 0 where
  pub backup_configs : List BackupConfig

-- The zero value `BackupConfig{}`.
abbrev pub no_config : BackupConfig
no_config = record {
  backup_dir = "";
  backup_version = "";
  compressed = false;
  compression_type = "";
  database_name = "";
  database_version = "";
  data_only = false;
  date_deleted = "";
  exclude_relations = [];
  exclude_schema_filtered = false;
  exclude_schemas = [];
  exclude_table_filtered = false;
  include_relations = [];
  include_schema_filtered = false;
  include_schemas = [];
  include_table_filtered = false;
  incremental = false;
  leaf_partition_data = false;
  metadata_only = false;
  plugin = "";
  plugin_version = "";
  restore_plan = [];
  single_data_file = false;
  timestamp = "";
  end_time = "";
  without_globals = false;
  with_statistics = false;
  status = "";
}

-- Backup types.
abbrev pub backup_type_full : String
backup_type_full = "full"

abbrev pub backup_type_incremental : String
backup_type_incremental = "incremental"

abbrev pub backup_type_data_only : String
backup_type_data_only = "data-only"

abbrev pub backup_type_metadata_only : String
backup_type_metadata_only = "metadata-only"

-- Backup statuses.
abbrev pub backup_status_success : String
backup_status_success = "Success"

abbrev pub backup_status_failure : String
backup_status_failure = "Failure"

abbrev pub backup_status_in_progress : String
backup_status_in_progress = "In Progress"

-- Object filtering types.
abbrev pub object_filtering_include_schema : String
object_filtering_include_schema = "include-schema"

abbrev pub object_filtering_exclude_schema : String
object_filtering_exclude_schema = "exclude-schema"

abbrev pub object_filtering_include_table : String
object_filtering_include_table = "include-table"

abbrev pub object_filtering_exclude_table : String
object_filtering_exclude_table = "exclude-table"

-- Date deleted types.
abbrev pub date_deleted_in_progress : String
date_deleted_in_progress = "In progress"

abbrev pub date_deleted_plugin_failed : String
date_deleted_plugin_failed = "Plugin Backup Delete Failed"

abbrev pub date_deleted_local_failed : String
date_deleted_local_failed = "Local Delete Failed"

abbrev pub backup_s3_plugin : String
backup_s3_plugin = "gpbackup_s3_plugin"
