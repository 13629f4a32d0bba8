-- ===== src/Config/Kind/Filter.antt =====
-- Which backups a table filter or a schema filter selects.
use gpbackman.Base.{
  ◌≡◌, ◌≢◌, ◌↔◌, String, Bool, true, false, List, [], ◌∷◌, arith, eq_iff, Contains,
}
use gpbackman.Config.{
  BackupConfig, object_filtering_include_schema, object_filtering_exclude_schema,
  object_filtering_include_table, object_filtering_exclude_table,
}
use gpbackman.Config.Kind.{search_filter, check_object_filtering_exists}

pub search_filter_iff :
    (list : List String) (value : String) → (search_filter list value ≡ true) ↔ Contains value list
unfolding search_filter
search_filter_iff [] value = (λ h. cc, λ h. absurd h)
search_filter_iff (item ∷ rest) value =
    ground (arith, eq_iff item value, search_filter_iff rest value)

abbrev pub table_kind : Bool → String
table_kind true = object_filtering_exclude_table
table_kind false = object_filtering_include_table

abbrev pub table_list : Bool → BackupConfig → List String
table_list true b = b.exclude_relations
table_list false b = b.include_relations

abbrev pub schema_kind : Bool → String
schema_kind true = object_filtering_exclude_schema
schema_kind false = object_filtering_include_schema

abbrev pub schema_list : Bool → BackupConfig → List String
schema_list true b = b.exclude_schemas
schema_list false b = b.include_schemas

-- With a table filter, exactly the backups of the matching kind of table filtering pass that list
-- the table (in the excluded tables with `exclude`), whatever the schema filter is. With a schema
-- filter alone it is the same for schemas. With neither, every backup passes.
pub check_object_filtering_exists_iff :
    (b : BackupConfig) (table schema kind : String) (exclude : Bool)
    → (table ≢ ""
        → (check_object_filtering_exists b table schema kind exclude ≡ true)
          ↔ ((kind ≡ table_kind exclude) × Contains table (table_list exclude b)))
      × (table ≡ ""
          → schema ≢ ""
          → (check_object_filtering_exists b table schema kind exclude ≡ true)
            ↔ ((kind ≡ schema_kind exclude) × Contains schema (schema_list exclude b)))
      × (table ≡ ""
          → schema ≡ ""
          → check_object_filtering_exists b table schema kind exclude ≡ true)
unfolding check_object_filtering_exists
check_object_filtering_exists_iff b table schema kind true = ground (
  arith,
  eq_iff table "",
  eq_iff schema "",
  eq_iff kind object_filtering_exclude_table,
  eq_iff kind object_filtering_exclude_schema,
  search_filter_iff b.exclude_relations table,
  search_filter_iff b.exclude_schemas schema,
)
check_object_filtering_exists_iff b table schema kind false = ground (
  arith,
  eq_iff table "",
  eq_iff schema "",
  eq_iff kind object_filtering_include_table,
  eq_iff kind object_filtering_include_schema,
  search_filter_iff b.include_relations table,
  search_filter_iff b.include_schemas schema,
)
