-- ===== src/Db/Queries.antt =====
-- The texts of the SQL statements (gpbckpconfig/utils_db.go).
pub mod Lexing
pub mod Deleting
use gpbackman.Base.{
  ℕ, String, ◌<>◌, Bool, ◌&&◌, not, List, [], ◌∷◌, if◌then◌else◌, codes, join, sprintf,
}
use gpbackman.Config.{
  backup_status_failure, backup_status_in_progress, date_deleted_in_progress,
  date_deleted_plugin_failed, date_deleted_local_failed,
}

unfoldable pub get_backup_name_query : Bool → Bool → List ℕ
unfolding sprintf
get_backup_name_query show_d show_f =
    let order_by = codes "ORDER BY timestamp DESC;" in
    let query = codes "SELECT timestamp FROM backups" in
    if show_d && show_f
    then sprintf "%s %s" (query ∷ order_by ∷ [])
    else if show_d && not show_f
    then sprintf "%s WHERE status != '%s' %s" (query ∷ codes backup_status_failure ∷ order_by ∷ [])
    else if not show_d && show_f
    then sprintf "%s WHERE date_deleted IN ('', '%s', '%s', '%s') %s" (
        query
        ∷ codes date_deleted_in_progress
        ∷ codes date_deleted_plugin_failed
        ∷ codes date_deleted_local_failed
        ∷ order_by
        ∷ [])
    else sprintf "%s WHERE status != '%s' AND date_deleted IN ('', '%s', '%s', '%s') %s" (
        query
        ∷ codes backup_status_failure
        ∷ codes date_deleted_in_progress
        ∷ codes date_deleted_plugin_failed
        ∷ codes date_deleted_local_failed
        ∷ order_by
        ∷ [])

unfoldable pub get_backup_dependencies_query : String → List ℕ
unfolding sprintf
get_backup_dependencies_query backup_name =
    sprintf
      "\nSELECT timestamp \nFROM restore_plans\nWHERE timestamp != '%s'\n\tAND restore_plan_timestamp = '%s'\nORDER BY timestamp DESC;\n"
      (codes backup_name ∷ codes backup_name ∷ [])

unfoldable pub get_backup_name_before_timestamp_query : String → List ℕ
unfolding sprintf
get_backup_name_before_timestamp_query timestamp =
    sprintf
      "\nSELECT timestamp \nFROM backups \nWHERE timestamp < '%s' \n\tAND status != '%s' \n\tAND date_deleted IN ('', '%s', '%s') \nORDER BY timestamp DESC;\n"
      (codes timestamp
        ∷ codes backup_status_in_progress
        ∷ codes date_deleted_plugin_failed
        ∷ codes date_deleted_local_failed
        ∷ [])

unfoldable pub get_backup_name_after_timestamp_query : String → List ℕ
unfolding sprintf
get_backup_name_after_timestamp_query timestamp =
    sprintf
      "\nSELECT timestamp \nFROM backups \nWHERE timestamp > '%s' \n\tAND status != '%s' \n\tAND date_deleted IN ('', '%s', '%s') \nORDER BY timestamp DESC;\n"
      (codes timestamp
        ∷ codes backup_status_in_progress
        ∷ codes date_deleted_plugin_failed
        ∷ codes date_deleted_local_failed
        ∷ [])

unfoldable pub get_backup_name_for_clean_before_timestamp_query : String → List ℕ
unfolding sprintf
get_backup_name_for_clean_before_timestamp_query timestamp =
    sprintf
      "\nSELECT timestamp \nFROM backups \nWHERE timestamp < '%s' \n\tAND date_deleted NOT IN ('', '%s', '%s', '%s') \nORDER BY timestamp DESC;\n"
      (codes timestamp
        ∷ codes date_deleted_plugin_failed
        ∷ codes date_deleted_local_failed
        ∷ codes date_deleted_in_progress
        ∷ [])

unfoldable pub delete_backups_form_table_query : String → List ℕ → List ℕ
unfolding sprintf
delete_backups_form_table_query db value =
    sprintf "DELETE FROM %s WHERE timestamp IN (%s);" (codes db ∷ value ∷ [])

unfoldable pub update_delete_status_query : String → String → List ℕ
unfolding sprintf
update_delete_status_query timestamp status =
    sprintf "UPDATE backups SET date_deleted = '%s' WHERE timestamp = '%s';"
      (codes status ∷ codes timestamp ∷ [])
