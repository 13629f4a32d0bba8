-- ===== src/Db/Clean.antt =====
-- Removing backups from the history database, in batches: CleanBackupsDB
-- (gpbckpconfig/utils_db.go).
pub mod Batches
pub mod Safe
pub mod Emptied
pub mod Gone
use gpbackman.Base.{
  ℕ, zero, suc, ◌+◌, ◌-◌, String, List, [], ◌∷◌, ◌++◌, if◌then◌else◌, ltb, codes, join_codes,
  length, take, drop,
}
use gpbackman.Go.Result.{error_new}
use gpbackman.Go.Exec.{Exec, pure, raise, ◌>>=◌, ◌>>◌}
use gpbackman.Host.{Host}
use gpbackman.Db.{exec_statement_func}
use gpbackman.Db.Queries.{delete_backups_form_table_query}

-- idStr := "'" + strings.Join(batchIDs, "','") + "'"
unfoldable pub id_str : List String → List ℕ
id_str ids = codes "'" ++ (join_codes ids "','" ++ codes "'")

-- list[i:end]
abbrev pub sub_list {ℓ} : {A : Type ℓ} → List A → ℕ → ℕ → List A
sub_list list i end = take (end - i) (drop i list)

module _ (H : Host) where
  unfoldable pub delete_from : String → List String → Exec H.World (Unit {0})
  delete_from table batch =
      exec_statement_func H (delete_backups_form_table_query table (id_str batch))

  -- The body of the loop: one statement for each table.
  unfoldable pub clean_batch : List String → Exec H.World (Unit {0})
  clean_batch batch = do
    delete_from "backups" batch
    delete_from "restore_plans" batch
    delete_from "restore_plan_tables" batch
    delete_from "exclude_relations" batch
    delete_from "exclude_schemas" batch
    delete_from "include_relations" batch
    delete_from "include_schemas" batch

  -- `for i := 0; i < len(list); i += batchSize`, on fuel: a round for each name is enough, since the
  -- batch size is positive.
  unfoldable pub clean_loop : ℕ → List String → ℕ → ℕ → Exec H.World (Unit {0})
  clean_loop zero list batch_size i = raise (error_new "out of fuel")
  clean_loop (suc fuel) list batch_size i =
      let end = if ltb (length list) (i + batch_size) then length list else i + batch_size in
      let rest = clean_loop fuel list batch_size (i + batch_size) in
      if ltb i (length list) then clean_batch (sub_list list i end) >> rest else pure tt

  unfoldable pub clean_backups_db : List String → ℕ → Exec H.World (Unit {0})
  unfolding clean_loop clean_batch delete_from
  clean_backups_db list batch_size = clean_loop (suc (length list)) list batch_size 0
