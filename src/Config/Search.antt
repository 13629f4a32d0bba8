-- ===== src/Config/Search.antt =====
-- Searches of the history file in memory (struct.go).
pub mod Laws
use gpbackman.Base.{
  ℕ, zero, suc, ◌+◌, String, Bool, true, false, List, [], ◌∷◌, ◌++◌, if◌then◌else◌, ◌==◌, nat_eq,
  length, leb, take, drop,
}
use gpbackman.Go.Result.{error_new, Result, ok, err, panic}
use gpbackman.Config.{BackupConfig, RestorePlanEntry, History}

-- `for idx, backupConfig := range history.BackupConfigs`, from an index on.
find_from : ℕ → String → List BackupConfig → Result (ℕ × BackupConfig)
find_from idx timestamp [] = err (error_new "backup timestamp doesn't match any existing backups")
find_from idx timestamp (b ∷ rest) =
    if b.timestamp == timestamp then ok (idx, b) else find_from (suc idx) timestamp rest

unfoldable pub find_backup_config : History → String → Result (ℕ × BackupConfig)
unfolding find_from
find_backup_config history timestamp = find_from 0 timestamp history.backup_configs

-- The inner loop: the backup's name once for each entry of its restore plan that names `timestamp`.
plan_hits : String → String → List RestorePlanEntry → List String
plan_hits timestamp name [] = []
plan_hits timestamp name (entry ∷ plan) =
    let rest = plan_hits timestamp name plan in
    if entry.timestamp == timestamp then name ∷ rest else rest

-- The outer loop over the first `stop_position` backups; an index past the end panics.
unfoldable pub dependencies_loop :
    ℕ → List BackupConfig → String → List String → Result (List String)
unfolding plan_hits
dependencies_loop zero backups timestamp found = ok found
dependencies_loop (suc n) [] timestamp found = panic "index out of range"
dependencies_loop (suc n) (b ∷ rest) timestamp found =
    dependencies_loop n rest timestamp (found ++ plan_hits timestamp b.timestamp b.restore_plan)

unfoldable pub find_backup_config_dependencies : History → String → ℕ → Result (List String)
unfolding dependencies_loop
find_backup_config_dependencies history timestamp stop_position =
    dependencies_loop stop_position history.backup_configs timestamp []

abbrev pub cons_result : BackupConfig → Result (List BackupConfig) → Result (List BackupConfig)
cons_result b (ok rest) = ok (b ∷ rest)
cons_result b (err e) = err e
cons_result b (panic p) = panic p

update_first : String → String → List BackupConfig → Result (List BackupConfig)
update_first timestamp date_deleted [] =
    err (error_new "backup timestamp doesn't match any existing backups")
update_first timestamp date_deleted (b ∷ rest) =
    if b.timestamp == timestamp
    then ok (record b { date_deleted = date_deleted } ∷ rest)
    else cons_result b (update_first timestamp date_deleted rest)

abbrev pub with_configs : Result (List BackupConfig) → Result History
with_configs (ok configs) = ok (record { backup_configs = configs })
with_configs (err e) = err e
with_configs (panic p) = panic p

-- The history after the update; an error leaves it as it was.
unfoldable pub update_backup_config_date_deleted : History → String → String → Result History
unfolding update_first
update_backup_config_date_deleted history timestamp date_deleted =
    with_configs (update_first timestamp date_deleted history.backup_configs)
