-- ===== src/Config/Convert/Laws.antt =====
-- The two conversions of gpbckpconfig/converters.go, one after the other.
use gpbackman.Base.{◌≡◌, refl, ap, List, [], ◌∷◌}
use gpbackman.Config.{RestorePlanEntry, BackupConfig}
use gpbackman.Config.Convert.{
  HistoryRestorePlanEntry, HistoryBackupConfig, convert_from_history_restore_plan,
  convert_to_history_restore_plan, convert_from_history_backup_config,
  convert_to_history_backup_config,
}

plan_from-to :
    (plan : List RestorePlanEntry)
    → convert_from_history_restore_plan (convert_to_history_restore_plan plan) ≡ plan
unfolding convert_from_history_restore_plan convert_to_history_restore_plan
plan_from-to [] = refl
plan_from-to (e ∷ plan) = ap (λ rest. e ∷ rest) (plan_from-to plan)

plan_to-from :
    (plan : List HistoryRestorePlanEntry)
    → convert_to_history_restore_plan (convert_from_history_restore_plan plan) ≡ plan
unfolding convert_from_history_restore_plan convert_to_history_restore_plan
plan_to-from [] = refl
plan_to-from (e ∷ plan) = ap (λ rest. e ∷ rest) (plan_to-from plan)

-- A record that is converted to gpbackup's form and back is the same in all of its fields.
pub convert_from-convert_to :
    (b : BackupConfig) → convert_from_history_backup_config (convert_to_history_backup_config b) ≡ b
unfolding convert_from_history_backup_config convert_to_history_backup_config
convert_from-convert_to b =
    ap (λ plan. record b { restore_plan = plan }) (plan_from-to b.restore_plan)

-- The other way round all fields come back but `SegmentCount`, which is lost: it becomes 0.
pub convert_to-convert_from :
    (h : HistoryBackupConfig)
    → convert_to_history_backup_config (convert_from_history_backup_config h)
      ≡ record h { segment_count = 0 }
unfolding convert_from_history_backup_config convert_to_history_backup_config
convert_to-convert_from h =
    ap (λ plan. record h { segment_count = 0; restore_plan = plan }) (plan_to-from h.restore_plan)
