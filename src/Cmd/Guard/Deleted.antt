-- ===== src/Cmd/Guard/Deleted.antt =====
-- What the deletion date says of using a backup.
use gpbackman.Base.{◌≡◌, refl, ◌∙◌, Bool, true, false, not, Bool-cases, inl, inr}
use gpbackman.Go.Result.{ok}
use gpbackman.Time.{Time}
use gpbackman.Time.Format.{format_layout}
use gpbackman.Time.RoundTrip.{IsValid}
use gpbackman.Config.{BackupConfig}
use gpbackman.Config.Status.{is_local, is_in_progress}
use gpbackman.Config.Dates.Laws.{
  get_backup_date_deleted-format_layout, is_backup_active-format_date,
}
use gpbackman.Host.{Host}
use gpbackman.Cmd.Guard.{check_backup_can_be_used}
use gpbackman.Cmd.Guard.Laws.{usable, check_backup_can_be_used_lem}

usable_deleted :
    (skip : Bool) (b : BackupConfig) (t : Time)
    → IsValid t
    → b.date_deleted ≡ format_layout t
    → is_local b ≡ not skip
    → usable false skip b ≡ ok false
usable_deleted true b t v e k =
    let d = get_backup_date_deleted-format_layout b t v e in
    let a = is_backup_active-format_date t in
    elim (Bool-cases (is_in_progress b)) [ inl p ↦ rw (k, p) refl | inr p ↦ rw (k, p, d, a) refl ]
usable_deleted false b t v e k =
    let d = get_backup_date_deleted-format_layout b t v e in
    let a = is_backup_active-format_date t in
    elim (Bool-cases (is_in_progress b)) [ inl p ↦ rw (k, p) refl | inr p ↦ rw (k, p, d, a) refl ]

-- A backup whose deletion date is a printed time, as a finished deletion leaves it, is not deleted
-- again without force: in the mode for its own kind of storage the check returns without error that
-- it cannot be used, whatever its status.
pub check_backup_can_be_used-deleted :
    (H : Host) (skip : Bool) (b : BackupConfig) (t : Time) (w : H.World)
    → IsValid t
    → b.date_deleted ≡ format_layout t
    → is_local b ≡ not skip
    → (check_backup_can_be_used H false skip b w).0 ≡ ok false
check_backup_can_be_used-deleted H skip b t w v e k =
    check_backup_can_be_used_lem H false skip b w ∙ usable_deleted skip b t v e k
