-- ===== src/Tests/Segments.antt =====
-- A host on which every directory is there and none can be deleted.
use gpbackman.Base.{◌≡◌, refl, String, false, [], ◌∷◌, if◌then◌else◌}
use text.Mathlib.Text.{starts_with}
use gpbackman.Go.Result.{error_new, ok, err, panic}
use gpbackman.Go.Exec.{◌>>=◌, attempt}
use gpbackman.Host.{Host}
use gpbackman.Host.Actions.{write_log}
use gpbackman.Cmd.Segments.{
  delete_phases, check_backup_dir_exists_on_segments, delete_backup_dir_on_segments,
}
use gpbackman.Cmd.Segments.Panic.{Quiet, delete_phases_panics}
use gpbackman.Tests.Memory.{memory}

full_disk : Host
unfolding memory
full_disk = record memory {
  ssh_run = λ host command w.
      (if starts_with command "rm" then err (error_new "exit status 1") else ok tt, w);
}

at_start : full_disk.World
unfolding full_disk memory
at_start = record {
  committed = λ table. [];
  working = λ table. [];
  stored = [];
  printed = [];
  renamed = [];
}

abbrev job : String × String
job = ("/data/backups/gpseg0", "sdw1")

one_job : full_disk.schedule at_start (job ∷ []) ≡ job ∷ []
unfolding full_disk memory
one_job = refl

checked :
    Quiet full_disk
      (check_backup_dir_exists_on_segments full_disk)
      (full_disk.schedule at_start (job ∷ []))
      at_start
      at_start
unfolding full_disk memory check_backup_dir_exists_on_segments write_log attempt ◌>>=◌
checked = (refl, refl)

not_deleted :
    (delete_backup_dir_on_segments full_disk "/data/backups/gpseg0" "sdw1" at_start).0
    ≡ err (error_new "exit status 1")
unfolding full_disk memory delete_backup_dir_on_segments write_log attempt ◌>>=◌
not_deleted = refl

delete_phases_panics_example :
    (delete_phases full_disk false (job ∷ []) at_start).0 ≡ panic "send on closed channel"
delete_phases_panics_example =
    delete_phases_panics full_disk (job ∷ []) [] [] "/data/backups/gpseg0" "sdw1" at_start at_start
      at_start (error_new "exit status 1") false checked one_job refl not_deleted
