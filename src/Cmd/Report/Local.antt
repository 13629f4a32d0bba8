-- ===== src/Cmd/Report/Local.antt =====
-- How the report of a local backup is found and printed.
use Prim.Native.String.{len, slice}
use gpbackman.Base.{◌≤◌, ◌≡◌, refl, String, ◌<>◌, Bool, true, false, [], ◌∷◌, arith}
use gpbackman.Go.Result.{Error, Result, ok, err, panic}
use gpbackman.Go.Exec.{Exec, on_error, ◌>>=◌}
use gpbackman.Go.Exec.Steps.{
  bind_ok, bind_err, bind_panic, on_error_ok, on_error_err, on_error_panic, on_error_then,
  on_error_then_panic,
}
use gpbackman.Paths.{report_file_path, backup_dir_path, first_eight, report_file_name}
use gpbackman.Paths.FilePath.{clean, path_join}
use gpbackman.Config.{BackupConfig}
use gpbackman.Host.{Host, debug, error}
use gpbackman.Host.Actions.{write_log, log_error}
use gpbackman.Cmd.Dirs.{MasterDir, get_backup_master_dir}
use gpbackman.Cmd.Guard.{check_backup_can_be_used}
use gpbackman.Cmd.Guard.Kept.{check_quiet}
use gpbackman.Cmd.Guard.Laws.{usable, check_backup_can_be_used_lem}
use gpbackman.Cmd.Report.{report_from_file, report_info_file_local_func, print_line}
use gpbackman.Cmd.Report.Logged.{Logged, unchanged, line, write_log-Logged, reported_err}

-- `<dir>/backups/<day>/<timestamp>/gpbackup_<timestamp>_report`
abbrev pub local_report : String → String → String
local_report dir timestamp = clean (
    path_join (
      path_join (dir ∷ "backups" ∷ slice timestamp 0 8 ∷ timestamp ∷ [])
      ∷ ("gpbackup_" <> timestamp <> "_report")
      ∷ []))

module _ (H : Host) (b : BackupConfig) (backup_dir : String) where
  abbrev Outcome : Type 0
  Outcome = Result (Unit {0}) × H.World

  -- What follows on the reading of the file: its content is printed, and that is all. A failure is
  -- returned, and only the log is written.
  abbrev pub AfterRead : Result String × H.World → Outcome → Type 0
  AfterRead (ok content, v) out = out ≡ (ok tt, H.print content v)
  AfterRead (err e, v) out = (out.0 ≡ err e) × Logged H v out.1
  AfterRead (panic p, v) out = (out.0 ≡ panic p) × Logged H v out.1

  -- What follows on the search for the master's directory: log lines, and reading the report there.
  abbrev pub AfterDir : Result MasterDir × H.World → Outcome → Type 0
  AfterDir (ok dir, u) out =
      (v : H.World) × (Logged H u v
        × AfterRead (H.read_file (local_report dir.dir b.timestamp) v) out)
  AfterDir (err e, u) out = (out.0 ≡ err e) × Logged H u out.1
  AfterDir (panic p, u) out = (out.0 ≡ panic p) × Logged H u out.1

  -- What follows on the answer whether the backup can be used.
  abbrev pub AfterCheck : Result Bool → H.World → Outcome → Type 0
  AfterCheck (ok true) w out =
      (u : H.World) × (Logged H w u
        × AfterDir (get_backup_master_dir H backup_dir b.backup_dir b.database_name u) out)
  AfterCheck (ok false) w out = (out.0 ≡ ok tt) × Logged H w out.1
  AfterCheck (err e) w out = (out.0 ≡ err e) × Logged H w out.1
  AfterCheck (panic p) w out = (out.0 ≡ panic p) × Logged H w out.1

  path_lem :
      (dir : String)
      → 8 ≤ len b.timestamp
      → report_file_path dir b.timestamp
        ≡ ok (
            path_join (
              path_join (dir ∷ "backups" ∷ slice b.timestamp 0 8 ∷ b.timestamp ∷ [])
              ∷ ("gpbackup_" <> b.timestamp <> "_report")
              ∷ []))
  unfolding report_file_path backup_dir_path first_eight report_file_name
  path_lem dir long = ground (arith, long)

  after_read :
      (file : String) (text : Error → String) (v : H.World) (r : Result String)
      → (H.read_file file v).0 ≡ r
      → AfterRead
          (r, (H.read_file file v).1)
          ((on_error (H.read_file file) (λ e. log_error H (text e)) >>= print_line H) v)
  unfolding print_line
  after_read file text v (ok content) e = on_error_then (H.read_file file) _ (print_line H) v e
  after_read file text v (err x) e =
      rw (reported_err H (H.read_file file) text (print_line H) v e)
        (refl, line error _ _ unchanged)
  after_read file text v (panic p) e =
      rw (on_error_then_panic (H.read_file file) (λ x. log_error H (text x)) (print_line H) v e)
        (refl, unchanged)

  abbrev master : Exec H.World MasterDir
  master = get_backup_master_dir H backup_dir b.backup_dir b.database_name

  after_dir :
      (u : H.World) (r : Result MasterDir)
      → 8 ≤ len b.timestamp
      → (master u).0 ≡ r
      → AfterDir (r, (master u).1) (report_from_file H b backup_dir u)
  unfolding report_from_file ◌>>=◌ write_log
  after_dir u (ok dir) long e =
      rw (on_error_ok master _ u e, path_lem dir.dir long)
        (
          _,
          (
            line debug _ _ (line debug _ _ (line debug _ _ unchanged)),
            after_read (local_report dir.dir b.timestamp) _ _ _ refl,
          ),
        )
  after_dir u (err x) long e = rw (on_error_err master _ u e) (refl, line error _ _ unchanged)
  after_dir u (panic p) long e = rw (on_error_panic master _ u e) (refl, unchanged)

  abbrev asked : Exec H.World Bool
  asked = check_backup_can_be_used H false false b

  asked-Logged : (w : H.World) → Logged H w (asked w).1
  asked-Logged w = (check_quiet H (Logged H w) (write_log-Logged H w) false false b).at w unchanged

  after_check :
      (w : H.World) (r : Result Bool)
      → 8 ≤ len b.timestamp
      → (asked w).0 ≡ r
      → AfterCheck r w (report_info_file_local_func H b backup_dir w)
  unfolding report_info_file_local_func ◌>>=◌
  after_check w (ok true) long e =
      rw (bind_ok asked _ w e) ((asked w).1, (asked-Logged w, after_dir (asked w).1 _ long refl))
  after_check w (ok false) long e = rw (bind_ok asked _ w e) (refl, asked-Logged w)
  after_check w (err x) long e = rw (bind_err asked _ w e) (refl, asked-Logged w)
  after_check w (panic p) long e = rw (bind_panic asked _ w e) (refl, asked-Logged w)

-- report-info of a local backup, whose timestamp has at least eight characters: where the backup can
-- be used without force, the master's directory is searched, the report of that name is read there,
-- and its content is printed, with nothing but log lines in between; an error of the search or of the
-- reading is returned. Otherwise nothing is done but writing to the log, and the error of the check
-- is returned, if it has one.
pub report_info_file_local_func-AfterCheck :
    (H : Host) (b : BackupConfig) (backup_dir : String) (w : H.World)
    → 8 ≤ len b.timestamp
    → AfterCheck H b backup_dir
        (usable false false b)
        w
        (report_info_file_local_func H b backup_dir w)
report_info_file_local_func-AfterCheck H b backup_dir w long =
    after_check H b backup_dir w _ long (check_backup_can_be_used_lem H false false b w)
