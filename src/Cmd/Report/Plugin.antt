-- ===== src/Cmd/Report/Plugin.antt =====
-- How the report of a backup in a plugin's storage is asked for and printed.
use Prim.Native.String.{len, slice}
use gpbackman.Base.{
  ◌≤◌, ◌≡◌, refl, String, ◌<>◌, Bool, true, false, Option, none, some, [], ◌∷◌, arith,
  if◌then◌else◌, ◌==◌, Bool-cases, inl, inr,
}
use gpbackman.Go.Result.{Error, Result, ok, err, panic}
use gpbackman.Go.Exec.{Exec, lift, ◌>>=◌}
use gpbackman.Go.Exec.Steps.{bind_ok, bind_err, bind_panic, on_error_ok, on_error_err}
use gpbackman.Paths.{
  Options, lookup_option, backup_s3_plugin_report_path, backup_plugin_custom_report_path, s3_folder,
  first_eight, report_file_name,
}
use gpbackman.Paths.FilePath.{path_join, trim_prefix_slash, trim_suffix_slash}
use gpbackman.Config.{BackupConfig}
use gpbackman.Host.{Host, Process, PluginConfig, debug, error}
use gpbackman.Host.Actions.{write_log}
use gpbackman.Cmd.Guard.{check_backup_can_be_used}
use gpbackman.Cmd.Guard.Kept.{check_quiet}
use gpbackman.Cmd.Guard.Laws.{usable, check_backup_can_be_used_lem}
use gpbackman.Cmd.Report.{
  get_report_file_path_plugin, exec_report_info, ended, show_output, print_line, report_from_plugin,
  report_info_plugin_func,
}
use gpbackman.Cmd.Report.Logged.{Logged, unchanged, line, write_log-Logged}

abbrev report_name : String → String
report_name timestamp = "gpbackup_" <> timestamp <> "_report"

-- The path under the folder of the plugin's options, `backups/<day>/<timestamp>` below it.
abbrev pub folder_report : String → Option String → Option String
folder_report timestamp none = none
folder_report timestamp (some folder) =
    if folder == ""
    then none
    else some (
        path_join (
          "/"
          ∷ trim_suffix_slash (trim_prefix_slash folder)
          ∷ ("backups/" <> slice timestamp 0 8 <> "/" <> timestamp)
          ∷ report_name timestamp
          ∷ []))

-- Where the report is: below the path that the user gives, or else, for the S3 plugin alone, below
-- the folder of its options.
abbrev pub plugin_report : BackupConfig → String → Options → Option String
plugin_report b custom options =
    if custom == ""
    then (if b.plugin == "gpbackup_s3_plugin"
        then folder_report b.timestamp (lookup_option "folder" options)
        else none)
    else some (path_join ("/" ∷ custom ∷ report_name b.timestamp ∷ []))

-- The path is the one described, and an error where none is.
abbrev IsPath : Option String → Result String → Type 0
IsPath none r = (e : Error) × (r ≡ err e)
IsPath (some path) r = r ≡ ok path

folder_lem :
    (timestamp : String) (folder : Option String)
    → IsPath
        (folder_report timestamp folder)
        (s3_folder timestamp ("backups/" <> slice timestamp 0 8 <> "/" <> timestamp) folder)
unfolding s3_folder report_file_name
folder_lem timestamp none = (_, refl)
folder_lem timestamp (some folder) = elim (Bool-cases (folder == "")) [
  | inl e ↦ rw e (_, refl)
  | inr e ↦ rw e refl
]

s3_lem :
    (timestamp : String) (options : Options)
    → 8 ≤ len timestamp
    → backup_s3_plugin_report_path timestamp options
      ≡ s3_folder timestamp
          ("backups/" <> slice timestamp 0 8 <> "/" <> timestamp)
          (lookup_option "folder" options)
unfolding backup_s3_plugin_report_path first_eight
s3_lem timestamp options long = ground (arith, long)

path_lem :
    (b : BackupConfig) (custom : String) (options : Options)
    → 8 ≤ len b.timestamp
    → IsPath (plugin_report b custom options) (get_report_file_path_plugin b custom options)
unfolding get_report_file_path_plugin backup_plugin_custom_report_path report_file_name
path_lem b custom options long = elim (Bool-cases (custom == "")) [
  | inl e ↦ elim (Bool-cases (b.plugin == "gpbackup_s3_plugin")) [
    | inl s3 ↦
        rw (e, s3, s3_lem b.timestamp options long)
          (folder_lem b.timestamp (lookup_option "folder" options))
    | inr other ↦ rw (e, other) (_, refl)
  ]
  | inr e ↦ rw e refl
]

module _ (H : Host) (b : BackupConfig) (custom config_path : String) (config : PluginConfig) where
  abbrev Outcome : Type 0
  Outcome = Result (Unit {0}) × H.World

  abbrev Ended : Option Error → String → H.World → Outcome → Type 0
  Ended none stdout v out = (x : H.World) × (Logged H v x × (out ≡ (ok tt, H.print stdout x)))
  Ended (some e) stdout v out = (out.0 ≡ err e) × Logged H v out.1

  -- What follows on the plugin's end: log lines, and then its output is printed, or its error is
  -- returned.
  abbrev pub AfterRun : Process × H.World → Outcome → Type 0
  AfterRun (p, v) out = Ended p.run_error p.stdout v out

  -- The plugin is run with the path of the report, where there is one.
  abbrev pub AfterPath : Option String → H.World → Outcome → Type 0
  AfterPath none u out = (e : Error) × ((out.0 ≡ err e) × Logged H u out.1)
  AfterPath (some path) u out =
      (v : H.World) × (Logged H u v
        × AfterRun
            (H.run_command (config.executable_path ∷ "restore_data" ∷ config_path ∷ path ∷ []) v)
            out)

  -- What follows on the answer whether the backup can be used.
  abbrev pub AfterAnswer : Result Bool → H.World → Outcome → Type 0
  AfterAnswer (ok true) w out =
      (u : H.World) × (Logged H w u × AfterPath (plugin_report b custom config.options) u out)
  AfterAnswer (ok false) w out = (out.0 ≡ ok tt) × Logged H w out.1
  AfterAnswer (err e) w out = (out.0 ≡ err e) × Logged H w out.1
  AfterAnswer (panic p) w out = (out.0 ≡ panic p) × Logged H w out.1

  after_end :
      (v x : H.World) (stdout : String) (e : Option Error)
      → Logged H v x
      → Ended e stdout v (ended H b stdout e x)
  unfolding ended print_line ◌>>=◌ write_log
  after_end v x stdout none h = (x, (h, refl))
  after_end v x stdout (some e) h = (refl, line error _ x h)

  after_run : (p : Process) (v : H.World) → AfterRun (p, v) (show_output H b p v)
  unfolding show_output ◌>>=◌ write_log
  after_run p v = elim (Bool-cases (p.stderr == "")) [
    | inl quiet ↦ rw quiet (after_end v v p.stdout p.run_error unchanged)
    | inr loud ↦ rw loud (after_end v _ p.stdout p.run_error (line error _ v unchanged))
  ]

  after_path :
      (u : H.World) (path : Option String)
      → IsPath path (get_report_file_path_plugin b custom config.options)
      → AfterPath path u (report_from_plugin H b custom config_path config u)
  unfolding report_from_plugin exec_report_info ◌>>=◌ write_log
  after_path u none (x, e) =
      rw (on_error_err (lift (get_report_file_path_plugin b custom config.options)) _ u e)
        (x, (refl, line error _ u unchanged))
  after_path u (some path) e =
      rw (on_error_ok (lift (get_report_file_path_plugin b custom config.options)) _ u e)
        (_, (line debug _ u unchanged, after_run _ _))

  abbrev asked : Exec H.World Bool
  asked = check_backup_can_be_used H false true b

  asked-Logged : (w : H.World) → Logged H w (asked w).1
  asked-Logged w = (check_quiet H (Logged H w) (write_log-Logged H w) false true b).at w unchanged

  after_answer :
      (w : H.World) (r : Result Bool)
      → 8 ≤ len b.timestamp
      → (asked w).0 ≡ r
      → AfterAnswer r w (report_info_plugin_func H b custom config_path config w)
  unfolding report_info_plugin_func ◌>>=◌
  after_answer w (ok true) long e = rw (bind_ok asked _ w e) (
    (asked w).1,
    (asked-Logged w, after_path (asked w).1 _ (path_lem b custom config.options long)),
  )
  after_answer w (ok false) long e = rw (bind_ok asked _ w e) (refl, asked-Logged w)
  after_answer w (err x) long e = rw (bind_err asked _ w e) (refl, asked-Logged w)
  after_answer w (panic p) long e = rw (bind_panic asked _ w e) (refl, asked-Logged w)

-- report-info of a backup in a plugin's storage, whose timestamp has at least eight characters: where
-- the backup can be used without force, the plugin's `restore_data` is run with the path that the
-- user gives or that the S3 plugin's options determine, and its output is printed, or its error
-- returned, with nothing but log lines besides; without such a path an error is returned. Otherwise
-- nothing is done but writing to the log, and the error of the check is returned, if it has one.
pub report_info_plugin_func-AfterAnswer :
    (H : Host) (b : BackupConfig) (custom config_path : String) (config : PluginConfig)
    (w : H.World)
    → 8 ≤ len b.timestamp
    → AfterAnswer H b custom config_path config
        (usable false true b)
        w
        (report_info_plugin_func H b custom config_path config w)
report_info_plugin_func-AfterAnswer H b custom config_path config w long =
    after_answer H b custom config_path config w _ long
      (check_backup_can_be_used_lem H false true b w)
