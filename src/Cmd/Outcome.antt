-- ===== src/Cmd/Outcome.antt =====
-- What deleting one backup leaves in the history database.
pub mod Stages
pub mod Plugin
use mathlib.Core.Path.{subst}
use gpbackman.Base.{
  ◌≡◌, refl, sym, ◌∙◌, ap, ◌⊎◌, inl, inr, String, Bool, List, [], ◌∷◌, Contains, arith,
}
use gpbackman.Go.Result.{Error, Result, ok, err, panic, Try, done, failed}
use gpbackman.Go.Exec.{◌>>=◌}
use gpbackman.Go.Exec.Rules.{
  Keeps, Keeps-pure, Keeps-lift, Keeps-if, Keeps-bind, Keeps-attempt, Keeps-on_error,
  Keeps-on_error_ignoring, Ends, Ends-bind, Ends-then, Ends-on_error, keeps_rules,
}
use gpbackman.Go.Exec.Steps.{bind_ok}
use gpbackman.Sql.{set_date_deleted}
use gpbackman.Sql.Lexer.{QuoteFree}
use gpbackman.Sql.Meaning.{Tables, perform}
use gpbackman.Sql.Meaning.Laws.{perform_twice}
use gpbackman.Config.{BackupConfig, date_deleted_in_progress, date_deleted_local_failed}
use gpbackman.Time.Format.{format_layout}
use gpbackman.Time.RoundTrip.{IsValid}
use gpbackman.Time.Plain.{format_layout_plain}
use gpbackman.Host.{Host, Level}
use gpbackman.Host.Actions.{get_current_timestamp, write_log}
use gpbackman.Host.Laws.{IsSqlite, IsSeparate}
use gpbackman.Db.{update_delete_status}
use gpbackman.Db.Update.{Atomic, update_delete_status-Atomic}
use gpbackman.Cmd.Outcome.Stages.{Stage, HasDate, Stage-update, Stage-HasDate}
use gpbackman.Cmd.Guard.{handle_error_db, log_failed}
use gpbackman.Cmd.Dirs.{MasterDir}
use gpbackman.Cmd.Delete.{
  set_status, delete_on_segments, delete_local_at, backup_delete_db_local_func,
}
use gpbackman.Cmd.Frame.{
  log_kept, get_backup_data_db_kept, remove_all_kept, get_backup_master_dir_kept,
  get_segment_configuration_kept, execute_delete_kept,
}

module _ (H : Host) (L : IsSqlite H) (S : IsSeparate H L.committed) (name : String)
    (plain : QuoteFree name) (before : Tables) (dates : List String) where
  abbrev pub AtStage : H.World → Type 0
  AtStage w = Stage name dates before (L.committed w)

  abbrev pub StageOf : Tables → Type 0
  StageOf = Stage name dates before

  pub update_kept :
      (date : String)
      → Contains date dates
      → QuoteFree date
      → Keeps AtStage (update_delete_status H name date)
  update_kept date c q = record {
    at = λ w h.
        Stage-update before (L.committed w) _ name dates date (update_delete_status H name date w).0
          c (update_delete_status-Atomic H L name date w plain q) h;
  }

  log_failed_kept :
      (t : Try (Unit {0})) (text : Error → String) → Keeps AtStage (log_failed H t text)
  log_failed_kept (done u) text = Keeps-pure tt
  log_failed_kept (failed e) text = log_kept H L S (Stage name dates before) _ _

  pub handle_error_kept :
      (message date : String)
      → Contains date dates
      → QuoteFree date
      → Keeps AtStage (handle_error_db H name message date)
  unfolding handle_error_db
  handle_error_kept message date c q =
      Keeps-bind _ _ (log_kept H L S (Stage name dates before) _ _)
        λ _. Keeps-bind _ _ (Keeps-attempt _ (update_kept date c q)) λ t. log_failed_kept t _

  pub set_status_kept :
      (date : String)
      → Contains date dates
      → QuoteFree date
      → Keeps AtStage (set_status H name date)
  set_status_kept date c q =
      search (keeps_rules, update_kept date c q, log_kept H L S (Stage name dates before))

  local_failed_kept :
      Contains date_deleted_local_failed dates
      → (message : String)
      → Keeps AtStage (handle_error_db H name message date_deleted_local_failed)
  local_failed_kept c message = handle_error_kept message date_deleted_local_failed c (omega arith)

  delete_on_segments_kept :
      (dir : String) (b : BackupConfig) (m : MasterDir) (ignore : Bool)
      → Contains date_deleted_local_failed dates
      → Keeps AtStage (delete_on_segments H dir b m name ignore)
  unfolding delete_on_segments
  delete_on_segments_kept dir b m ignore c = search (
    keeps_rules,
    get_segment_configuration_kept H L S (Stage name dates before),
    execute_delete_kept H L S (Stage name dates before),
    local_failed_kept c,
  )

  pub finish_kept :
      (date message : String)
      → Contains date dates
      → QuoteFree date
      → Keeps AtStage (set_status H name date >>= λ _. write_log H Level.info message)
  finish_kept date message c q =
      Keeps-bind _ _ (set_status_kept date c q) (λ _. log_kept H L S StageOf _ _)

  update_HasDate :
      (date : String)
      → QuoteFree date
      → Ends (λ w. HasDate name date (L.committed w)) (update_delete_status H name date)
  update_HasDate date q = record {
    at = λ w u e.
        let at =
          subst
            (Atomic (set_date_deleted name date) (L.committed w)
              (L.committed (update_delete_status H name date w).1))
            e (update_delete_status-Atomic H L name date w plain q) in
        ap (perform (set_date_deleted name date)) at
        ∙ perform_twice name date date (L.committed w)
        ∙ sym at;
  }

  delete_local_at_kept :
      (dir : String) (ignore : Bool) (date : String)
      → Contains date_deleted_in_progress dates
      → Contains date_deleted_local_failed dates
      → Contains date dates
      → QuoteFree date
      → Keeps AtStage (delete_local_at H dir name ignore date)
  unfolding delete_local_at
  delete_local_at_kept dir ignore date cp cl cd q = Keeps-bind _ _ (log_kept H L S StageOf _ _) λ _.
      Keeps-bind _ _ (set_status_kept date_deleted_in_progress cp (omega arith)) λ _.
        Keeps-bind _ _
          (Keeps-on_error _ _ (get_backup_data_db_kept H L S StageOf name)
            (λ e. local_failed_kept cl _))
          λ b.
            Keeps-bind _ _
              (Keeps-on_error _ _ (get_backup_master_dir_kept H L S StageOf _ _ _)
                (λ e. local_failed_kept cl _))
              λ m. Keeps-bind _ _ (log_kept H L S StageOf _ _) λ _.
                Keeps-bind _ _ (log_kept H L S StageOf _ _) λ _.
                  Keeps-bind _ _ (Keeps-on_error _ _ (Keeps-lift _) (λ e. local_failed_kept cl _))
                    λ kind.
                      Keeps-bind _ _
                        (Keeps-if _ _ _ (λ _. delete_on_segments_kept dir b m ignore cl)
                          (λ _. Keeps-pure tt))
                        λ _. Keeps-bind _ _ (Keeps-lift _) λ path.
                          Keeps-bind _ _ (log_kept H L S StageOf _ _) λ _.
                            Keeps-bind _ _
                              (Keeps-on_error_ignoring _ _ _ _ (remove_all_kept H L S StageOf path)
                                (λ e. local_failed_kept cl _))
                              λ _. finish_kept date _ cd q

  -- The last two calls leave the date that they set.
  pub finish_HasDate :
      (date message : String)
      → QuoteFree date
      → Ends
          (λ w. HasDate name date (L.committed w))
          (set_status H name date >>= λ _. write_log H Level.info message)
  finish_HasDate date message q =
      Ends-then _ _ (Ends-on_error _ _ (update_HasDate date q))
        λ _. log_kept H L S (HasDate name date) _ _

  delete_local_at-HasDate :
      (dir : String) (ignore : Bool) (date : String)
      → QuoteFree date
      → Ends (λ w. HasDate name date (L.committed w)) (delete_local_at H dir name ignore date)
  unfolding delete_local_at
  delete_local_at-HasDate dir ignore date q = Ends-bind _ _ λ _. Ends-bind _ _ λ _.
      Ends-bind _ _ λ b. Ends-bind _ _ λ m. Ends-bind _ _ λ _. Ends-bind _ _ λ _.
        Ends-bind _ _ λ kind.
          Ends-bind _ _
            λ _. Ends-bind _ _ λ path. Ends-bind _ _ λ _. Ends-bind _ _ λ _. finish_HasDate date _ q

-- Deleting one local backup, whatever fails on the way: where the call returns without error, the
-- committed tables are those before with the deletion date of that backup set to the time at which
-- the call began; in every other case they are as before, or have for that backup one of the dates
-- "In progress", "Local Delete Failed" or that time, and nothing else is changed. The name must hold
-- no quote and the clock must show a valid time.
pub backup_delete_db_local_func_outcome :
    (H : Host) (L : IsSqlite H)
    → IsSeparate H L.committed
    → (dir name : String) (ignore : Bool) (w : H.World) → QuoteFree name
    → IsValid (H.now w)
    → let date = format_layout (H.now w) in
      let out = backup_delete_db_local_func H dir name ignore w in
      (out.0 ≡ ok tt → L.committed out.1 ≡ perform (set_date_deleted name date) (L.committed w))
      × Stage name
          (date_deleted_in_progress ∷ date_deleted_local_failed ∷ date ∷ [])
          (L.committed w)
          (L.committed out.1)
unfolding backup_delete_db_local_func get_current_timestamp
backup_delete_db_local_func_outcome H L S dir name ignore w plain now =
    let date = format_layout (H.now w) in
    let dates = date_deleted_in_progress ∷ date_deleted_local_failed ∷ date ∷ [] in
    let q = format_layout_plain (H.now w) now in
    let stage =
      (delete_local_at_kept H L S name plain (L.committed w) dates dir ignore date (inl refl)
          (inr (inl refl)) (inr (inr (inl refl))) q).at
        w (inl refl) in
    rw (bind_ok (get_current_timestamp H) (delete_local_at H dir name ignore) w refl) (
      (λ e. Stage-HasDate (L.committed w) _ name date dates stage (
          (delete_local_at-HasDate H L S name plain (L.committed w) dates dir ignore date q).at w tt
            e)),
      stage,
    )
