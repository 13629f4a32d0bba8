-- ===== src/Cmd/Outcome/Plugin.antt =====
-- What deleting one backup in a plugin's storage leaves in the history database.
use gpbackman.Base.{
  not, ◌==◌, ◌≡◌, refl, inl, inr, String, Bool, Option, none, some, List, [], ◌∷◌, Contains, arith,
}
use gpbackman.Go.Result.{Error, ok}
use gpbackman.Go.Exec.{pure}
use gpbackman.Go.Exec.Rules.{
  Keeps, Keeps-pure, Keeps-raise, Keeps-lift, Keeps-if, Keeps-bind, Keeps-on_error_ignoring, Ends,
  Ends-bind,
}
use gpbackman.Go.Exec.Steps.{bind_ok}
use gpbackman.Sql.{set_date_deleted}
use gpbackman.Sql.Lexer.{QuoteFree}
use gpbackman.Sql.Meaning.{Tables, perform}
use gpbackman.Config.{date_deleted_in_progress, date_deleted_plugin_failed}
use gpbackman.Time.Format.{format_layout}
use gpbackman.Time.RoundTrip.{IsValid}
use gpbackman.Time.Plain.{format_layout_plain}
use gpbackman.Host.{Host, PluginConfig}
use gpbackman.Host.Actions.{log_error, get_current_timestamp}
use gpbackman.Host.Laws.{IsSqlite, IsSeparate}
use gpbackman.Cmd.Guard.{handle_error_db}
use gpbackman.Cmd.Delete.{plugin_result, delete_plugin_at, backup_delete_db_plugin_func}
use gpbackman.Cmd.Frame.{
  log_kept, get_backup_data_db_kept, remove_all_kept, get_backup_master_dir_kept, plugin_run_kept,
}
use gpbackman.Cmd.Outcome.Stages.{Stage, HasDate, Stage-HasDate}
use gpbackman.Cmd.Outcome.{
  AtStage, StageOf, handle_error_kept, set_status_kept, finish_kept, finish_HasDate,
}

module _ (H : Host) (L : IsSqlite H) (S : IsSeparate H L.committed) (name : String)
    (plain : QuoteFree name) (before : Tables) (dates : List String) where
  failed_kept :
      Contains date_deleted_plugin_failed dates
      → (message : String)
      → Keeps
          (AtStage H L S name plain before dates)
          (handle_error_db H name message date_deleted_plugin_failed)
  failed_kept c message =
      handle_error_kept H L S name plain before dates message date_deleted_plugin_failed c
        (omega arith)

  plugin_result_kept :
      (ignore : Bool) (e : Option Error)
      → Contains date_deleted_plugin_failed dates
      → Keeps (AtStage H L S name plain before dates) (plugin_result H name ignore e)
  unfolding plugin_result
  plugin_result_kept ignore none c = Keeps-pure tt
  plugin_result_kept ignore (some e) c =
      Keeps-bind _ _ (failed_kept c _)
        (λ _. Keeps-if _ _ _ (λ _. Keeps-pure tt) (λ _. Keeps-raise e))

  delete_plugin_at_kept :
      (config_path : String) (config : PluginConfig) (ignore : Bool) (date : String)
      → Contains date_deleted_in_progress dates
      → Contains date_deleted_plugin_failed dates
      → Contains date dates
      → QuoteFree date
      → Keeps
          (AtStage H L S name plain before dates)
          (delete_plugin_at H config_path config name ignore date)
  unfolding delete_plugin_at
  delete_plugin_at_kept config_path config ignore date cp cl cd q =
      let at = StageOf H L S name plain before dates in
      let set = set_status_kept H L S name plain before dates in
      Keeps-bind _ _ (log_kept H L S at _ _) λ _.
        Keeps-bind _ _ (set date_deleted_in_progress cp (omega arith)) λ _.
          Keeps-bind _ _ (log_kept H L S at _ _) λ _.
            Keeps-bind _ _ (plugin_run_kept H L S at _ _ _ _) λ p.
              Keeps-bind _ _
                (Keeps-if (not (p.stderr == "")) (log_error H p.stderr) (pure tt)
                  (λ _. log_kept H L S at _ _) (λ _. Keeps-pure tt))
                λ _. Keeps-bind _ _ (plugin_result_kept ignore p.run_error cl) λ _.
                  Keeps-bind _ _ (log_kept H L S at _ _) λ _.
                    Keeps-bind _ _
                      (Keeps-on_error_ignoring _ _ _ _ (get_backup_data_db_kept H L S at name)
                        (λ e. failed_kept cl _))
                      λ b.
                        Keeps-bind _ _
                          (Keeps-on_error_ignoring _ _ _ _
                            (get_backup_master_dir_kept H L S at _ _ _) (λ e. failed_kept cl _))
                          λ m. Keeps-bind _ _ (Keeps-lift _) λ path.
                            Keeps-bind _ _ (log_kept H L S at _ _) λ _.
                              Keeps-bind _ _
                                (Keeps-on_error_ignoring _ _ _ _ (remove_all_kept H L S at path)
                                  (λ e. failed_kept cl _))
                                λ _. finish_kept H L S name plain before dates date _ cd q

  delete_plugin_at-HasDate :
      (config_path : String) (config : PluginConfig) (ignore : Bool) (date : String)
      → QuoteFree date
      → Ends
          (λ w. HasDate name date (L.committed w))
          (delete_plugin_at H config_path config name ignore date)
  unfolding delete_plugin_at
  delete_plugin_at-HasDate config_path config ignore date q = Ends-bind _ _ λ _. Ends-bind _ _ λ _.
      Ends-bind _ _ λ _. Ends-bind _ _ λ p. Ends-bind _ _ λ _. Ends-bind _ _ λ _. Ends-bind _ _ λ _.
        Ends-bind _ _ λ b. Ends-bind _ _ λ m. Ends-bind _ _ λ path.
          Ends-bind _ _
            λ _. Ends-bind _ _ λ _. finish_HasDate H L S name plain before dates date _ q

-- Deleting one backup through a plugin, whatever fails on the way: where the call returns without
-- error, the committed tables are those before with the deletion date of that backup set to the time
-- at which the call began; in every other case they are as before, or have for that backup one of
-- the dates "In progress", "Plugin Backup Delete Failed" or that time, and nothing else is changed.
-- The name must hold no quote and the clock must show a valid time.
pub backup_delete_db_plugin_func_outcome :
    (H : Host) (L : IsSqlite H)
    → IsSeparate H L.committed
    → (config_path : String) (config : PluginConfig) (name : String) (ignore : Bool) (w : H.World)
    → QuoteFree name
    → IsValid (H.now w)
    → let date = format_layout (H.now w) in
      let out = backup_delete_db_plugin_func H config_path config name ignore w in
      (out.0 ≡ ok tt → L.committed out.1 ≡ perform (set_date_deleted name date) (L.committed w))
      × Stage name
          (date_deleted_in_progress ∷ date_deleted_plugin_failed ∷ date ∷ [])
          (L.committed w)
          (L.committed out.1)
unfolding backup_delete_db_plugin_func get_current_timestamp
backup_delete_db_plugin_func_outcome H L S config_path config name ignore w plain now =
    let date = format_layout (H.now w) in
    let dates = date_deleted_in_progress ∷ date_deleted_plugin_failed ∷ date ∷ [] in
    let q = format_layout_plain (H.now w) now in
    let stage =
      (delete_plugin_at_kept H L S name plain (L.committed w) dates config_path config ignore date
          (inl refl) (inr (inl refl)) (inr (inr (inl refl))) q).at
        w (inl refl) in
    let ends =
      delete_plugin_at-HasDate H L S name plain (L.committed w) dates config_path config ignore date
        q in
    rw
      (bind_ok (get_current_timestamp H) (delete_plugin_at H config_path config name ignore) w refl)
      ((λ e. Stage-HasDate (L.committed w) _ name date dates stage (ends.at w tt e)), stage)
