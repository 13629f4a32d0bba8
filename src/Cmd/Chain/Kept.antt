-- ===== src/Cmd/Chain/Kept.antt =====
-- The loops of backup-delete keep what every single deletion keeps.
use gpbackman.Base.{
  ap, Option, none, some, ◌≡◌, refl, sym, ◌∙◌, String, Bool, true, false, not, ◌&&◌, List, [], ◌∷◌,
  if◌then◌else◌,
}
use gpbackman.Go.Result.{Error, ok}
use gpbackman.Go.Exec.{Exec, pure, on_error, ◌>>=◌}
use gpbackman.Go.Exec.Rules.{
  Keeps, Keeps-pure, Keeps-raise, Keeps-lift, Keeps-if, Keeps-bind, Keeps-bind_from, Keeps-on_error,
  on_error-value,
}
use gpbackman.Sql.Meaning.{Tables}
use gpbackman.Config.{BackupConfig}
use gpbackman.Host.{Host}
use gpbackman.Host.Actions.{log_error}
use gpbackman.Host.Laws.{IsSqlite, IsSeparate}
use gpbackman.Db.{exec_query_func, get_backup_data_db, get_backup_dependencies}
use gpbackman.Cmd.Guard.{check_backup_can_be_used, log_if}
use gpbackman.Cmd.Guard.Kept.{log_if_quiet, check_quiet}
use gpbackman.Cmd.Guard.Laws.{usable, check_backup_can_be_used_lem}
use gpbackman.Cmd.Delete.{BackupDeleter}
use gpbackman.Cmd.Chain.{
  cascade_one, backup_delete_db_cascade, delete_dependencies, delete_checked, delete_one,
  backup_delete_db,
}
use gpbackman.Cmd.Frame.{Of, kept, log_kept, get_backup_data_db_kept}

-- A backup that the check allows to be deleted while `P` holds: in a state with `P` a record is read
-- under that name that can be used.
abbrev pub Deletable : (H : Host) → (H.World → Type 0) → Bool → Bool → String → Type 0
Deletable H P force skip name =
    (w : H.World) × (b : BackupConfig) × (P w
      × (((get_backup_data_db H name w).0 ≡ ok b) × (usable force skip b ≡ ok true)))

module _ (H : Host) (L : IsSqlite H) (S : IsSeparate H L.committed) (P : Tables → Type 0) where
  pub exec_query_func_kept : (q : List gpbackman.Base.ℕ) → Keeps (Of H L S P) (exec_query_func H q)
  unfolding exec_query_func
  exec_query_func_kept q =
      Keeps-bind (H.query q) _ (kept H L S P (H.query q) (L.query_keeps q)) (λ c. Keeps-lift _)

  pub dependencies_kept : (name : String) → Keeps (Of H L S P) (get_backup_dependencies H name)
  unfolding get_backup_dependencies
  dependencies_kept name = exec_query_func_kept _

  pub log_if_kept :
      (e : Option Error) (text : Error → String) → Keeps (Of H L S P) (log_if H e text)
  log_if_kept e text = log_if_quiet H (Of H L S P) (log_kept H L S P) e text

  pub check_kept :
      (force skip : Bool) (b : BackupConfig)
      → Keeps (Of H L S P) (check_backup_can_be_used H force skip b)
  check_kept force skip b = check_quiet H (Of H L S P) (log_kept H L S P) force skip b

  module _ (deleter : BackupDeleter H) (force ignore skip : Bool)
      (safe : (name : String)
        → Deletable H (Of H L S P) force skip name
        → Keeps (Of H L S P) (deleter name ignore)) where
    -- A record is read, checked, and the rest is run with the answer; a positive answer shows that
    -- the backup can be deleted.
    pub checked_kept :
        (name : String) (text : Error → String) (rest : Bool → Exec H.World (Unit {0}))
        → ((answer : Bool)
            → (answer ≡ true → Deletable H (Of H L S P) force skip name)
            → Keeps (Of H L S P) (rest answer))
        → Keeps (Of H L S P) (do
          b ← on_error (get_backup_data_db H name) (λ e. log_error H (text e))
          can_be_deleted ← check_backup_can_be_used H force skip b
          rest can_be_deleted)
    checked_kept name text rest k =
        Keeps-bind_from _ _
          (Keeps-on_error _ _ (get_backup_data_db_kept H L S P name) (λ e. log_kept H L S P _ _))
          λ b w h e. Keeps-bind_from _ _ (check_kept force skip b) λ answer v k' d.
            k answer λ allowed. (
              w,
              b,
              (
                h,
                (
                  on_error-value _ _ w b e,
                  sym (check_backup_can_be_used_lem H force skip b v) ∙ d ∙ ap (λ a. ok a) allowed,
                ),
              ),
            )

    cascade_kept :
        (list : List String)
        → Keeps (Of H L S P) (backup_delete_db_cascade H deleter force ignore skip list)
    unfolding backup_delete_db_cascade cascade_one
    cascade_kept [] = Keeps-pure tt
    cascade_kept (backup ∷ list) =
        Keeps-bind _ _
          (checked_kept backup _ (λ answer. if answer then deleter backup ignore else pure tt)
            λ answer allowed.
              Keeps-if answer _ _ (λ on. safe backup (allowed on)) (λ _. Keeps-pure tt))
          λ _. cascade_kept list

    delete_dependencies_kept :
        (cascade : Bool) (name : String) (list : List String)
        → Keeps (Of H L S P) (delete_dependencies H deleter force ignore skip cascade name list)
    unfolding delete_dependencies
    delete_dependencies_kept cascade name [] = Keeps-pure tt
    delete_dependencies_kept cascade name (d ∷ ds) = Keeps-bind _ _ (log_kept H L S P _ _) λ _.
        Keeps-if cascade _ _
          (λ _.
            Keeps-bind _ _ (log_kept H L S P _ _)
              λ _. Keeps-on_error _ _ (cascade_kept (d ∷ ds)) (λ e. log_kept H L S P _ _))
          (λ _. Keeps-bind _ _ (log_kept H L S P _ _) (λ _. Keeps-raise _))

    delete_checked_kept :
        (cascade : Bool) (name : String) (answer : Bool)
        → (answer ≡ true → Deletable H (Of H L S P) force skip name)
        → Keeps (Of H L S P) (delete_checked H deleter force ignore skip cascade name answer)
    unfolding delete_checked
    delete_checked_kept cascade name false allowed = Keeps-pure tt
    delete_checked_kept cascade name true allowed =
        Keeps-bind _ _ (Keeps-on_error _ _ (dependencies_kept name) (λ e. log_kept H L S P _ _))
          λ list.
            Keeps-bind _ _ (delete_dependencies_kept cascade name list)
              λ _. safe name (allowed refl)

    -- What every deletion of a backup that can be deleted keeps of the committed tables, the whole
    -- loop over backups and dependents keeps, however it ends.
    pub backup_delete_db_kept :
        (cascade : Bool) (list : List String)
        → Keeps (Of H L S P) (backup_delete_db H deleter force ignore skip cascade list)
    unfolding backup_delete_db delete_one
    backup_delete_db_kept cascade [] = Keeps-pure tt
    backup_delete_db_kept cascade (name ∷ list) =
        Keeps-bind _ _
          (checked_kept name _
            (λ answer. delete_checked H deleter force ignore skip cascade name answer)
            (delete_checked_kept cascade name))
          λ _. backup_delete_db_kept cascade list
