-- ===== src/Cmd/Clean/Listed.antt =====
-- Deleting the backups of a list, without their dependents.
use gpbackman.Base.{String, Bool, true, false, List, [], ◌∷◌, All}
use gpbackman.Go.Exec.Rules.{Keeps, Keeps-pure, Keeps-raise, Keeps-bind, Keeps-on_error}
use gpbackman.Sql.Meaning.{Tables}
use gpbackman.Host.{Host}
use gpbackman.Host.Laws.{IsSqlite, IsSeparate}
use gpbackman.Cmd.Frame.{Of, log_kept, get_backup_data_db_kept}
use gpbackman.Cmd.Delete.{BackupDeleter}
use gpbackman.Cmd.Chain.{backup_delete_db, delete_one, delete_checked, delete_dependencies}
use gpbackman.Cmd.Chain.Kept.{dependencies_kept, check_kept}
use gpbackman.Cmd.Clean.{clean_list}

module _ (H : Host) (L : IsSqlite H) (S : IsSeparate H L.committed) (P : Tables → Type 0)
    (deleter : BackupDeleter H) (force ignore skip : Bool) where
  -- Without cascade only the listed backups are deleted.
  dependencies_refused_kept :
      (name : String) (list : List String)
      → Keeps (Of H L S P) (delete_dependencies H deleter force ignore skip false name list)
  unfolding delete_dependencies
  dependencies_refused_kept name [] = Keeps-pure tt
  dependencies_refused_kept name (d ∷ ds) =
      Keeps-bind _ _ (log_kept H L S P _ _)
        λ _. Keeps-bind _ _ (log_kept H L S P _ _) (λ _. Keeps-raise _)

  checked_one_kept :
      (name : String) (answer : Bool)
      → Keeps (Of H L S P) (deleter name ignore)
      → Keeps (Of H L S P) (delete_checked H deleter force ignore skip false name answer)
  unfolding delete_checked
  checked_one_kept name false safe = Keeps-pure tt
  checked_one_kept name true safe =
      Keeps-bind _ _
        (Keeps-on_error _ _ (dependencies_kept H L S P name) (λ e. log_kept H L S P _ _))
        λ list. Keeps-bind _ _ (dependencies_refused_kept name list) λ _. safe

  listed_kept :
      (list : List String)
      → All (λ name. Keeps (Of H L S P) (deleter name ignore)) list
      → Keeps (Of H L S P) (backup_delete_db H deleter force ignore skip false list)
  unfolding backup_delete_db delete_one
  listed_kept [] safe = Keeps-pure tt
  listed_kept (name ∷ list) (one, rest) =
      Keeps-bind _ _
        (Keeps-bind _ _
          (Keeps-on_error _ _ (get_backup_data_db_kept H L S P name) (λ e. log_kept H L S P _ _))
          λ b.
            Keeps-bind _ _ (check_kept H L S P force skip b)
              λ answer. checked_one_kept name answer one)
        λ _. listed_kept list rest

  pub clean_list_kept :
      (list : List String)
      → All (λ name. Keeps (Of H L S P) (deleter name ignore)) list
      → Keeps
          (Of H L S P)
          (clean_list H list (λ names. backup_delete_db H deleter force ignore skip false names))
  unfolding clean_list
  clean_list_kept [] safe = log_kept H L S P _ _
  clean_list_kept (x ∷ xs) safe =
      Keeps-bind _ _ (log_kept H L S P _ _) λ _. listed_kept (x ∷ xs) safe
