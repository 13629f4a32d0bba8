-- ===== src/Cmd/Migrate/Files.antt =====
-- What history-migrate writes for several files.
use gpbackman.Base.{◌≡◌, String, List, [], ◌∷◌, ◌++◌}
use gpbackman.Go.Result.{ok}
use gpbackman.Go.Exec.{Exec}
use gpbackman.TextMsg
use gpbackman.Config.{BackupConfig, History}
use gpbackman.Config.Convert.{HistoryBackupConfig}
use gpbackman.Host.{Host}
use gpbackman.Cmd.Flags.{get_history_file_path}
use gpbackman.Cmd.Migrate.Laws.{IsHistoryStore, AreStored}

-- The file was read, and its text is that of the history.
abbrev pub IsRead : (H : Host) → String → History → Type 0
IsRead H file history =
    (w : H.World) × (text : String) × (((H.read_file (get_history_file_path file) w).0 ≡ ok text)
      × (H.unmarshal text ≡ ok history))

abbrev pub AllRead : (H : Host) → List String → List History → Type 0
AllRead H [] [] = Unit
AllRead H [] (h ∷ hs) = ⊥
AllRead H (file ∷ files) [] = ⊥
AllRead H (file ∷ files) (h ∷ hs) = IsRead H file h × AllRead H files hs

-- The records of all histories, one after another.
abbrev pub all_configs : List History → List BackupConfig
all_configs [] = []
all_configs (h ∷ hs) = h.backup_configs ++ all_configs hs

module _ (H : Host) (D : IsHistoryStore H) where
  open D use {records}

  -- The new records are those of the list.
  abbrev Appended : List BackupConfig → H.World → H.World → Type 0
  Appended list w v =
      (new : List HistoryBackupConfig) × (AreStored list new × (records v ≡ records w ++ new))
