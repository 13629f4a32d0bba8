-- ===== src/Cmd/Migrate/Laws.antt =====
-- What history-migrate writes.
use mathlib.Core.List.{append_assoc, append-nil}
use gpbackman.Base.{◌≡◌, refl, sym, ◌∙◌, ap, String, List, [], ◌∷◌, ◌++◌, if◌then◌else◌, ◌==◌}
use gpbackman.Go.Result.{Result, ok, err, panic}
use gpbackman.Go.Exec.{Exec, on_error, ◌>>=◌}
use gpbackman.Go.Exec.Steps.{on_error_ok, on_error_err, on_error_panic}
use gpbackman.Host.Actions.{log_error, write_log}
use gpbackman.TextMsg
use gpbackman.Time.{Time}
use gpbackman.Time.Format.{format_layout}
use gpbackman.Config.{BackupConfig}
use gpbackman.Config.Convert.{HistoryBackupConfig, convert_to_history_backup_config}
use gpbackman.Host.{Host, Level}
use gpbackman.Cmd.Migrate.{store_backups}

-- The record that history.StoreBackupHistory stores at a time: an empty end time is filled with it.
abbrev pub filled : Time → HistoryBackupConfig → HistoryBackupConfig
filled now h = if h.end_time == "" then record h { end_time = format_layout now } else h

-- history.StoreBackupHistory over the records that its calls have stored so far: it appends the
-- record, with the time of the call where the end time is empty, or fails and leaves them. The other
-- calls of history-migrate do not write them.
pub record IsHistoryStore (H : Host) : Type 0 where
  pub records : H.World → List HistoryBackupConfig
  pub store_appends :
      (h : HistoryBackupConfig) (w : H.World)
      → (H.store_backup_history h w).0 ≡ ok tt
      → (now : Time) × (records (H.store_backup_history h w).1 ≡ records w ++ (filled now h ∷ []))
  pub store_fails :
      (h : HistoryBackupConfig) (w : H.World)
      → ((H.store_backup_history h w).0 ≡ ok tt → ⊥)
      → records (H.store_backup_history h w).1 ≡ records w
  pub log_keeps : (l : Level) (line : String) (w : H.World) → records (H.log l line w) ≡ records w
  pub read_file_keeps : (path : String) (w : H.World) → records (H.read_file path w).1 ≡ records w
  pub rename_keeps : (old new : String) (w : H.World) → records (H.rename old new w).1 ≡ records w

-- The stored record is the converted one, with some time as its end time where it has none.
abbrev pub IsStored : BackupConfig → HistoryBackupConfig → Type 0
IsStored b h = (now : Time) × (h ≡ filled now (convert_to_history_backup_config b))

-- The stored records are those of the list, one for one and in order.
abbrev pub AreStored : List BackupConfig → List HistoryBackupConfig → Type 0
AreStored [] [] = Unit
AreStored [] (h ∷ hs) = ⊥
AreStored (b ∷ list) [] = ⊥
AreStored (b ∷ list) (h ∷ hs) = IsStored b h × AreStored list hs

pub AreStored-append :
    (a b : List BackupConfig) (x y : List HistoryBackupConfig)
    → AreStored a x
    → AreStored b y
    → AreStored (a ++ b) (x ++ y)
AreStored-append [] b [] y p q = q
AreStored-append [] b (h ∷ x) y p q = absurd p
AreStored-append (c ∷ a) b [] y p q = absurd p
AreStored-append (c ∷ a) b (h ∷ x) y (p, ps) q = (p, AreStored-append a b x y ps q)

module _ (H : Host) (D : IsHistoryStore H) where
  open D use {records}

  -- The first records of the list are stored, in order; all of them where the call returned.
  abbrev pub Stored : List BackupConfig → H.World → Result (Unit {0}) × H.World → Type 0
  Stored list w out =
      (first : List BackupConfig) × (rest : List BackupConfig) × (new : List HistoryBackupConfig)
      × ((list ≡ first ++ rest)
          × (AreStored first new
              × ((records out.1 ≡ records w ++ new) × (out.0 ≡ ok tt → rest ≡ []))))

  abbrev step : BackupConfig → Exec H.World (Unit {0})
  step b =
      on_error (H.store_backup_history (convert_to_history_backup_config b))
        (λ e. log_error H (TextMsg.error_text_unable_write_into_history_db e))

  abbrev after : BackupConfig → H.World → H.World
  after b w = (H.store_backup_history (convert_to_history_backup_config b) w).1

  Stored-cons :
      (b : BackupConfig) (list : List BackupConfig) (w : H.World)
      (out : Result (Unit {0}) × H.World) (now : Time)
      → records (after b w) ≡ records w ++ (filled now (convert_to_history_backup_config b) ∷ [])
      → Stored list (after b w) out
      → Stored (b ∷ list) w out
  Stored-cons b list w out now e (first, rest, new, (split, (stored, (appended, all)))) =
      let h = filled now (convert_to_history_backup_config b) in
      (
        b ∷ first,
        rest,
        h ∷ new,
        (
          ap (λ l. b ∷ l) split,
          (
            ((now, refl), stored),
            (appended ∙ ap (λ l. l ++ new) e ∙ append_assoc (records w) (h ∷ []) new, all),
          ),
        ),
      )

  Stored-none :
      (list : List BackupConfig) (w : H.World) (r : Result (Unit {0})) (v : H.World)
      → (r ≡ ok tt → ⊥)
      → records v ≡ records w
      → Stored list w (r, v)
  Stored-none list w r v bad same =
      ([], list, [], (refl, (tt, (same ∙ sym (append-nil (records w)), λ e. absurd (bad e)))))

  Stored-by :
      (b : BackupConfig) (list : List BackupConfig) (w : H.World) (r : Result (Unit {0}))
      → (H.store_backup_history (convert_to_history_backup_config b) w).0 ≡ r
      → ((v : H.World) → Stored list v (store_backups H list v))
      → Stored (b ∷ list) w ((step b >>= λ _. store_backups H list) w)
  unfolding write_log ◌>>=◌
  Stored-by b list w (ok tt) e k =
      rw (on_error_ok (H.store_backup_history (convert_to_history_backup_config b)) _ w e) (
        let (now, stored) = D.store_appends _ w e in
        Stored-cons b list w _ now stored (k (after b w)))
  Stored-by b list w (err x) e k =
      rw (on_error_err (H.store_backup_history (convert_to_history_backup_config b)) _ w e)
        (Stored-none (b ∷ list) w _ _ (λ h. cc) (D.log_keeps _ _ _ ∙ D.store_fails _ w (λ h. cc)))
  Stored-by b list w (panic p) e k =
      rw (on_error_panic (H.store_backup_history (convert_to_history_backup_config b)) _ w e)
        (Stored-none (b ∷ list) w _ _ (λ h. cc) (D.store_fails _ w (λ h. cc)))

  store_backups_kept :
      (list : List BackupConfig) (w : H.World) → Stored list w (store_backups H list w)
  unfolding store_backups ◌>>=◌
  store_backups_kept [] w = ([], [], [], (refl, (tt, (sym (append-nil (records w)), λ e. refl))))
  store_backups_kept (b ∷ list) w = Stored-by b list w _ refl (store_backups_kept list)

-- The loop of history-migrate over the records of one file stores them in order, converted, behind
-- the records that were there: however it ends those stored are the first ones of the file, and all
-- of them where it returns without error. A record without an end time is stored with a time in its
-- place. Storing must do that and append a record, or leave the records alone.
pub store_backups-Stored :
    (H : Host) (D : IsHistoryStore H) (list : List BackupConfig) (w : H.World)
    → Stored H D list w (store_backups H list w)
store_backups-Stored H D list w = store_backups_kept H D list w
