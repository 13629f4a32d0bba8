-- ===== src/Cmd/Chain/Spares.antt =====
-- The backups that backup-delete leaves alone.
use mathlib.Core.Path.{subst}
use gpbackman.Base.{
  ◌≡◌, ◌≢◌, refl, sym, ◌∙◌, ap, inl, inr, String, Bool, true, false, List, [], ◌∷◌, arith, ◌==◌,
  eq_iff, Bool-cases,
}
use gpbackman.Go.Exec.Rules.{Keeps}
use gpbackman.Sql.Lexer.{QuoteFree}
use gpbackman.Sql.Meaning.{Tables, Row, named, filter_rows, date_rows, perform}
use gpbackman.Time.RoundTrip.{IsValid}
use gpbackman.Config.{
  date_deleted_in_progress, date_deleted_local_failed, date_deleted_plugin_failed,
}
use gpbackman.Time.Format.{format_layout}
use gpbackman.Host.{Host, PluginConfig}
use gpbackman.Host.Laws.{IsSqlite, IsSeparate}
use gpbackman.Config.{BackupConfig}
use gpbackman.Go.Result.{ok}
use gpbackman.Db.{get_backup_data_db}
use gpbackman.Cmd.Guard.Laws.{usable}
use gpbackman.Cmd.Outcome.Stages.{Stage}
use gpbackman.Cmd.Outcome.{backup_delete_db_local_func_outcome}
use gpbackman.Cmd.Outcome.Plugin.{backup_delete_db_plugin_func_outcome}
use gpbackman.Cmd.Delete.{backup_delete_db_local_func, backup_delete_db_plugin_func}
use gpbackman.Cmd.Chain.{backup_delete_db_local, backup_delete_db_plugin}
use gpbackman.Cmd.Chain.Kept.{Deletable, backup_delete_db_kept}

-- The tables but `backups` are as before, and there the rows of every protected backup.
abbrev pub Spared : (String → Type 0) → Tables → Tables → Type 0
Spared IsProtected before now =
    ((table : String) → table ≢ "backups" → now table ≡ before table)
    × ((name : String)
        → IsProtected name
        → filter_rows (named name) (now "backups") ≡ filter_rows (named name) (before "backups"))

date_rows-named :
    (key date name : String) (rows : List Row)
    → key ≢ name
    → filter_rows (named name) (date_rows key date rows) ≡ filter_rows (named name) rows
unfolding filter_rows date_rows
date_rows-named key date name [] n = refl
date_rows-named key date name (r ∷ rows) n = elim (Bool-cases (r "timestamp" == key)) [
  | inl e ↦
      let other : (r "timestamp" == name) ≡ false =
        ground (arith, eq_iff (r "timestamp") key, eq_iff (r "timestamp") name, n) in
      rw (e, other) (date_rows-named key date name rows n)
  | inr e ↦ rw (e, date_rows-named key date name rows n) refl
]

pub Stage-Spared :
    (IsProtected : String → Type 0) (before now next : Tables) (name : String) (dates : List String)
    → (IsProtected name → ⊥)
    → Stage name dates now next
    → Spared IsProtected before now
    → Spared IsProtected before next
unfolding perform
Stage-Spared IsProtected before now next name dates d (inl e) h =
    subst (Spared IsProtected before) (sym e) h
Stage-Spared IsProtected before now next name dates d (inr (date, c, e)) (others, rows) =
    subst (Spared IsProtected before) (sym e) (
      (λ table n. elim (Bool-cases (table == "backups")) [
        | inl t ↦ absurd (n ((eq_iff table "backups").0 t))
        | inr t ↦ rw t (others table n)
      ]),
      λ victim out.
          date_rows-named name date victim (now "backups")
            (λ same. d (subst IsProtected (sym same) out))
          ∙ rows victim out,
    )

-- While the rows of that name are as in the given state, no record that is read under it can be used.
abbrev pub Protected : (H : Host) → (H.World → Tables) → Bool → Bool → H.World → String → Type 0
Protected H committed force skip start name =
    (w : H.World) (b : BackupConfig)
    → ((table : String)
        → filter_rows (named name) (committed w table)
          ≡ filter_rows (named name) (committed start table))
    → (get_backup_data_db H name w).0 ≡ ok b
    → usable force skip b ≡ ok true
    → ⊥

-- What is assumed of the names and of the clock: a backup is recorded under a name without a quote,
-- and the clock shows a valid time.
pub record IsPlain (H : Host) : Type 0 where
  pub names_plain :
      (name : String) (b : BackupConfig) (w : H.World)
      → (get_backup_data_db H name w).0 ≡ ok b
      → QuoteFree name
  pub clock_valid : (w : H.World) → IsValid (H.now w)

module _ (H : Host) (L : IsSqlite H) (S : IsSeparate H L.committed) (force ignore skip : Bool)
    (start : H.World) where
  abbrev Guarded : String → Type 0
  Guarded = Protected H L.committed force skip start

  abbrev pub SparedOf : Tables → Type 0
  SparedOf = Spared Guarded (L.committed start)

  not_protected :
      (name : String)
      → Deletable H (λ w. SparedOf (L.committed w)) force skip name
      → Guarded name
      → ⊥
  not_protected name (w, b, (same, (read, can))) p =
      p w b
        (λ table. elim (Bool-cases (table == "backups")) [
          | inl t ↦ rw ((eq_iff table "backups").0 t) (same.1 name p)
          | inr t ↦
              ap (filter_rows (named name))
                (same.0 table (λ e. ground (arith, t, (eq_iff table "backups").1 e)))
        ])
        read can

  pub local_Spared :
      (dir name : String)
      → IsPlain H
      → Deletable H (λ w. SparedOf (L.committed w)) force skip name
      → Keeps (λ w. SparedOf (L.committed w)) (backup_delete_db_local_func H dir name ignore)
  local_Spared dir name plain d = record {
    at = λ w h.
        Stage-Spared Guarded (L.committed start) (L.committed w) _ name
          (date_deleted_in_progress ∷ date_deleted_local_failed ∷ format_layout (H.now w) ∷ [])
          (not_protected name d)
          (backup_delete_db_local_func_outcome H L S dir name ignore w
            (plain.names_plain name d.1 d.0 d.2.1.0) (plain.clock_valid w)).1
          h;
  }

  pub plugin_Spared :
      (config_path name : String) (config : PluginConfig)
      → IsPlain H
      → Deletable H (λ w. SparedOf (L.committed w)) force skip name
      → Keeps
          (λ w. SparedOf (L.committed w))
          (backup_delete_db_plugin_func H config_path config name ignore)
  plugin_Spared config_path name config plain d = record {
    at = λ w h.
        Stage-Spared Guarded (L.committed start) (L.committed w) _ name
          (date_deleted_in_progress ∷ date_deleted_plugin_failed ∷ format_layout (H.now w) ∷ [])
          (not_protected name d)
          (backup_delete_db_plugin_func_outcome H L S config_path config name ignore w
            (plain.names_plain name d.1 d.0 d.2.1.0) (plain.clock_valid w)).1
          h;
  }

-- Deleting a list of local backups, with or without their dependents, however the run ends: no table
-- but `backups` is changed, and there no row of a backup whose record, read while its rows are as at
-- the start, does not pass the check of backups that can be used. Names under which records are
-- found must hold no quote, and the clock must show valid times.
pub backup_delete_db_local-Spared :
    (H : Host) (L : IsSqlite H) (S : IsSeparate H L.committed) (force ignore cascade : Bool)
    (dir : String) (list : List String)
    → IsPlain H
    → (w : H.World)
    → Spared
        (Protected H L.committed force false w)
        (L.committed w)
        (L.committed (backup_delete_db_local H list dir cascade force ignore w).1)
unfolding backup_delete_db_local
backup_delete_db_local-Spared H L S force ignore cascade dir list plain w =
    (backup_delete_db_kept H L S (SparedOf H L S force ignore false w)
        (backup_delete_db_local_func H dir) force ignore false
        (λ name d. local_Spared H L S force ignore false w dir name plain d) cascade list).at
      w ((λ table n. refl), λ name out. refl)

-- Deleting a list of backups in a plugin's storage, with or without their dependents, however the
-- run ends: no table but `backups` is changed, and there no row of a backup whose record, read while
-- its rows are as at the start, does not pass the check of backups that can be used. Names under
-- which records are found must hold no quote, and the clock must show valid times.
pub backup_delete_db_plugin-Spared :
    (H : Host) (L : IsSqlite H) (S : IsSeparate H L.committed) (force ignore cascade : Bool)
    (config_path : String) (config : PluginConfig) (list : List String)
    → IsPlain H
    → (w : H.World)
    → Spared
        (Protected H L.committed force true w)
        (L.committed w)
        (L.committed (backup_delete_db_plugin H list cascade force ignore config_path config w).1)
unfolding backup_delete_db_plugin
backup_delete_db_plugin-Spared H L S force ignore cascade config_path config list plain w =
    (backup_delete_db_kept H L S (SparedOf H L S force ignore true w)
        (backup_delete_db_plugin_func H config_path config) force ignore true
        (λ name d. plugin_Spared H L S force ignore true w config_path name config plain d) cascade
        list).at
      w ((λ table n. refl), λ name out. refl)
