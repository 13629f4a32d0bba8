-- ===== src/Cmd/Info/Rows.antt =====
-- Which rows backup-info shows.
use mathlib.Core.List.{append_assoc, append-nil}
use gpbackman.Base.{
  ◌≡◌, refl, sym, ◌∙◌, ap, String, Bool, List, [], ◌∷◌, ◌++◌, if◌then◌else◌, Bool-cases, inl, inr,
  Option,
}
use gpbackman.Go.Result.{Error, ok}
use gpbackman.Go.Exec.{Exec, pure, ◌>>=◌, ◌>>◌}
use gpbackman.Go.Exec.Rules.{on_error-value}
use gpbackman.Go.Exec.Steps.{bind_ok, bind_value}
use gpbackman.Config.{BackupConfig}
use gpbackman.Host.{Host}
use gpbackman.Db.{get_backup_data_db}
use gpbackman.Cmd.Guard.Laws.{log_if_ok}
use gpbackman.Cmd.Flags.Info.{BackupInfoOptions}
use gpbackman.Cmd.Info.{
  TableRow, Filters, matches, backup_row, log_unreadable, add_backup_to_table, show_backup,
  show_backups,
}

-- The rows of the records that pass the filters.
unfoldable pub rows_of : Filters → Bool → List BackupConfig → List TableRow
rows_of filters include_details [] = []
rows_of filters include_details (b ∷ bs) =
    let rest = rows_of filters include_details bs in
    if matches filters b then backup_row include_details b ∷ rest else rest

-- The records were read under these names, in this order.
abbrev pub AreRead : (H : Host) → List String → List BackupConfig → Type 0
AreRead H [] [] = Unit
AreRead H [] (b ∷ bs) = ⊥
AreRead H (name ∷ names) [] = ⊥
AreRead H (name ∷ names) (b ∷ bs) =
    ((w : H.World) × ((get_backup_data_db H name w).0 ≡ ok b)) × AreRead H names bs

module _ (H : Host) (filters : Filters) (include_details : Bool) where
  -- A step that logs what cannot be read goes on.
  log_then :
      {A : Type 0} (value : String) (b : BackupConfig) (e : Option Error) (rest : Exec H.World A)
      (w : H.World)
      → (v : H.World) × ((log_unreadable H value b e >> rest) w ≡ rest v)
  unfolding log_unreadable
  log_then value b e rest w =
      (_, bind_ok (log_unreadable H value b e) (λ _. rest) w (log_if_ok H e _ w))

  -- Whatever cannot be read, the row is added if and only if the backup passes the filters.
  add_backup_to_table_lem :
      (b : BackupConfig) (rows : List TableRow) (w : H.World)
      → (add_backup_to_table H filters include_details b rows w).0
        ≡ ok (rows ++ rows_of filters include_details (b ∷ []))
  unfolding add_backup_to_table rows_of ◌>>=◌
  add_backup_to_table_lem b rows w =
      let (v1, e1) = log_then _ b _ _ w in
      let (v2, e2) = log_then _ b _ _ v1 in
      let (v3, e3) = log_then _ b _ _ v2 in
      let (v4, e4) = log_then _ b _ _ v3 in
      let (v5, e5) = log_then _ b _ (pure _) v4 in
      ap (λ out. out.0) (e1 ∙ e2 ∙ e3 ∙ e4 ∙ e5) ∙ elim (Bool-cases (matches filters b)) [
        | inl e ↦ rw e refl
        | inr e ↦ rw e (ap (λ l. ok l) (sym (append-nil rows)))
      ]

  rows_of_cons :
      (rows : List TableRow) (b : BackupConfig) (bs : List BackupConfig)
      → (rows ++ rows_of filters include_details (b ∷ [])) ++ rows_of filters include_details bs
        ≡ rows ++ rows_of filters include_details (b ∷ bs)
  unfolding rows_of
  rows_of_cons rows b bs = elim (Bool-cases (matches filters b)) [
    | inl e ↦ rw e (append_assoc rows (backup_row include_details b ∷ []) _)
    | inr e ↦ rw e (ap (λ l. l ++ rows_of filters include_details bs) (append-nil rows))
  ]

  -- A step of the loop that returns has read the record and has treated its row.
  show_backup_value :
      (name : String) (rows more : List TableRow) (w : H.World)
      → (show_backup H filters include_details name rows w).0 ≡ ok more
      → (b : BackupConfig) × (((v : H.World) × ((get_backup_data_db H name v).0 ≡ ok b))
          × (more ≡ rows ++ rows_of filters include_details (b ∷ [])))
  unfolding show_backup
  show_backup_value name rows more w e =
      let (b, (read, added)) = bind_value _ _ w more e in
      let same : ok (rows ++ rows_of filters include_details (b ∷ [])) ≡ ok more =
        sym (add_backup_to_table_lem b rows _) ∙ added in
      (b, ((w, on_error-value _ _ w b read), cc))

  -- The loop adds to the rows before those of the records that it reads, one for each name.
  pub show_backups_value :
      (names : List String) (rows out : List TableRow) (w : H.World)
      → (show_backups H filters include_details names rows w).0 ≡ ok out
      → (bs : List BackupConfig) × (AreRead H names bs
          × (out ≡ rows ++ rows_of filters include_details bs))
  unfolding show_backups rows_of ◌>>=◌
  show_backups_value [] rows out w e =
      ([], (tt, sym (let s : rows ≡ out = cc in s) ∙ sym (append-nil rows)))
  show_backups_value (name ∷ names) rows out w e =
      let first_step = show_backup H filters include_details name rows in
      let (more, (first, later)) =
        bind_value first_step (show_backups H filters include_details names) w out e in
      let (b, (read, step)) = show_backup_value name rows more w first in
      let (bs, (reads, rest)) = show_backups_value names more out (first_step w).1 later in
      (
        b ∷ bs,
        (
          (read, reads),
          rest ∙ ap (λ l. l ++ rows_of filters include_details bs) step ∙ rows_of_cons rows b bs,
        ),
      )

abbrev pub filters_of : BackupInfoOptions → Filters
filters_of options = record {
  kind = options.backup_type_filter;
  table = options.table_name_filter;
  schema = options.schema_name_filter;
  exclude = options.exclude_filter;
}
