-- ===== src/Db/Clean/Gone.antt =====
-- What a successful CleanBackupsDB has removed.
use mathlib.Core.Path.{subst}
use gpbackman.Base.{
  ℕ, ◌≤◌, ◌≡◌, sym, ◌∙◌, ap, String, true, false, List, [], ◌∷◌, ◌++◌, arith, contains, All,
  Bool-cases, inl, inr,
}
use gpbackman.Go.Result.{ok}
use gpbackman.Go.Exec.Rules.{Keeps, Keeps-pure, Keeps-bind, Ends, Ends-bind, Ends-then}
use gpbackman.Sql.Lexer.{QuoteFree}
use gpbackman.Host.{Host}
use gpbackman.Host.Laws.{IsSqlite}
use gpbackman.Db.Queries.Deleting.{
  Table, table_name, backups, restore_plans, restore_plan_tables, exclude_relations,
  exclude_schemas, include_relations, include_schemas,
}
use gpbackman.Db.Clean.{delete_from, clean_batch, clean_backups_db}
use gpbackman.Db.Clean.Batches.{gather, Fits, for_batches, clean_backups_db-Cleans}
use gpbackman.Db.Clean.Safe.{All-left, All-right}
use gpbackman.Db.Clean.Emptied.{Gone, GoneNow, delete_from_kept, delete_from-Gone, clean_batch_kept}

-- A round of the seven deletions, cut off behind the deletion from some table.
module _ (H : Host) (L : IsSqlite H) (name id : String) (ids : List String)
    (q : All QuoteFree (id ∷ ids)) (c : contains (id ∷ ids) name ≡ true) where
  abbrev stays :
      (t : Table) (other : Table)
      → Keeps (GoneNow H L name t) (delete_from H (table_name other) (id ∷ ids))
  stays t other = delete_from_kept H L name t other id ids q

  abbrev goes : (t : Table) → Ends (GoneNow H L name t) (delete_from H (table_name t) (id ∷ ids))
  goes t = delete_from-Gone H L name t id ids q c

  clean_batch-Gone : (t : Table) → Ends (GoneNow H L name t) (clean_batch H (id ∷ ids))
  unfolding clean_batch
  clean_batch-Gone backups = Ends-then _ _ (goes backups) λ _.
      Keeps-bind _ _ (stays backups restore_plans) λ _.
        Keeps-bind _ _ (stays backups restore_plan_tables) λ _.
          Keeps-bind _ _ (stays backups exclude_relations) λ _.
            Keeps-bind _ _ (stays backups exclude_schemas) λ _.
              Keeps-bind _ _ (stays backups include_relations) λ _. stays backups include_schemas
  clean_batch-Gone restore_plans = Ends-bind _ _ λ _. Ends-then _ _ (goes restore_plans) λ _.
      Keeps-bind _ _ (stays restore_plans restore_plan_tables) λ _.
        Keeps-bind _ _ (stays restore_plans exclude_relations) λ _.
          Keeps-bind _ _ (stays restore_plans exclude_schemas) λ _.
            Keeps-bind _ _ (stays restore_plans include_relations)
              λ _. stays restore_plans include_schemas
  clean_batch-Gone restore_plan_tables = Ends-bind _ _ λ _. Ends-bind _ _ λ _.
      Ends-then _ _ (goes restore_plan_tables) λ _.
        Keeps-bind _ _ (stays restore_plan_tables exclude_relations) λ _.
          Keeps-bind _ _ (stays restore_plan_tables exclude_schemas) λ _.
            Keeps-bind _ _ (stays restore_plan_tables include_relations)
              λ _. stays restore_plan_tables include_schemas
  clean_batch-Gone exclude_relations = Ends-bind _ _ λ _. Ends-bind _ _ λ _. Ends-bind _ _ λ _.
      Ends-then _ _ (goes exclude_relations) λ _.
        Keeps-bind _ _ (stays exclude_relations exclude_schemas) λ _.
          Keeps-bind _ _ (stays exclude_relations include_relations)
            λ _. stays exclude_relations include_schemas
  clean_batch-Gone exclude_schemas = Ends-bind _ _ λ _. Ends-bind _ _ λ _. Ends-bind _ _ λ _.
      Ends-bind _ _ λ _. Ends-then _ _ (goes exclude_schemas) λ _.
        Keeps-bind _ _ (stays exclude_schemas include_relations)
          λ _. stays exclude_schemas include_schemas
  clean_batch-Gone include_relations = Ends-bind _ _ λ _. Ends-bind _ _ λ _. Ends-bind _ _ λ _.
      Ends-bind _ _ λ _.
        Ends-bind _ _
          λ _. Ends-then _ _ (goes include_relations) λ _. stays include_relations include_schemas
  clean_batch-Gone include_schemas = Ends-bind _ _ λ _. Ends-bind _ _ λ _.
      Ends-bind _ _
        λ _. Ends-bind _ _ λ _. Ends-bind _ _ λ _. Ends-bind _ _ λ _. goes include_schemas

contains-append :
    (a b : List String) (x : String)
    → contains (a ++ b) x ≡ true
    → contains a x ≡ false
    → contains b x ≡ true
contains-append [] b x h n = h
contains-append (y ∷ a) b x h n = ground (arith, contains-append a b x)

module _ (H : Host) (L : IsSqlite H) (name : String) (t : Table) where
  for_batches_kept :
      (size : ℕ) (bs : List (List String))
      → All (Fits size) bs
      → All QuoteFree (gather bs)
      → Keeps (GoneNow H L name t) (for_batches H bs)
  unfolding for_batches gather
  for_batches_kept size [] fits q = Keeps-pure tt
  for_batches_kept size ([] ∷ bs) (fit, fits) q = absurd (omega (arith, fit.0))
  for_batches_kept size ((id ∷ ids) ∷ bs) (fit, fits) q =
      Keeps-bind _ _ (clean_batch_kept H L name t id ids (All-left (id ∷ ids) (gather bs) q))
        λ _. for_batches_kept size bs fits (All-right (id ∷ ids) (gather bs) q)

  for_batches-Gone :
      (size : ℕ) (bs : List (List String))
      → All (Fits size) bs
      → All QuoteFree (gather bs)
      → contains (gather bs) name ≡ true
      → Ends (GoneNow H L name t) (for_batches H bs)
  unfolding for_batches gather
  for_batches-Gone size [] fits q c = absurd (cc)
  for_batches-Gone size ([] ∷ bs) (fit, fits) q c = absurd (omega (arith, fit.0))
  for_batches-Gone size ((id ∷ ids) ∷ bs) (fit, fits) q c =
      elim (Bool-cases (contains (id ∷ ids) name)) [
        | inl here ↦
            Ends-then _ _
              (clean_batch-Gone H L name id ids (All-left (id ∷ ids) (gather bs) q) here t)
              λ _. for_batches_kept size bs fits (All-right (id ∷ ids) (gather bs) q)
        | inr later ↦ Ends-bind _ _ λ _.
            for_batches-Gone size bs fits (All-right (id ∷ ids) (gather bs) q)
              (contains-append (id ∷ ids) (gather bs) name c later)
      ]

-- Where cleaning returns without error, none of the seven tables has a row of any backup in the
-- list, whatever the number of batches. The names in the list must hold no quote, and the batch size
-- must be positive.
pub clean_backups_db-Gone :
    (H : Host) (L : IsSqlite H) (list : List String) (size : ℕ) (name : String) (t : Table)
    (w : H.World)
    → 1 ≤ size
    → All QuoteFree list
    → contains list name ≡ true
    → (clean_backups_db H list size w).0 ≡ ok tt
    → Gone name (table_name t) (L.committed (clean_backups_db H list size w).1)
clean_backups_db-Gone H L list size name t w h q c e =
    let (bs, g, f, r) = clean_backups_db-Cleans H list size h in
    let ends =
      for_batches-Gone H L name t size bs f (subst (All QuoteFree) (sym g) q)
        (ap (λ l. contains l name) g ∙ c) in
    subst (λ run. Gone name (table_name t) (L.committed (run w).1)) (sym r)
      (ends.at w tt (ap (λ run. (run w).0) (sym r) ∙ e))
