-- ===== src/Db/Clean/Safe.antt =====
-- What CleanBackupsDB leaves in the tables.
use mathlib.Core.Path.{subst}
use gpbackman.Base.{
  ℕ, ◌≤◌, ◌≡◌, refl, sym, ◌∙◌, ap, String, Bool, true, false, not, List, [], ◌∷◌, ◌++◌, arith, ◌==◌,
  contains, All, Bool-cases, inl, inr,
}
use gpbackman.Go.Result.{Result, ok, err, panic}
use gpbackman.Go.Exec.Rules.{Keeps, Keeps-pure, Keeps-bind}
use gpbackman.Sql.{delete}
use gpbackman.Sql.Lexer.{QuoteFree}
use gpbackman.Sql.Meaning.{Tables, Row, filter_rows, perform}
use gpbackman.Host.{Host}
use gpbackman.Host.Laws.{IsSqlite}
use gpbackman.Db.Queries.{delete_backups_form_table_query}
use gpbackman.Db.Queries.Deleting.{
  Table, table_name, backups, restore_plans, restore_plan_tables, exclude_relations,
  exclude_schemas, include_relations, include_schemas, lex-delete,
}
use gpbackman.Db.Update.{Atomic, exec_statement_func-Atomic}
use gpbackman.Db.Clean.{id_str, delete_from, clean_batch, clean_backups_db}
use gpbackman.Db.Clean.Batches.{gather, Fits, for_batches, clean_backups_db-Cleans}

-- The rows of backups that are not in the list.
abbrev pub other : List String → Row → Bool
other list r = not (contains list (r "timestamp"))

-- In every table the rows of other backups are as they were, in the same order.
abbrev pub Untouched : List String → Tables → Tables → Type 0
Untouched list before now =
    (table : String)
    → filter_rows (other list) (now table) ≡ filter_rows (other list) (before table)

pub filter-filter :
    (f g : Row → Bool)
    → ((r : Row) → f r ≡ true → g r ≡ true)
    → (rows : List Row) → filter_rows f (filter_rows g rows) ≡ filter_rows f rows
unfolding filter_rows
filter-filter f g h [] = refl
filter-filter f g h (r ∷ rows) = elim (Bool-cases (g r)) [
  | inl e ↦ rw (e, filter-filter f g h rows) refl
  | inr e ↦ elim (Bool-cases (f r)) [
    | inl d ↦ absurd (ground (arith, h r d))
    | inr d ↦ rw (e, d) (filter-filter f g h rows)
  ]
]

-- Names outside `list` are outside `values`.
abbrev Within : List String → List String → Type 0
Within values list = (x : String) → contains list x ≡ false → contains values x ≡ false

delete-Untouched :
    (list values : List String) (before now : Tables) (table : String)
    → Within values list
    → Untouched list before now
    → Untouched list before (perform (delete table values) now)
unfolding perform
delete-Untouched list values before now table within h name = elim (Bool-cases (name == table)) [
  | inl e ↦ rw e (
      filter-filter (other list) (other values) (λ r d. ground (arith, within (r "timestamp"), d))
        (now name)
      ∙ h name)
  | inr e ↦ rw e (h name)
]

step-Untouched :
    (list values : List String) (before now next : Tables) (table : String) (r : Result (Unit {0}))
    → Within values list
    → Atomic (delete table values) now next r
    → Untouched list before now
    → Untouched list before next
step-Untouched list values before now next table (ok u) within at h =
    subst (Untouched list before) (sym at) (delete-Untouched list values before now table within h)
step-Untouched list values before now next table (err e) within at h =
    subst (Untouched list before) (sym at) h
step-Untouched list values before now next table (panic p) within at h =
    subst (Untouched list before) (sym at) h

contains-left :
    (a b : List String) (x : String) → contains (a ++ b) x ≡ false → contains a x ≡ false
contains-left [] b x h = refl
contains-left (y ∷ a) b x h = ground (arith, contains-left a b x)

contains-right :
    (a b : List String) (x : String) → contains (a ++ b) x ≡ false → contains b x ≡ false
contains-right [] b x h = h
contains-right (y ∷ a) b x h = ground (arith, contains-right a b x)

pub All-left : (a b : List String) → All QuoteFree (a ++ b) → All QuoteFree a
All-left [] b h = tt
All-left (y ∷ a) b (h, hs) = (h, All-left a b hs)

pub All-right : (a b : List String) → All QuoteFree (a ++ b) → All QuoteFree b
All-right [] b h = h
All-right (y ∷ a) b (h, hs) = All-right a b hs

module _ (H : Host) (L : IsSqlite H) (list : List String) (before : Tables) where
  abbrev Safe : H.World → Type 0
  Safe w = Untouched list before (L.committed w)

  delete_from-Safe :
      (t : Table) (id : String) (ids : List String)
      → Within (id ∷ ids) list
      → All QuoteFree (id ∷ ids)
      → Keeps Safe (delete_from H (table_name t) (id ∷ ids))
  unfolding delete_from
  delete_from-Safe t id ids within q = record {
    at = λ w h.
        step-Untouched list (id ∷ ids) before (L.committed w) _ (table_name t) _ within
          (exec_statement_func-Atomic H L
            (delete_backups_form_table_query (table_name t) (id_str (id ∷ ids)))
            (delete (table_name t) (id ∷ ids)) w (lex-delete t id ids q))
          h;
  }

  clean_batch-Safe :
      (id : String) (ids : List String)
      → Within (id ∷ ids) list
      → All QuoteFree (id ∷ ids)
      → Keeps Safe (clean_batch H (id ∷ ids))
  unfolding clean_batch
  clean_batch-Safe id ids within q =
      let d = λ (t : Table). delete_from-Safe t id ids within q in
      Keeps-bind _ _ (d backups) λ _. Keeps-bind _ _ (d restore_plans) λ _.
        Keeps-bind _ _ (d restore_plan_tables) λ _. Keeps-bind _ _ (d exclude_relations) λ _.
          Keeps-bind _ _ (d exclude_schemas)
            λ _. Keeps-bind _ _ (d include_relations) λ _. d include_schemas

  for_batches-Safe :
      (size : ℕ) (bs : List (List String))
      → All (Fits size) bs
      → Within (gather bs) list
      → All QuoteFree (gather bs)
      → Keeps Safe (for_batches H bs)
  unfolding for_batches gather
  for_batches-Safe size [] fits within q = Keeps-pure tt
  for_batches-Safe size ([] ∷ bs) (fit, fits) within q = absurd (omega (arith, fit.0))
  for_batches-Safe size ((id ∷ ids) ∷ bs) (fit, fits) within q =
      Keeps-bind _ _
        (clean_batch-Safe id ids (λ x n. contains-left (id ∷ ids) (gather bs) x (within x n))
          (All-left (id ∷ ids) (gather bs) q))
        λ _.
          for_batches-Safe size bs fits
            (λ x n. contains-right (id ∷ ids) (gather bs) x (within x n))
            (All-right (id ∷ ids) (gather bs) q)

-- Whatever fails on the way, and in whichever batch, cleaning leaves the rows of the backups that
-- are not in the list as they were and in the same order, in every table of the database. The names
-- in the list must hold no quote, and the batch size must be positive.
pub clean_backups_db-Untouched :
    (H : Host) (L : IsSqlite H) (list : List String) (size : ℕ) (w : H.World)
    → 1 ≤ size
    → All QuoteFree list
    → Untouched list (L.committed w) (L.committed (clean_backups_db H list size w).1)
clean_backups_db-Untouched H L list size w h q =
    let (bs, g, f, r) = clean_backups_db-Cleans H list size h in
    let within : Within (gather bs) list = λ x n. ap (λ l. contains l x) g ∙ n in
    let k =
      for_batches-Safe H L list (L.committed w) size bs f within
        (subst (All QuoteFree) (sym g) q) in
    subst (λ run. Untouched list (L.committed w) (L.committed (run w).1)) (sym r)
      (k.at w (λ table. refl))
