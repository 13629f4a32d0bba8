-- ===== src/Db/Clean/Emptied.antt =====
-- One deletion, and the tables that have no row of a name.
use mathlib.Core.Path.{subst}
use gpbackman.Base.{
  ◌≡◌, refl, sym, ◌∙◌, ap, String, Bool, true, not, List, [], ◌∷◌, arith, ◌==◌, contains, All,
  Bool-cases, inl, inr, eq_iff, eq_refl,
}
use gpbackman.Go.Result.{Result, ok, err, panic}
use gpbackman.Go.Exec.Rules.{Keeps, Keeps-bind, Ends}
use gpbackman.Sql.{delete}
use gpbackman.Sql.Lexer.{QuoteFree}
use gpbackman.Sql.Meaning.{Tables, Row, named, filter_rows, perform}
use gpbackman.Host.{Host}
use gpbackman.Host.Laws.{IsSqlite}
use gpbackman.Db.Queries.{delete_backups_form_table_query}
use gpbackman.Db.Queries.Deleting.{
  Table, table_name, backups, restore_plans, restore_plan_tables, exclude_relations,
  exclude_schemas, include_relations, include_schemas, lex-delete,
}
use gpbackman.Db.Update.{Atomic, exec_statement_func-Atomic}
use gpbackman.Db.Clean.{id_str, delete_from, clean_batch}

-- The table has no row of that name.
abbrev pub Gone : String → String → Tables → Type 0
Gone name table now = filter_rows (named name) (now table) ≡ []

filter-kept :
    (name : String) (test : Row → Bool) (rows : List Row)
    → filter_rows (named name) rows ≡ []
    → filter_rows (named name) (filter_rows test rows) ≡ []
unfolding filter_rows
filter-kept name test [] h = refl
filter-kept name test (r ∷ rows) h = elim (Bool-cases (named name r)) [
  | inl e ↦ absurd (cons_not_nil (rw e at h))
  | inr e ↦ elim (Bool-cases (test r)) [
    | inl t ↦ rw (t, e) (filter-kept name test rows (rw e at h))
    | inr t ↦ rw t (filter-kept name test rows (rw e at h))
  ]
]
  where
    cons_not_nil : {x : Row} {xs : List Row} → (x ∷ xs) ≡ [] → ⊥
    cons_not_nil e = cc

filter-out :
    (name : String) (values : List String) (rows : List Row)
    → contains values name ≡ true
    → filter_rows (named name) (filter_rows (λ r. not (contains values (r "timestamp"))) rows) ≡ []
unfolding filter_rows
filter-out name values [] c = refl
filter-out name values (r ∷ rows) c = elim (Bool-cases (contains values (r "timestamp"))) [
  | inl e ↦ rw e (filter-out name values rows c)
  | inr e ↦ elim (Bool-cases (named name r)) [
    | inl n ↦
        let same : r "timestamp" ≡ name = (eq_iff (r "timestamp") name).0 n in
        let found : contains values (r "timestamp") ≡ true = ap (contains values) same ∙ c in
        absurd (ground (arith, e, found))
    | inr n ↦ rw (e, n) (filter-out name values rows c)
  ]
]

module _ (H : Host) (L : IsSqlite H) (name : String) (t : Table) where
  abbrev pub GoneNow : H.World → Type 0
  GoneNow w = Gone name (table_name t) (L.committed w)

  perform_kept :
      (table : String) (values : List String) (now : Tables)
      → Gone name (table_name t) now
      → Gone name (table_name t) (perform (delete table values) now)
  unfolding perform
  perform_kept table values now h = elim (Bool-cases (table_name t == table)) [
    | inl e ↦ rw e (filter-kept name _ (now (table_name t)) h)
    | inr e ↦ rw e h
  ]

  Atomic-kept :
      (table : String) (values : List String) (now next : Tables) (r : Result (Unit {0}))
      → Atomic (delete table values) now next r
      → Gone name (table_name t) now
      → Gone name (table_name t) next
  Atomic-kept table values now next (ok u) at h =
      subst (Gone name (table_name t)) (sym at) (perform_kept table values now h)
  Atomic-kept table values now next (err e) at h = subst (Gone name (table_name t)) (sym at) h
  Atomic-kept table values now next (panic p) at h = subst (Gone name (table_name t)) (sym at) h

  pub delete_from_kept :
      (other : Table) (id : String) (ids : List String)
      → All QuoteFree (id ∷ ids)
      → Keeps GoneNow (delete_from H (table_name other) (id ∷ ids))
  unfolding delete_from
  delete_from_kept other id ids q = record {
    at = λ w h.
        Atomic-kept (table_name other) (id ∷ ids) (L.committed w) _ _
          (exec_statement_func-Atomic H L
            (delete_backups_form_table_query (table_name other) (id_str (id ∷ ids)))
            (delete (table_name other) (id ∷ ids)) w (lex-delete other id ids q))
          h;
  }

  perform-Gone :
      (values : List String) (now : Tables)
      → contains values name ≡ true
      → Gone name (table_name t) (perform (delete (table_name t) values) now)
  unfolding perform
  perform-Gone values now c =
      rw (eq_refl (table_name t)) (filter-out name values (now (table_name t)) c)

  Atomic-Gone :
      (values : List String) (now next : Tables) (r : Result (Unit {0})) (u : Unit {0})
      → r ≡ ok u
      → contains values name ≡ true
      → Atomic (delete (table_name t) values) now next r
      → Gone name (table_name t) next
  Atomic-Gone values now next (ok x) u e c at =
      subst (Gone name (table_name t)) (sym at) (perform-Gone values now c)
  Atomic-Gone values now next (err x) u e c at = absurd (cc)
  Atomic-Gone values now next (panic p) u e c at = absurd (cc)

  pub delete_from-Gone :
      (id : String) (ids : List String)
      → All QuoteFree (id ∷ ids)
      → contains (id ∷ ids) name ≡ true
      → Ends GoneNow (delete_from H (table_name t) (id ∷ ids))
  unfolding delete_from
  delete_from-Gone id ids q c = record {
    at = λ w u e. Atomic-Gone (id ∷ ids) (L.committed w) _ _ u e c (
        exec_statement_func-Atomic H L
          (delete_backups_form_table_query (table_name t) (id_str (id ∷ ids)))
          (delete (table_name t) (id ∷ ids)) w (lex-delete t id ids q));
  }

  pub clean_batch_kept :
      (id : String) (ids : List String)
      → All QuoteFree (id ∷ ids)
      → Keeps GoneNow (clean_batch H (id ∷ ids))
  unfolding clean_batch
  clean_batch_kept id ids q =
      let d = λ (other : Table). delete_from_kept other id ids q in
      Keeps-bind _ _ (d backups) λ _. Keeps-bind _ _ (d restore_plans) λ _.
        Keeps-bind _ _ (d restore_plan_tables) λ _. Keeps-bind _ _ (d exclude_relations) λ _.
          Keeps-bind _ _ (d exclude_schemas)
            λ _. Keeps-bind _ _ (d include_relations) λ _. d include_schemas
