-- ===== src/Db/Update.antt =====
-- A statement in a transaction of its own: execStatementFunc of gpbckpconfig/utils_db.go.
use gpbackman.Base.{ℕ, ◌≡◌, refl, sym, ap, ◌∙◌, String, List, arith}
use gpbackman.Go.Result.{Error, Result, ok, err, panic}
use gpbackman.Go.Exec.{Exec, ◌>>=◌, on_error}
use gpbackman.Go.Exec.Steps.{
  bind_ok, bind_err, bind_panic, on_error_ok, on_error_err, on_error_panic,
}
use mathlib.Core.Path.{subst}
use gpbackman.Sql.{Statement, set_date_deleted, statement_tokens}
use gpbackman.Sql.Lexer.{lex, QuoteFree}
use gpbackman.Sql.Meaning.{Tables, perform}
use gpbackman.Host.{Host}
use gpbackman.Host.Actions.{roll_back}
use gpbackman.Host.Laws.{IsSqlite}
use gpbackman.Db.{exec_statement_func, update_delete_status}
use gpbackman.Db.Queries.{update_delete_status_query}
use gpbackman.Db.Queries.Lexing.{lex-update}

-- The tables after a statement, by what the call returned.
abbrev pub Atomic : Statement → Tables → Tables → Result (Unit {0}) → Type 0
Atomic s before after (ok a) = after ≡ perform s before
Atomic s before after (err e) = after ≡ before
Atomic s before after (panic p) = after ≡ before

module _ (H : Host) (L : IsSqlite H) (q : List ℕ) (s : Statement) where
  open L use {committed, working}

  commit_step :
      (before : Tables) (w : H.World) (r : Result (Unit {0}))
      → r ≡ (H.commit w).0
      → committed w ≡ before
      → working w ≡ perform s before
      → Atomic s before (committed (H.commit w).1) r
  commit_step before w (ok tt) e c k = L.commit_publishes w (ground arith) ∙ k
  commit_step before w (err x) e c k = L.commit_fails w (λ f. cc) ∙ c
  commit_step before w (panic p) e c k = L.commit_fails w (λ f. cc) ∙ c

  guarded : Exec H.World (Unit {0})
  guarded = on_error (H.exec q) (λ _. roll_back H)

  guarded_ok : (w : H.World) → (H.exec q w).0 ≡ ok tt → guarded w ≡ (ok tt, (H.exec q w).1)
  unfolding guarded
  guarded_ok w e = on_error_ok (H.exec q) (λ _. roll_back H) w e

  guarded_err :
      (w : H.World) {x : Error}
      → (H.exec q w).0 ≡ err x
      → guarded w ≡ (err x, H.rollback (H.exec q w).1)
  unfolding guarded roll_back ◌>>=◌
  guarded_err w e = on_error_err (H.exec q) (λ _. roll_back H) w e

  guarded_panic :
      (w : H.World) {p : String} → (H.exec q w).0 ≡ panic p → guarded w ≡ (panic p, (H.exec q w).1)
  unfolding guarded
  guarded_panic w e = on_error_panic (H.exec q) (λ _. roll_back H) w e

  abbrev tail : Exec H.World (Unit {0})
  tail = guarded >>= λ _. H.commit

  abbrev Does : Tables → Result (Unit {0}) × H.World → Type 0
  Does before out = Atomic s before (committed out.1) out.0

  exec_step :
      (before : Tables) (w : H.World) (r : Result (Unit {0}))
      → (H.exec q w).0 ≡ r
      → lex q ≡ statement_tokens s
      → committed w ≡ before
      → working w ≡ before
      → Does before (tail w)
  exec_step before w (ok u) e l c k =
      subst (Does before)
        (sym (bind_ok guarded (λ _. H.commit) w (ap (λ out. out.0) (guarded_ok w e))))
        (rw (guarded_ok w e) (
          commit_step before (H.exec q w).1 _ refl (L.exec_keeps q w ∙ c)
            (L.exec_acts q s w l e ∙ ap (perform s) k)))
  exec_step before w (err x) e l c k =
      subst (Does before)
        (sym (bind_err guarded (λ _. H.commit) w (ap (λ out. out.0) (guarded_err w e))))
        (rw (guarded_err w e) (L.rollback_keeps (H.exec q w).1 ∙ L.exec_keeps q w ∙ c))
  exec_step before w (panic p) e l c k =
      subst (Does before)
        (sym (bind_panic guarded (λ _. H.commit) w (ap (λ out. out.0) (guarded_panic w e))))
        (rw (guarded_panic w e) (L.exec_keeps q w ∙ c))

  begin_step :
      (w : H.World) (r : Result (Unit {0}))
      → (H.begin w).0 ≡ r
      → lex q ≡ statement_tokens s
      → Does (committed w) ((H.begin >>= λ _. tail) w)
  begin_step w (ok u) e l =
      subst (Does (committed w)) (sym (bind_ok H.begin (λ _. tail) w e))
        (exec_step (committed w) (H.begin w).1 _ refl l (L.begin_keeps w) (L.begin_starts w e))
  begin_step w (err x) e l =
      subst (Does (committed w)) (sym (bind_err H.begin (λ _. tail) w e)) (L.begin_keeps w)
  begin_step w (panic p) e l =
      subst (Does (committed w)) (sym (bind_panic H.begin (λ _. tail) w e)) (L.begin_keeps w)

  -- A statement is sent in its own transaction: where the call returns without error the committed
  -- tables are those that the statement makes of the ones before, and where it fails at any point
  -- (begin, execution, commit) they are as before.
  pub exec_statement_func-Atomic :
      (w : H.World)
      → lex q ≡ statement_tokens s
      → Atomic s
          (committed w)
          (committed (exec_statement_func H q w).1)
          (exec_statement_func H q w).0
  unfolding exec_statement_func guarded
  exec_statement_func-Atomic w l = begin_step w _ refl l

-- Setting the deletion date of a backup whose name and new date hold no quote: on success the rows
-- of that name in `backups` have the new date and nothing else has changed, and on failure nothing
-- has changed.
pub update_delete_status-Atomic :
    (H : Host) (L : IsSqlite H) (name date : String) (w : H.World)
    → QuoteFree name
    → QuoteFree date
    → let out = update_delete_status H name date w in
      Atomic (set_date_deleted name date) (L.committed w) (L.committed out.1) out.0
unfolding update_delete_status
update_delete_status-Atomic H L name date w h k =
    exec_statement_func-Atomic H L (update_delete_status_query name date)
      (set_date_deleted name date) w (lex-update name date h k)
