-- ===== src/Sql/Meaning/Laws.antt =====
-- Laws of the statements' meaning.
use mathlib.Core.Path.{fun_ext, ap₂}
use gpbackman.Base.{
  ◌≡◌, refl, String, List, [], ◌∷◌, arith, if◌then◌else◌, ◌==◌, Bool-cases, inl, inr,
}
use gpbackman.Sql.{set_date_deleted}
use gpbackman.Sql.Meaning.{Row, Tables, with_date, date_rows, perform}

with_date_twice : (a b : String) (r : Row) → with_date a (with_date b r) ≡ with_date a r
with_date_twice a b r = fun_ext λ col. ground arith

dated_twice :
    (k a b : String) (r : Row)
    → let once : Row = if r "timestamp" == k then with_date b r else r in
      (if once "timestamp" == k then with_date a once else once)
      ≡ (if r "timestamp" == k then with_date a r else r)
dated_twice k a b r = elim (Bool-cases (r "timestamp" == k)) [
  | inl same ↦ rw (same, same) (with_date_twice a b r)
  | inr differ ↦ rw (differ, differ)
]

date_rows_twice :
    (k a b : String) (rows : List Row) → date_rows k a (date_rows k b rows) ≡ date_rows k a rows
unfolding date_rows
date_rows_twice k a b [] = refl
date_rows_twice k a b (r ∷ rows) =
    ap₂ (λ (x : Row) (xs : List Row). x ∷ xs) (dated_twice k a b r) (date_rows_twice k a b rows)

-- A second update of the same backup's date takes the place of the first.
pub perform_twice :
    (k a b : String) (t : Tables)
    → perform (set_date_deleted k a) (perform (set_date_deleted k b) t)
      ≡ perform (set_date_deleted k a) t
unfolding perform
perform_twice k a b t = fun_ext λ name. elim (Bool-cases (name == "backups")) [
  | inl same ↦ rw (same) (date_rows_twice k a b (t name))
  | inr differ ↦ rw (differ)
]
