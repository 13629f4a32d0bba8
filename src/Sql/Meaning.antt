-- ===== src/Sql/Meaning.antt =====
-- What the statements mean: tables are lists of rows, a row gives the text of each column.
pub mod Laws
pub mod Order
pub mod Elsewhere
use Prim.Native.String.{compare}
use Prim.Native.Nat.{Ordering}
use gpbackman.Base.{
  ℕ, String, Bool, true, false, ◌&&◌, not, List, [], ◌∷◌, map, if◌then◌else◌, ◌==◌, contains,
}
use gpbackman.Sql.{
  Condition, equal, differs, less, greater, one_of, none_of, Select, Statement, delete,
  set_date_deleted,
}

abbrev pub Row : Type 0
Row = String → String

-- The rows of each table, by the table's name.
abbrev pub Tables : Type 0
Tables = String → List Row

abbrev pub str_lt : String → String → Bool
str_lt s t = elim (compare s t) [ Ordering.lt ↦ true | _ ↦ false ]

abbrev pub holds : Condition → Row → Bool
holds (equal col v) r = r col == v
holds (differs col v) r = not (r col == v)
holds (less col v) r = str_lt (r col) v
holds (greater col v) r = str_lt v (r col)
holds (one_of col vs) r = contains vs (r col)
holds (none_of col vs) r = not (contains vs (r col))

abbrev pub holds_all : List Condition → Row → Bool
holds_all [] r = true
holds_all (c ∷ cs) r = holds c r && holds_all cs r

-- The row is that of the named backup.
abbrev pub named : String → Row → Bool
named name r = r "timestamp" == name

-- The rows that satisfy a test, in order.
unfoldable pub filter_rows : (Row → Bool) → List Row → List Row
filter_rows p [] = []
filter_rows p (r ∷ rows) = let rest = filter_rows p rows in if p r then r ∷ rest else rest

unfoldable pub insert_row : Row → List Row → List Row
insert_row r [] = r ∷ []
insert_row r (s ∷ rows) =
    let later = s ∷ insert_row r rows in
    if str_lt (r "timestamp") (s "timestamp") then later else r ∷ s ∷ rows

-- ORDER BY timestamp DESC
unfoldable pub order_rows : List Row → List Row
unfolding insert_row
order_rows [] = []
order_rows (r ∷ rows) = insert_row r (order_rows rows)

unfoldable pub answer : Select → Tables → List String
unfolding filter_rows order_rows insert_row
answer s tables =
    map (λ r. r s.column) (order_rows (filter_rows (holds_all s.conditions) (tables s.table)))

abbrev pub with_date : String → Row → Row
with_date date r col = if col == "date_deleted" then date else r col

unfoldable pub date_rows : String → String → List Row → List Row
date_rows key date [] = []
date_rows key date (r ∷ rows) =
    (if r "timestamp" == key then with_date date r else r) ∷ date_rows key date rows

unfoldable pub perform : Statement → Tables → Tables
perform (delete table values) tables name =
    if name == table
    then filter_rows (λ r. not (contains values (r "timestamp"))) (tables name)
    else tables name
perform (set_date_deleted key date) tables name =
    if name == "backups" then date_rows key date (tables name) else tables name
