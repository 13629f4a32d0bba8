-- ===== src/Tests/States.antt =====
-- The states of the host in memory that the tests start from.
use gpbackman.Base.{◌≡◌, ◌==◌, refl, String, [], ◌∷◌, if◌then◌else◌}
use gpbackman.Sql.Meaning.{Tables}
use gpbackman.Tests.Memory.{memory, memory-IsSqlite, first_name, second_name}

abbrev row : String → String → String → String
row name date col =
    if col == "timestamp"
    then name
    else if col == "status"
    then "Success"
    else if col == "date_deleted"
    then date
    else ""

abbrev plan_row : String → String → String → String
plan_row name needed col =
    if col == "timestamp" then name else if col == "restore_plan_timestamp" then needed else ""

-- Two backups, of which the second depends on the first.
abbrev pub two_backups : Tables
two_backups table =
    if table == "backups"
    then row second_name "" ∷ row first_name "" ∷ []
    else if table == "restore_plans"
    then plan_row first_name first_name ∷ plan_row second_name first_name ∷ []
    else []

unfoldable pub start : memory.World
unfolding memory
start = record {
  committed = two_backups;
  working = two_backups;
  stored = [];
  printed = [];
  renamed = [];
}

pub start_tables : memory-IsSqlite.committed start ≡ two_backups
unfolding memory start memory-IsSqlite
start_tables = refl

-- The first backup has been deleted.
abbrev pub one_deleted : Tables
one_deleted table =
    if table == "backups"
    then row second_name "" ∷ row first_name "20230610200000" ∷ []
    else two_backups table

unfoldable pub after_deletion : memory.World
unfolding memory start
after_deletion = record start { committed = one_deleted; working = one_deleted }

pub after_deletion_tables : memory-IsSqlite.committed after_deletion ≡ one_deleted
unfolding memory after_deletion memory-IsSqlite
after_deletion_tables = refl
