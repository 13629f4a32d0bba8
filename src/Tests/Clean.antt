-- ===== src/Tests/Clean.antt =====
-- Cleaning three names in batches of two.
use gpbackman.Base.{String, List, [], ◌∷◌, arith}
use gpbackman.Db.Clean.{clean_backups_db}
use gpbackman.Db.Clean.Batches.{Cleans, clean_backups_db-Cleans}
use gpbackman.Base.{All}
use gpbackman.Sql.Lexer.{QuoteFree}
use gpbackman.Db.Clean.Safe.{Untouched, clean_backups_db-Untouched}
use gpbackman.Tests.Memory.{memory, memory-IsSqlite}
use gpbackman.Tests.States.{start}

abbrev three : List String
three = "20230611101130" ∷ "20230610101130" ∷ "20230609101130" ∷ []

clean_backups_db-Cleans_example : Cleans memory 2 three (clean_backups_db memory three 2)
clean_backups_db-Cleans_example = clean_backups_db-Cleans memory three 2 (omega arith)

quote_free : All QuoteFree three
quote_free = (omega arith, (omega arith, (omega arith, tt)))

clean_backups_db-Untouched_example :
    Untouched three
      (memory-IsSqlite.committed start)
      (memory-IsSqlite.committed (clean_backups_db memory three 2 start).1)
clean_backups_db-Untouched_example =
    clean_backups_db-Untouched memory memory-IsSqlite three 2 start (omega arith) quote_free
