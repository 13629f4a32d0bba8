-- ===== src/Lib.antt =====
-- gpbackman manages the backups that gpbackup made of a Greenplum cluster. It reads gpbackup's
-- history, a SQLite database, shows backups and their reports, deletes backups, their files and their
-- history, and moves an older YAML history into the database.
--
-- The parts, each with the files that model it:
--   Base, Go            shared lists, texts, numbers and tests; Go's errors, panics and effects
--                       (Go/Exec), and programs that may end by os.Exit (Go/Program)
--   Time                time.Parse and time.Format at the layouts of gpbckpconfig/struct.go
--   TextMsg             textmsg/error.go, textmsg/info.go, textmsg/warn.go
--   Config              gpbckpconfig/struct.go: Kind (GetBackupType, GetObjectFilteringInfo,
--                       CheckObjectFilteringExists), Status (IsSuccess, IsLocal, IsBackupActive of
--                       utils.go, CheckBackupCanBeDisplayed of utils_file.go), Dates
--                       (GetBackupDate, GetBackupDuration, GetBackupDateDeleted), Search
--                       (FindBackupConfig and the other methods of History), Convert (converters.go),
--                       Validate (CheckTimestamp, GetTimestampOlderThen, CheckFullPath,
--                       CheckTableFQN, IsPositiveValue of utils.go)
--   Paths               the path functions of gpbckpconfig/utils.go, over Go's path packages
--   Sql                 tokens and meaning of the SQL that the program sends; written independently
--   Host                what the program calls and does not implement, as a record of functions:
--                       database/sql and the SQLite driver, the log, the clock, the file system,
--                       processes, the cluster and ssh. Host/Laws states what is assumed of SQLite
--                       and that the other calls do not write the history database.
--   Db                  gpbckpconfig/utils_db.go: Queries (the texts), Update, Names, Clean
--   Cmd                 cmd/wrappers.go (Guard, Dirs, Flags), cmd/root.go and the validation of the
--                       flags of each command (Flags and its children), cmd/backup_delete.go and
--                       cmd/interfaces.go (Segments, Delete, Chain), cmd/backup_clean.go and
--                       cmd/history_clean.go (Clean), cmd/backup_info.go (Info), cmd/report_info.go
--                       (Report), cmd/history_migrate.go (Migrate), the functions that open and close
--                       the database around the work of a command (Commands) and the `Run` functions
--                       (Entry). Frame, Outcome, Chain/Kept, Chain/Spares and the children of
--                       Clean and Commands hold the proofs on what is left in the database.
--   Tests               a host in memory and the theorems at concrete inputs
--
-- A command is a function from the host's state to a result (a value, an error or a panic) and a
-- state: what was done before an error stays done, and a deferred close runs on every way out but a
-- panic of a segment worker, which ends the process at once. The validation of flags and the `Run` functions may end the program with an exit code instead. `gplog`
-- calls are calls of the host. SQL texts are lists of code points, since they are analysed; all other
-- texts are strings. Whether a flag was given is a function from its name; the variables that flags
-- set are records of options.
--
-- Fuel: the loop of CleanBackupsDB has a round for each name, which is enough for a positive batch
-- size. All other loops are by structural recursion.
--
-- The digits of a printed number are taken on fuel, one round for each unit of the number and one
-- more.
--
-- Not modelled: the wiring and the parsing of the cobra commands' flags, the interleaving of the
-- segment workers inside one phase (they run one after another, in any order) and their limit on
-- parallel processes, the connection string of the cluster and the reading of the ssh key, the
-- drawing and the sorting of the printed table, dates before the year 0, zones whose clocks are
-- changed, and rounding: a duration is kept in nanoseconds where the code has a float of seconds.
-- The paths of all segments are computed before the first worker starts, where the code starts each
-- worker as soon as its path is known.
pub mod Base
pub mod Go
pub mod TextMsg
pub mod Time
pub mod Config
pub mod Sql
pub mod Paths
pub mod Host
pub mod Db
pub mod Cmd
pub mod Tests
