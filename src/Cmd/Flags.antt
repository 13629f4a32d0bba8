-- ===== src/Cmd/Flags.antt =====
-- What all commands do with their flags: cmd/wrappers.go, cmd/root.go and cmd/constants.go.
pub mod Delete
pub mod Clean
pub mod Info
pub mod Report
pub mod Steps
pub mod Valid
pub mod CutOffs
use gpbackman.Base.{
  ℕ, suc, zero, String, ◌<>◌, Bool, true, false, not, List, [], ◌∷◌, if◌then◌else◌, ◌==◌, ltb, leb,
  ◌&&◌, ◌+◌, contains, codes, codes_eq, join, nat_eq,
}
use gpbackman.Go.Result.{Error, Result, ok, err}
use gpbackman.Go.Program.{Program, returned, give, os_exit, ◌>>=◌, ◌>>◌, when, check}
use gpbackman.TextMsg.{
  error_invalid_value_error, error_incompatible_flags_error, error_text_unable_validate_flag,
  error_text_unable_compatible_flags,
}
use gpbackman.Config.{
  backup_type_full, backup_type_incremental, backup_type_data_only, backup_type_metadata_only,
}
use gpbackman.Config.Validate.{check_full_path}
use gpbackman.Host.{
  Host, error, Verbosity, log_error_level, log_info_level, log_verbose_level, log_debug_level,
}

-- flags.Changed: whether the user gave the flag.
abbrev pub Changed : Type 0
Changed = String → Bool

-- The variables of cmd/root.go that the flags of all commands set.
pub record RootOptions : Type 0 where
  pub history_db : String
  pub log_level_console : String
  pub log_level_file : String

unfoldable pub count_changed : Changed → List String → ℕ
count_changed changed [] = 0
count_changed changed (name ∷ names) =
    let rest = count_changed changed names in if changed name then suc rest else rest

unfoldable pub check_compatible_flags : Changed → List String → Result (Unit {0})
unfolding count_changed
check_compatible_flags changed names =
    if ltb 1 (count_changed changed names) then err error_incompatible_flags_error else ok tt

unfoldable pub check_backup_type : String → Result (Unit {0})
check_backup_type backup_type =
    if not (
      contains
        (backup_type_full ∷ backup_type_incremental ∷ backup_type_metadata_only
          ∷ backup_type_data_only ∷ [])
        backup_type)
    then err error_invalid_value_error
    else ok tt

-- unicode.ToLower, on the letters whose lower case is an ASCII letter; the others are not changed,
-- and neither they nor their lower case stand in a level's name.
unfoldable pub to_lower : ℕ → ℕ
to_lower c =
    if leb 65 c && leb c 90
    then c + 32
    else if nat_eq c 304
    then 105
    else if nat_eq c 8490
    then 107
    else c

unfoldable pub lower_codes : List ℕ → List ℕ
unfolding to_lower
lower_codes [] = []
lower_codes (c ∷ cs) = to_lower c ∷ lower_codes cs

-- The cases of the `switch` of setLogLevelConsole and of setLogLevelFile.
unfoldable pub level_named : List ℕ → Result Verbosity
level_named name =
    if codes_eq name (codes "info")
    then ok log_info_level
    else if codes_eq name (codes "error")
    then ok log_error_level
    else if codes_eq name (codes "debug")
    then ok log_debug_level
    else if codes_eq name (codes "verbose")
    then ok log_verbose_level
    else err error_invalid_value_error

-- The level that a text names.
unfoldable pub log_level : String → Result Verbosity
unfolding lower_codes level_named
log_level level = level_named (lower_codes (codes level))

abbrev pub history_db_name : String
history_db_name = "gpbackup_history.db"

abbrev pub history_file_name : String
history_file_name = "gpbackup_history.yaml"

unfoldable pub get_history_db_path : String → String
get_history_db_path path = if not (path == "") then path else history_db_name

unfoldable pub get_history_file_path : String → String
get_history_file_path path = if not (path == "") then path else history_file_name

module _ (H : Host) where
  -- `gplog.Error("%s", text); execOSExit(exitErrorCode)`
  unfoldable pub fail_with : String → Program H.World (Unit {0})
  unfolding ◌>>=◌
  fail_with text w = os_exit 1 (H.log error text w)

  unfoldable pub invalid : String → String → Error → Program H.World (Unit {0})
  invalid value flag e = fail_with (error_text_unable_validate_flag value flag e)

  -- `err = checkCompatibleFlags(...); if err != nil { ... }`
  unfoldable pub compatible : Changed → List String → Program H.World (Unit {0})
  unfolding check_compatible_flags
  compatible changed names =
      check (λ w. check_compatible_flags changed names)
        (λ e. fail_with (error_text_unable_compatible_flags e names))

  -- `err = gpbckpconfig.CheckFullPath(...); if err != nil { ... }`
  unfoldable pub full_path : String → Bool → String → Program H.World (Unit {0})
  full_path path check_file_exists flag =
      check (λ w. check_full_path path check_file_exists (H.stat path w)) (invalid path flag)

  abbrev pub level_set :
      (Verbosity → H.World → H.World)
      → Result Verbosity
      → (Error → Program H.World (Unit {0}))
      → Program H.World (Unit {0})
  level_set set (ok v) handler w = (returned tt, set v w)
  level_set set (err e) handler w = handler e w
  level_set set (Result.panic p) handler w = (gpbackman.Go.Program.crash p, w)

  -- setLogLevelConsole, and the handling of its error.
  unfoldable pub set_log_level_console : String → Program H.World (Unit {0})
  unfolding log_level
  set_log_level_console level =
      level_set H.set_verbosity (log_level level) (invalid level "log-level-console")

  unfoldable pub set_log_level_file : String → Program H.World (Unit {0})
  unfolding log_level
  set_log_level_file level =
      level_set H.set_log_file_verbosity (log_level level) (invalid level "log-level-file")

  unfoldable pub do_root_flag_validation : Changed → Bool → RootOptions → Program H.World (Unit {0})
  unfolding full_path set_log_level_console set_log_level_file
  do_root_flag_validation changed check_file_exists options = do
    when (changed "history-db") (full_path options.history_db check_file_exists "history-db")
    set_log_level_console options.log_level_console
    set_log_level_file options.log_level_file
