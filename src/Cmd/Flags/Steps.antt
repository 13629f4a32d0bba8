-- ===== src/Cmd/Flags/Steps.antt =====
-- The single checks of the flags, each with the condition under which it lets the program go on.
use gpbackman.Base.{
  ◌≡◌, ◌≢◌, refl, ◌↔◌, String, Bool, true, false, ◌&&◌, not, List, [], ◌∷◌, All, ℤ, arith, inr, ltb,
  zero, suc, ◌≤◌, Contains, eq_iff,
}
use gpbackman.Go.Result.{Error, ok}
use gpbackman.Go.Program.{Program, exit, check, ◌>>=◌}
use gpbackman.Go.Program.Deciding.{Decides, Decides-check, Decides-when, Decides-iff}
use gpbackman.Config.Validate.{
  check_timestamp, check_full_path, check_table_fqn, is_positive_value, missing,
}
use gpbackman.Config.Validate.Laws.{IsTimestamp, check_timestamp_iff, IsFqn, check_table_fqn_iff}
use gpbackman.Host.{Host, Stat}
use gpbackman.Paths.{is_abs}
use gpbackman.Cmd.Flags.{
  Changed, count_changed, check_compatible_flags, check_backup_type, fail_with, invalid, compatible,
  full_path,
}
use gpbackman.Cmd.Flags.Delete.{timestamp_flag, parallel_flag}

-- At most one of the flags was given.
abbrev pub Exclusive : Changed → List String → Type 0
Exclusive changed [] = Unit
Exclusive changed (name ∷ names) =
    (changed name ≡ true → All (λ other. changed other ≡ false) names) × Exclusive changed names

none_changed :
    (changed : Changed) (names : List String)
    → (count_changed changed names ≡ 0) ↔ All (λ other. changed other ≡ false) names
unfolding count_changed
none_changed changed [] = (λ h. tt, λ h. refl)
none_changed changed (name ∷ names) = ground (arith, none_changed changed names)

Exclusive-none :
    (changed : Changed) (names : List String)
    → All (λ other. changed other ≡ false) names
    → Exclusive changed names
Exclusive-none changed [] h = tt
Exclusive-none changed (name ∷ names) (n, ns) = (λ h. ns, Exclusive-none changed names ns)

count_iff :
    (changed : Changed) (names : List String)
    → (ltb 1 (count_changed changed names) ≡ false) ↔ Exclusive changed names
unfolding count_changed
count_iff changed [] = (λ h. tt, λ h. ground arith)
count_iff changed (name ∷ names) =
    ground
      (arith, none_changed changed names, Exclusive-none changed names, count_iff changed names)

pub check_compatible_flags_iff :
    (changed : Changed) (names : List String)
    → (check_compatible_flags changed names ≡ ok tt) ↔ Exclusive changed names
unfolding check_compatible_flags
check_compatible_flags_iff changed names = ground (arith, count_iff changed names)

-- An absolute path; with `must_exist` it may not be one that the file system does not know.
abbrev pub IsFullPath : String → Bool → Stat → Type 0
IsFullPath path must_exist stat =
    (is_abs path ≡ true) × (must_exist ≡ true → (e : Error) → stat ≢ Stat.not_exist e)

missing_iff : (stat : Stat) → (missing stat ≡ false) ↔ ((e : Error) → stat ≢ Stat.not_exist e)
missing_iff Stat.found = (λ h e d. absurd (cc), λ h. refl)
missing_iff (Stat.not_exist e) = (λ h. absurd (cc), λ h. absurd (h e refl))
missing_iff (Stat.stat_error e) = (λ h x d. absurd (cc), λ h. refl)

check_full_path_iff :
    (path : String) (must_exist : Bool) (stat : Stat)
    → (check_full_path path must_exist stat ≡ ok tt) ↔ IsFullPath path must_exist stat
unfolding check_full_path
check_full_path_iff path must_exist stat = ground (arith, missing_iff stat)

-- A number of processes: at least one.
abbrev pub IsPositive : ℤ → Type 0
IsPositive (ℤ.pos n) = 1 ≤ n
IsPositive (ℤ.negsuc n) = ⊥

is_positive_value_iff :
    (given : Bool) (n : ℤ)
    → (given && not (is_positive_value n) ≡ true → ⊥) ↔ (given ≡ true → IsPositive n)
unfolding is_positive_value
is_positive_value_iff given (ℤ.pos zero) = ground arith
is_positive_value_iff given (ℤ.pos (suc n)) = ((λ h e. omega arith), λ h e. ground (arith, e))
is_positive_value_iff given (ℤ.negsuc n) = ground arith

-- One of the four types of a backup.
abbrev pub IsBackupType : String → Type 0
IsBackupType kind = Contains kind ("full" ∷ "incremental" ∷ "metadata-only" ∷ "data-only" ∷ [])

check_backup_type_iff : (kind : String) → (check_backup_type kind ≡ ok tt) ↔ IsBackupType kind
unfolding check_backup_type
check_backup_type_iff kind = ground (
  arith,
  eq_iff kind "full",
  eq_iff kind "incremental",
  eq_iff kind "metadata-only",
  eq_iff kind "data-only",
)

module _ (H : Host) where
  fail_with_exits : (text : String) (w : H.World) → (fail_with H text w).0 ≡ exit 1
  unfolding fail_with ◌>>=◌
  fail_with_exits text w = refl

  invalid_exits :
      (value flag : String) (e : Error) (w : H.World) → (invalid H value flag e w).0 ≡ exit 1
  unfolding invalid
  invalid_exits value flag e w = fail_with_exits _ w

  -- A step that ends the program decides that it is not reached.
  Decides-fail :
      (m : Program H.World (Unit {0})) → ((w : H.World) → (m w).0 ≡ exit 1) → Decides (λ w. ⊥) m
  Decides-fail m ends = record { at = λ w. inr (λ q. q, ends w) }

  pub Decides-fail_with : (text : String) → Decides (λ w. ⊥) (fail_with H text)
  Decides-fail_with text = Decides-fail (fail_with H text) (fail_with_exits text)

  pub Decides-IsTimestamp :
      (flag timestamp : String)
      → Decides (λ w. IsTimestamp timestamp) (timestamp_flag H flag timestamp)
  unfolding timestamp_flag check_timestamp
  Decides-IsTimestamp flag timestamp =
      Decides-check _ _ (λ w. check_timestamp_iff timestamp) (λ w p e. ground (arith, e))
        (invalid_exits timestamp flag)

  pub Decides-compatible :
      (changed : Changed) (names : List String)
      → Decides (λ w. Exclusive changed names) (compatible H changed names)
  unfolding compatible
  Decides-compatible changed names =
      Decides-check _ _ (λ w. check_compatible_flags_iff changed names) (λ w p e. ground (arith, e))
        (λ e w. fail_with_exits _ w)

  pub Decides-full_path :
      (path : String) (must_exist : Bool) (flag : String)
      → Decides (λ w. IsFullPath path must_exist (H.stat path w)) (full_path H path must_exist flag)
  unfolding full_path check_full_path
  Decides-full_path path must_exist flag =
      Decides-check _ _ (λ w. check_full_path_iff path must_exist (H.stat path w))
        (λ w p e. ground (arith, e)) (invalid_exits path flag)

  pub Decides-IsFqn :
      (table flag : String)
      → Decides (λ w. IsFqn table) (check (λ w. check_table_fqn table) (invalid H table flag))
  unfolding check_table_fqn
  Decides-IsFqn table flag =
      Decides-check _ _ (λ w. check_table_fqn_iff table) (λ w p e. ground (arith, e))
        (invalid_exits table flag)

  pub Decides-parallel :
      (changed : Changed) (processes : ℤ)
      → Decides
          (λ w. changed "parallel-processes" ≡ true → IsPositive processes)
          (parallel_flag H changed processes)
  unfolding parallel_flag
  Decides-parallel changed processes =
      Decides-iff (parallel_flag H changed processes)
        (λ w. is_positive_value_iff (changed "parallel-processes") processes)
        (Decides-when _ _ (Decides-fail _ (invalid_exits _ _ _)))

  pub Decides-IsBackupType :
      (kind flag : String)
      → Decides (λ w. IsBackupType kind) (check (λ w. check_backup_type kind) (invalid H kind flag))
  unfolding check_backup_type
  Decides-IsBackupType kind flag =
      Decides-check _ _ (λ w. check_backup_type_iff kind) (λ w p e. ground (arith, e))
        (invalid_exits kind flag)
