-- ===== src/Config/Kind/Laws.antt =====
-- What the flags of a backup say of its type and of its object filtering.
use gpbackman.Base.{ℕ, ◌+◌, ◌≤◌, ◌≡◌, ◌↔◌, String, Bool, true, false, arith}
use gpbackman.Go.Result.{Error, Result, ok, err}
use gpbackman.Config.{BackupConfig}
use gpbackman.Config.Kind.{get_backup_type, get_object_filtering_info}

-- The documented table: incremental and data-only exclude one another, a metadata-only flag beside
-- one of them means that no table had data, and no flag means a full backup.
abbrev pub documented_type : Bool → Bool → Bool → Result String
documented_type true true metadata =
    err (Error.error_new "backup type does not match any of the available values")
documented_type false false false = ok "full"
documented_type true false false = ok "incremental"
documented_type false true false = ok "data-only"
documented_type _ _ true = ok "metadata-only"

-- The type of a backup is the documented one for all eight combinations of its flags, and it is an
-- error exactly where a backup is both incremental and data-only.
pub get_backup_type-documented :
    (b : BackupConfig)
    → get_backup_type b ≡ documented_type b.incremental b.data_only b.metadata_only
unfolding get_backup_type
get_backup_type-documented b = ground arith

abbrev pub count_of : Bool → ℕ
count_of true = 1
count_of false = 0

-- The number of filter flags that are set.
abbrev pub filters : BackupConfig → ℕ
filters b =
    count_of b.include_schema_filtered
    + count_of b.exclude_schema_filtered
    + count_of b.include_table_filtered
    + count_of b.exclude_table_filtered

abbrev pub IsErr {ℓ} : {A : Type ℓ} → Result A → Type 0
IsErr (ok a) = ⊥
IsErr (err e) = Unit
IsErr (Result.panic p) = ⊥

-- The object filtering is an error exactly where two or more of the four filter flags are set.
pub get_object_filtering_info_error :
    (b : BackupConfig) → IsErr (get_object_filtering_info b) ↔ (2 ≤ filters b)
unfolding get_object_filtering_info
get_object_filtering_info_error b = ground arith
