-- ===== src/Paths.antt =====
-- Paths: Go's `path/filepath` on Unix as far as it is used, and the path functions of
-- gpbckpconfig/utils.go.
pub mod FilePath
use Prim.Native.String.{len, slice}
use Prim.Native.Char.{code}
use gpbackman.Base.{
  ℕ, String, ◌<>◌, Bool, true, false, Option, none, some, List, [], ◌∷◌, if◌then◌else◌, ltb, ◌==◌,
  nat_eq,
}
use text.Mathlib.Text.{starts_with}
use gpbackman.Go.Result.{Error, Result, ok, err, panic}
use gpbackman.TextMsg.{error_validation_plugin_option}
use gpbackman.Config.{BackupConfig, backup_s3_plugin}
use FilePath.{path_join, last_element, trim_prefix_slash, trim_suffix_slash}

-- ReportFileName
unfoldable pub report_file_name : String → String
report_file_name timestamp = "gpbackup_" <> timestamp <> "_report"

-- `timestamp[0:8]`, which panics on a shorter text.
unfoldable pub first_eight : String → Result String
first_eight timestamp =
    if ltb (len timestamp) 8 then panic "slice bounds out of range" else ok (slice timestamp 0 8)

abbrev pub with_result {ℓ κ} : {A : Type ℓ} {B : Type κ} → Result A → (A → Result B) → Result B
with_result (ok a) f = f a
with_result (err e) f = err e
with_result (panic p) f = panic p

unfoldable pub backup_dir_path : String → String → Result String
unfolding first_eight path_join
backup_dir_path backup_dir timestamp =
    with_result (first_eight timestamp)
      λ day. ok (path_join (backup_dir ∷ "backups" ∷ day ∷ timestamp ∷ []))

unfoldable pub report_file_path : String → String → Result String
unfolding backup_dir_path report_file_name path_join
report_file_path backup_dir timestamp =
    with_result (backup_dir_path backup_dir timestamp)
      λ dir. ok (path_join (dir ∷ report_file_name timestamp ∷ []))

unfoldable pub backup_plugin_custom_report_path : String → String → String
unfolding report_file_name path_join
backup_plugin_custom_report_path timestamp folder =
    path_join ("/" ∷ folder ∷ report_file_name timestamp ∷ [])

-- The options of a plugin's configuration, `map[string]string`.
abbrev pub Options : Type 0
Options = List (String × String)

unfoldable pub lookup_option : String → Options → Option String
lookup_option key [] = none
lookup_option key ((k, v) ∷ rest) = if k == key then some v else lookup_option key rest

unfoldable pub s3_folder : String → String → Option String → Result String
unfolding report_file_name path_join trim_prefix_slash trim_suffix_slash
s3_folder timestamp basic none = err (error_validation_plugin_option "folder" backup_s3_plugin)
s3_folder timestamp basic (some folder) =
    if folder == ""
    then err (error_validation_plugin_option "folder" backup_s3_plugin)
    else ok (
        path_join (
          "/"
          ∷ trim_suffix_slash (trim_prefix_slash folder)
          ∷ basic
          ∷ report_file_name timestamp
          ∷ []))

unfoldable pub backup_s3_plugin_report_path : String → Options → Result String
unfolding first_eight s3_folder lookup_option
backup_s3_plugin_report_path timestamp options = with_result (first_eight timestamp) λ day.
    s3_folder timestamp ("backups/" <> day <> "/" <> timestamp) (lookup_option "folder" options)

-- `backupDir[:strings.LastIndex(backupDir, sub)]`; nothing where `sub` does not occur.
unfoldable pub before_last : String → String → Option String
before_last sub String.[] = none
before_last sub (String.◌∷◌ c s) = elim (before_last sub s) [
  | some p ↦ some (String.◌∷◌ c p)
  | none ↦ if starts_with (String.◌∷◌ c s) sub then some "" else none
]

-- The file part of `path.Split`; slicing up to the index -1 panics.
abbrev pub segment_prefix_of : Option String → Result String
segment_prefix_of none = panic "slice bounds out of range"
segment_prefix_of (some p) = ok (last_element p)

unfoldable pub get_seg_prefix : String → Result String
unfolding before_last last_element
get_seg_prefix backup_dir = segment_prefix_of (before_last "-1/backups" backup_dir)

-- IsAbs, of `CheckFullPath`.
unfoldable pub is_abs : String → Bool
is_abs path = starts_with path "/"
