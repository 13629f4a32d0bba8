-- ===== src/Config/Dates/Laws.antt =====
-- Reading the deletion date of a deleted backup (GetBackupDateDeleted of gpbckpconfig/struct.go).
use gpbackman.Base.{
  all_below, ◌≡◌, refl, sym, ◌∙◌, ap, ◌≢◌, String, Bool, true, false, none, arith, ◌==◌, eq_iff,
  Bool-cases, inl, inr,
}
use gpbackman.Go.Result.{Result, err}
use gpbackman.Time.{Time, read_year}
use gpbackman.Time.Parse.{parse}
use gpbackman.Time.Format.{weekday_name, format_date, format_layout}
use gpbackman.Time.RoundTrip.{IsValid, parse-format_layout}
use gpbackman.Time.Dates.{format_date-ne}
use gpbackman.Config.{
  BackupConfig, date_deleted_in_progress, date_deleted_plugin_failed, date_deleted_local_failed,
}
use gpbackman.Config.Status.{is_backup_active}
use gpbackman.Config.Dates.{get_backup_date_deleted, deleted_of}

abbrev fails : Result Time → Bool
fails (err e) = true
fails _ = false

-- A text that is not a timestamp is not what a time is printed as.
layout_ne : (t : Time) (s : String) → IsValid t → fails (parse s) ≡ true → format_layout t ≢ s
layout_ne t s v h e =
    let p = ap parse (sym e) ∙ parse-format_layout t v in let q = ap fails p in ground (arith, h, q)

layout_test :
    (t : Time) (s : String) → IsValid t → fails (parse s) ≡ true → (format_layout t == s) ≡ false
layout_test t s v h = elim (Bool-cases (format_layout t == s)) [
  | inl e ↦ absurd (layout_ne t s v h ((eq_iff _ _).0 e))
  | inr e ↦ e
]

date_test : (t : Time) (s : String) → format_date t ≢ s → (format_date t == s) ≡ false
date_test t s h = elim (Bool-cases (format_date t == s)) [
  | inl e ↦ absurd (h ((eq_iff _ _).0 e))
  | inr e ↦ e
]

-- The deletion date that `backup-delete` writes at the time t is read as that time, without error.
pub get_backup_date_deleted-format_layout :
    (b : BackupConfig) (t : Time)
    → IsValid t
    → b.date_deleted ≡ format_layout t
    → get_backup_date_deleted b ≡ (format_date t, none)
unfolding get_backup_date_deleted parse read_year format_date
get_backup_date_deleted-format_layout b t v e =
    rw
      (
        e,
        layout_test t "" v refl,
        layout_test t date_deleted_in_progress v refl,
        layout_test t date_deleted_plugin_failed v refl,
        layout_test t date_deleted_local_failed v refl,
      )
      (ap (deleted_of (format_layout t)) (parse-format_layout t v))

pub is_backup_active-format_date : (t : Time) → is_backup_active (format_date t) ≡ false
unfolding is_backup_active all_below weekday_name
is_backup_active-format_date t =
    rw
      (
        date_test t "" (format_date-ne t "" refl),
        date_test t date_deleted_plugin_failed (format_date-ne t date_deleted_plugin_failed refl),
        date_test t date_deleted_local_failed (format_date-ne t date_deleted_local_failed refl),
      )
      refl
