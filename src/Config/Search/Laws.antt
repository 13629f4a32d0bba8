-- ===== src/Config/Search/Laws.antt =====
-- Searching and updating the history in memory.
use gpbackman.Base.{
  ℕ, zero, suc, ◌+◌, ◌≤◌, ◌≡◌, refl, ◌≢◌, ◌∙◌, ap, String, false, List, [], ◌∷◌, ◌++◌, arith,
  if◌then◌else◌, ◌==◌, eq_iff, length, take, map, All, Bool-cases, inl, inr,
}
use mathlib.Core.List.{append-nil, append_assoc}
use gpbackman.Go.Result.{Result, ok, err, panic}
use gpbackman.Config.{BackupConfig, RestorePlanEntry, History}
use gpbackman.Config.Search.{
  find_from, find_backup_config, plan_hits, dependencies_loop, find_backup_config_dependencies,
  update_first, update_backup_config_date_deleted, cons_result, with_configs,
}

-- `b` stands at index `i`, bears the timestamp, and no backup before it does.
abbrev pub FirstAt : String → List BackupConfig → ℕ → BackupConfig → Type 0
FirstAt timestamp [] i b = ⊥
FirstAt timestamp (c ∷ rest) zero b = (c ≡ b) × (c.timestamp ≡ timestamp)
FirstAt timestamp (c ∷ rest) (suc i) b = (c.timestamp ≢ timestamp) × FirstAt timestamp rest i b

-- What a search must answer, from the index `start` of the list's head on.
abbrev pub FindsFrom : ℕ → String → List BackupConfig → Result (ℕ × BackupConfig) → Type 0
FindsFrom start timestamp configs (ok (i, b)) =
    (k : ℕ) × (i ≡ start + k) × FirstAt timestamp configs k b
FindsFrom start timestamp configs (err e) = All (λ c. c.timestamp ≢ timestamp) configs
FindsFrom start timestamp configs (panic p) = ⊥

shift :
    (start : ℕ) (timestamp : String) (c : BackupConfig) (rest : List BackupConfig)
    (r : Result (ℕ × BackupConfig))
    → c.timestamp ≢ timestamp
    → FindsFrom (suc start) timestamp rest r
    → FindsFrom start timestamp (c ∷ rest) r
shift start timestamp c rest (ok (i, b)) ne (k, at, first) = (suc k, omega arith, (ne, first))
shift start timestamp c rest (err e) ne h = (ne, h)
shift start timestamp c rest (panic p) ne h = h

find_from_lem :
    (start : ℕ) (timestamp : String) (configs : List BackupConfig)
    → FindsFrom start timestamp configs (find_from start timestamp configs)
unfolding find_from
find_from_lem start timestamp [] = tt
find_from_lem start timestamp (c ∷ rest) = elim (Bool-cases (c.timestamp == timestamp)) [
  | inl same ↦ rw same (0, omega arith, (refl, (eq_iff _ _).0 same))
  | inr differ ↦ rw differ (
      shift start timestamp c rest _ (λ e. cc (differ, (eq_iff c.timestamp timestamp).1 e))
        (find_from_lem (suc start) timestamp rest))
]

-- The search gives the index of the first backup with the timestamp, and that backup; it is an
-- error exactly where no backup has the timestamp; and it never panics.
pub find_backup_config_first :
    (history : History) (timestamp : String)
    → FindsFrom 0 timestamp history.backup_configs (find_backup_config history timestamp)
unfolding find_backup_config
find_backup_config_first history timestamp = find_from_lem 0 timestamp history.backup_configs

-- How often a name stands in a list.
occurrences : String → List String → ℕ
occurrences name [] = 0
occurrences name (x ∷ xs) = let rest = occurrences name xs in if x == name then suc rest else rest

repeated : ℕ → String → List String
repeated zero name = []
repeated (suc n) name = name ∷ repeated n name

-- The dependents among some backups, in order: each one's name, as often as its restore plan names
-- the timestamp.
pub dependents : String → List BackupConfig → List String
dependents timestamp [] = []
dependents timestamp (b ∷ rest) =
    repeated (occurrences timestamp (map (λ e. e.timestamp) b.restore_plan)) b.timestamp
    ++ dependents timestamp rest

plan_hits_lem :
    (timestamp name : String) (plan : List RestorePlanEntry)
    → plan_hits timestamp name plan
      ≡ repeated (occurrences timestamp (map (λ e. e.timestamp) plan)) name
unfolding plan_hits occurrences repeated
plan_hits_lem timestamp name [] = refl
plan_hits_lem timestamp name (entry ∷ plan) = elim (Bool-cases (entry.timestamp == timestamp)) [
  | inl same ↦ rw same (ap (λ l. name ∷ l) (plan_hits_lem timestamp name plan))
  | inr differ ↦ rw differ (plan_hits_lem timestamp name plan)
]

dependencies_loop_lem :
    (n : ℕ) (configs : List BackupConfig) (timestamp : String) (found : List String)
    → n ≤ length configs
    → dependencies_loop n configs timestamp found
      ≡ ok (found ++ dependents timestamp (take n configs))
unfolding dependencies_loop dependents
dependencies_loop_lem zero configs timestamp found h = rw append-nil
dependencies_loop_lem (suc n) [] timestamp found h = absurd (omega arith)
dependencies_loop_lem (suc n) (b ∷ rest) timestamp found h =
    dependencies_loop_lem n rest timestamp _ (omega arith)
    ∙ ap ok (append_assoc found (plan_hits timestamp b.timestamp b.restore_plan) _)
    ∙ ap (λ hits. ok (found ++ (hits ++ dependents timestamp (take n rest))))
        (plan_hits_lem timestamp b.timestamp b.restore_plan)

-- Up to a stop position within the history the search gives, without error or panic, the dependents
-- among the backups before that position, in order: the name of each backup as often as its restore
-- plan names the timestamp.
pub find_backup_config_dependencies_total :
    (history : History) (timestamp : String) (stop : ℕ)
    → stop ≤ length history.backup_configs
    → find_backup_config_dependencies history timestamp stop
      ≡ ok (dependents timestamp (take stop history.backup_configs))
unfolding find_backup_config_dependencies
find_backup_config_dependencies_total history timestamp stop h =
    dependencies_loop_lem stop history.backup_configs timestamp [] h

-- A list in which the first backup with the timestamp, if there is one, has a new deletion date.
pub dated : String → String → List BackupConfig → List BackupConfig
dated timestamp date [] = []
dated timestamp date (c ∷ rest) =
    if c.timestamp == timestamp
    then record c { date_deleted = date } ∷ rest
    else c ∷ dated timestamp date rest

-- What searching says after updating.
abbrev pub found_after : String → Result (ℕ × BackupConfig) → Result (ℕ × BackupConfig)
found_after date (ok (i, b)) = ok (i, record b { date_deleted = date })
found_after date (err e) = err e
found_after date (panic p) = panic p

abbrev pub search_in : String → Result History → Result (ℕ × BackupConfig)
search_in timestamp (ok h) = find_backup_config h timestamp
search_in timestamp (err e) = err e
search_in timestamp (panic p) = panic p

abbrev search_list : ℕ → String → Result (List BackupConfig) → Result (ℕ × BackupConfig)
search_list start timestamp (ok l) = find_from start timestamp l
search_list start timestamp (err e) = err e
search_list start timestamp (panic p) = panic p

search_list-cons :
    (start : ℕ) (timestamp : String) (c : BackupConfig) (r : Result (List BackupConfig))
    → (c.timestamp == timestamp) ≡ false
    → search_list start timestamp (cons_result c r) ≡ search_list (suc start) timestamp r
unfolding find_from
search_list-cons start timestamp c (ok l) h = rw h
search_list-cons start timestamp c (err e) h = refl
search_list-cons start timestamp c (panic p) h = refl

search-update_first :
    (start : ℕ) (timestamp date : String) (configs : List BackupConfig)
    → search_list start timestamp (update_first timestamp date configs)
      ≡ found_after date (find_from start timestamp configs)
unfolding find_from update_first
search-update_first start timestamp date [] = refl
search-update_first start timestamp date (c ∷ rest) = elim (Bool-cases (c.timestamp == timestamp)) [
  | inl same ↦ rw (same, same)
  | inr differ ↦ rw differ (
      search_list-cons start timestamp c (update_first timestamp date rest) differ
      ∙ search-update_first (suc start) timestamp date rest)
]

search_in-with_configs :
    (timestamp : String) (r : Result (List BackupConfig))
    → search_in timestamp (with_configs r) ≡ search_list 0 timestamp r
unfolding find_backup_config
search_in-with_configs timestamp (ok l) = refl
search_in-with_configs timestamp (err e) = refl
search_in-with_configs timestamp (panic p) = refl

-- After an update of a deletion date the search finds the same backup at the same index, with the
-- new date and otherwise as it was; an update is an error exactly where the search is, with the
-- same text.
pub find-update :
    (history : History) (timestamp date : String)
    → search_in timestamp (update_backup_config_date_deleted history timestamp date)
      ≡ found_after date (find_backup_config history timestamp)
unfolding update_backup_config_date_deleted find_backup_config
find-update history timestamp date =
    search_in-with_configs timestamp _ ∙ search-update_first 0 timestamp date history.backup_configs
