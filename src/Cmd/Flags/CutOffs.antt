-- ===== src/Cmd/Flags/CutOffs.antt =====
-- The cut-offs that backup-clean and history-clean take from their flags.
use gpbackman.Base.{
  ℕ, ◌≡◌, refl, sym, ◌∙◌, ap, String, Bool, true, false, ◌&&◌, ◌==◌, arith, Bool-cases, inl, inr,
}
use mathlib.Core.Path.{subst}
use gpbackman.Go.Program.{Program, returned, give, ◌>>=◌, ◌>>◌, when}
use gpbackman.Go.Program.Deciding.{Decides-when}
use gpbackman.Go.Program.Returning.{bind_returned, Decides_returned}
use gpbackman.Config.Validate.Laws.{check_timestamp_iff, check_timestamp-safe}
use gpbackman.Config.Validate.Older.{get_timestamp_older_then_plain}
use gpbackman.Sql.Lexer.{QuoteFree}
use gpbackman.Time.RoundTrip.{IsValid}
use gpbackman.Host.{Host}
use gpbackman.Cmd.Flags.{Changed, fail_with}
use gpbackman.Cmd.Flags.Delete.{timestamp_flag}
use gpbackman.Cmd.Flags.Clean.{
  BackupCleanOptions, HistoryCleanOptions, CutOffs, cut_off_flag, older_flag,
  do_clean_backup_flag_validation, do_clean_history_flag_validation,
}
use gpbackman.Cmd.Flags.Steps.{Decides-IsTimestamp, Decides-fail_with}

module _ (H : Host) (clock : (w : H.World) → IsValid (H.now w)) (changed : Changed) where
  cut_off_flag_plain :
      (flag timestamp s : String) (w : H.World)
      → (cut_off_flag H changed flag timestamp w).0 ≡ returned s
      → QuoteFree s
  unfolding cut_off_flag ◌>>=◌
  cut_off_flag_plain flag timestamp s w e = elim (Bool-cases (changed flag)) [
    | inl c ↦
        let (u, (first, later)) =
          bind_returned (timestamp_flag H flag timestamp) (λ _. give timestamp) w s (rw c at e) in
        let digits =
          Decides_returned (timestamp_flag H flag timestamp) (Decides-IsTimestamp H flag timestamp)
            w first in
        let same : timestamp ≡ s = cc in
        subst QuoteFree same
          (check_timestamp-safe timestamp ((check_timestamp_iff timestamp).1 digits)).0
    | inr c ↦ let d = rw c at e in let same : "" ≡ s = cc in subst QuoteFree same (omega arith)
  ]

  older_flag_plain :
      (days : ℕ) (given s : String) (w : H.World)
      → QuoteFree given
      → (older_flag H changed days given w).0 ≡ returned s
      → QuoteFree s
  unfolding older_flag
  older_flag_plain days given s w plain e = elim (Bool-cases (changed "older-than-days")) [
    | inl c ↦
        let d = rw c at e in
        subst QuoteFree
          (let same : gpbackman.Config.Validate.get_timestamp_older_then days (H.now w) ≡ s = cc in
            same)
          (get_timestamp_older_then_plain days (H.now w) (clock w))
    | inr c ↦ let d = rw c at e in let same : given ≡ s = cc in subst QuoteFree same plain
  ]

  -- A block of two calls of which the first gives nothing.
  then_returned :
      {A : Type 0} (m : Program H.World (Unit {0})) (n : Program H.World A) (w : H.World) (a : A)
      → ((m >> n) w).0 ≡ returned a
      → ((m w).0 ≡ returned tt) × ((n (m w).1).0 ≡ returned a)
  then_returned m n w a e =
      let (u, (first, later)) = bind_returned m (λ _. n) w a e in (first, later)

  -- Cut-offs that are both empty have ended the program.
  refused_empty :
      (test : Bool) (text : String) (w : H.World)
      → (when test (fail_with H text) w).0 ≡ returned tt
      → test ≡ false
  refused_empty true text w e =
      absurd (Decides_returned _ (Decides-when true _ (Decides-fail_with H text)) w e refl)
  refused_empty false text w e = refl

  give_value : {A : Type 0} (a b : A) (w : H.World) → (give a w).0 ≡ returned b → a ≡ b
  unfolding ◌>>=◌
  give_value a b w e = cc

  -- The end of both validations.
  checked_end :
      {A : Type 0} (test : Bool) (text : String) (a b : A) (w : H.World)
      → ((when test (fail_with H text) >> give a) w).0 ≡ returned b
      → (test ≡ false) × (a ≡ b)
  checked_end test text a b w e =
      let (refused, given) = then_returned (when test (fail_with H text)) (give a) w b e in
      (refused_empty test text w refused, give_value a b _ given)

  clean_cut_offs :
      (options : BackupCleanOptions) (c : CutOffs) (w : H.World)
      → (do_clean_backup_flag_validation H changed options w).0 ≡ returned c
      → QuoteFree c.before × (QuoteFree c.after × ((c.before == "" && c.after == "") ≡ false))
  unfolding do_clean_backup_flag_validation
  clean_cut_offs options c w e =
      let (given, (e1, r1)) = bind_returned _ _ w c e in
      let (before, (e2, r2)) = bind_returned _ _ _ c r1 in
      let (after, (e3, r3)) = bind_returned _ _ _ c r2 in
      let (e4, r4) = then_returned _ _ _ c r3 in
      let (e5, r5) = then_returned _ _ _ c r4 in
      let (e6, r6) = then_returned _ _ _ c r5 in
      let (e7, r7) = then_returned _ _ _ c r6 in
      let (e8, r8) = then_returned _ _ _ c r7 in
      let (some_given, same) = checked_end _ _ _ c _ r8 in
      let plain =
        older_flag_plain options.older_than_days given before _
          (cut_off_flag_plain "before-timestamp" options.before_timestamp given w e1) e2 in
      let plain_after = cut_off_flag_plain "after-timestamp" options.after_timestamp after _ e3 in
      (
        subst QuoteFree (ap (λ x. x.before) same) plain,
        (
          subst QuoteFree (ap (λ x. x.after) same) plain_after,
          ap (λ x. x.before == "" && x.after == "") (sym same) ∙ some_given,
        ),
      )

  history_cut_off :
      (options : HistoryCleanOptions) (before : String) (w : H.World)
      → (do_clean_history_flag_validation H changed options w).0 ≡ returned before
      → QuoteFree before × ((before == "") ≡ false)
  unfolding do_clean_history_flag_validation
  history_cut_off options before w e =
      let (given, (e1, r1)) = bind_returned _ _ w before e in
      let (cut_off, (e2, r2)) = bind_returned _ _ _ before r1 in
      let (some_given, same) = checked_end _ _ _ before _ r2 in
      let plain =
        older_flag_plain options.older_than_days given cut_off _
          (cut_off_flag_plain "before-timestamp" options.before_timestamp given w e1) e2 in
      (subst QuoteFree same plain, ap (λ x. x == "") (sym same) ∙ some_given)

-- Where the flags of backup-clean are accepted, at least one of the two cut-offs that are then given
-- to the queries is not empty, and neither holds a quote, whether it is a timestamp of the user or
-- made from a number of days. The clock must show valid times.
pub do_clean_backup_flag_validation-QuoteFree :
    (H : Host)
    → ((w : H.World) → IsValid (H.now w))
    → (changed : Changed) (options : BackupCleanOptions) (c : CutOffs) (w : H.World)
    → (do_clean_backup_flag_validation H changed options w).0 ≡ returned c
    → QuoteFree c.before × (QuoteFree c.after × ((c.before == "" && c.after == "") ≡ false))
do_clean_backup_flag_validation-QuoteFree H clock changed options c w e =
    clean_cut_offs H clock changed options c w e

-- Where the flags of history-clean are accepted, the cut-off that is then given to the query is not
-- empty and holds no quote, whether it is a timestamp of the user or made from a number of days. The
-- clock must show valid times.
pub do_clean_history_flag_validation-QuoteFree :
    (H : Host)
    → ((w : H.World) → IsValid (H.now w))
    → (changed : Changed) (options : HistoryCleanOptions) (before : String) (w : H.World)
    → (do_clean_history_flag_validation H changed options w).0 ≡ returned before
    → QuoteFree before × ((before == "") ≡ false)
do_clean_history_flag_validation-QuoteFree H clock changed options before w e =
    history_cut_off H clock changed options before w e
