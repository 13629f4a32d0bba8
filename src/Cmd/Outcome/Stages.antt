-- ===== src/Cmd/Outcome/Stages.antt =====
-- What the deletion of one backup may have written so far.
use gpbackman.Base.{◌≡◌, sym, ◌∙◌, ap, ◌⊎◌, inl, inr, String, List, Contains}
use gpbackman.Go.Result.{Result, ok, err, panic}
use gpbackman.Sql.{set_date_deleted}
use gpbackman.Sql.Meaning.{Tables, perform}
use gpbackman.Sql.Meaning.Laws.{perform_twice}
use gpbackman.Db.Update.{Atomic}

-- The tables are as at first, or the named backup alone has another deletion date, one of `dates`.
abbrev pub Stage : String → List String → Tables → Tables → Type 0
Stage name dates before now =
    (now ≡ before)
    ⊎ ((date : String) × Contains date dates × (now ≡ perform (set_date_deleted name date) before))

-- The rows of the named backup have the date: setting it again changes nothing.
abbrev pub HasDate : String → String → Tables → Type 0
HasDate name date now = perform (set_date_deleted name date) now ≡ now

pub Stage-update :
    (before now next : Tables) (name : String) (dates : List String) (date : String)
    (r : Result (Unit {0}))
    → Contains date dates
    → Atomic (set_date_deleted name date) now next r
    → Stage name dates before now
    → Stage name dates before next
Stage-update before now next name dates date (ok u) c at (inl e) =
    inr (date, c, at ∙ ap (perform (set_date_deleted name date)) e)
Stage-update before now next name dates date (ok u) c at (inr (d, k, e)) =
    inr
      (date, c, at ∙ ap (perform (set_date_deleted name date)) e ∙ perform_twice name date d before)
Stage-update before now next name dates date (err x) c at (inl e) = inl (at ∙ e)
Stage-update before now next name dates date (err x) c at (inr (d, k, e)) = inr (d, k, at ∙ e)
Stage-update before now next name dates date (panic p) c at (inl e) = inl (at ∙ e)
Stage-update before now next name dates date (panic p) c at (inr (d, k, e)) = inr (d, k, at ∙ e)

-- After a successful update to a date, any earlier stage has become that date.
pub Stage-HasDate :
    (before now : Tables) (name date : String) (dates : List String)
    → Stage name dates before now
    → HasDate name date now
    → now ≡ perform (set_date_deleted name date) before
Stage-HasDate before now name date dates (inl e) h =
    sym h ∙ ap (perform (set_date_deleted name date)) e
Stage-HasDate before now name date dates (inr (d, _, e)) h =
    sym h ∙ ap (perform (set_date_deleted name date)) e ∙ perform_twice name date d before
