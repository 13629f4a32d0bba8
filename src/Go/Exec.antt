-- ===== src/Go/Exec.antt =====
-- Functions that act on the world outside and may fail. What was done before an error stays done,
-- so the state comes back beside the error too.
pub mod Rules
pub mod Steps
use gpbackman.Base.{Bool, true, false}
use gpbackman.Go.Result.{Error, Result, ok, err, panic, Try, done, failed}

abbrev pub Exec {ℓ} : Type 0 → Type ℓ → Type ℓ
Exec W A = W → Result A × W

module _ {ℓ} {W : Type 0} {A : Type ℓ} where
  pub pure : A → Exec W A
  pure a w = (ok a, w)

  -- `return err`
  pub raise : Error → Exec W A
  raise e w = (err e, w)

  -- A call that computes, and does not act.
  pub lift : Result A → Exec W A
  lift r w = (r, w)

module _ {ℓ κ} {W : Type 0} {A : Type ℓ} {B : Type κ} where
  abbrev pub continue : Result A → (A → Exec W B) → Exec W B
  continue (ok a) f w = f a w
  continue (err e) f w = (err e, w)
  continue (panic p) f w = (panic p, w)

  infixl 10 ◌>>=◌ ◌>>◌
  -- Opening this opens `pure`, `raise` and `lift` too.
  unfoldable pub ◌>>=◌ : Exec W A → (A → Exec W B) → Exec W B
  unfolding pure raise lift
  ◌>>=◌ m f w = let (r, w') = m w in continue r f w'

  abbrev pub ◌>>◌ : Exec W A → Exec W B → Exec W B
  m >> n = m >>= λ _. n

abbrev pub settle {ℓ} : {A : Type ℓ} → Result A → Result (Try A)
settle (ok a) = ok (done a)
settle (err e) = ok (failed e)
settle (panic p) = panic p

module _ {ℓ} {W : Type 0} {A : Type ℓ} where
  -- Run a call and look at its error. A panic goes on.
  unfoldable pub attempt : Exec W A → Exec W (Try A)
  attempt m w = let (r, w') = m w in (settle r, w')

  abbrev pub report : Try A → (Error → Exec W (Unit {0})) → Exec W A
  report (done a) h = pure a
  report (failed e) h = h e >> raise e

  -- `if err != nil { handler; return err }`
  unfoldable pub on_error : Exec W A → (Error → Exec W (Unit {0})) → Exec W A
  unfolding attempt ◌>>=◌
  on_error m h = attempt m >>= λ t. report t h

  abbrev pub report_ignoring : Bool → A → Try A → (Error → Exec W (Unit {0})) → Exec W A
  report_ignoring ignore zero_value (done a) h = pure a
  report_ignoring true zero_value (failed e) h = h e >> pure zero_value
  report_ignoring false zero_value (failed e) h = h e >> raise e

  -- `if err != nil { handler; if !ignoreErrors { return err } }`: ignoring an error, the caller
  -- goes on with the zero value.
  unfoldable pub on_error_ignoring : Bool → A → Exec W A → (Error → Exec W (Unit {0})) → Exec W A
  unfolding attempt ◌>>=◌
  on_error_ignoring ignore zero_value m h = attempt m >>= λ t. report_ignoring ignore zero_value t h
