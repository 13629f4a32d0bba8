-- ===== src/Go/Exec/Rules.antt =====
-- Invariants and end conditions of actions, one rule for each way to build an action.
use gpbackman.Base.{◌≡◌, refl, sym, Bool, true, false, if◌then◌else◌}
use mathlib.Core.Path.{subst}
use gpbackman.Go.Result.{Error, Result, ok, err, panic, Try, done, failed}
use gpbackman.Go.Exec.{
  Exec, pure, raise, lift, continue, ◌>>=◌, attempt, settle, report, on_error, report_ignoring,
  on_error_ignoring,
}

-- `m` keeps `P`, whether it returns, fails or panics.
pub record Keeps {ℓ κ} {W : Type 0} {A : Type ℓ} (P : W → Type κ) (m : Exec W A)
    : Type (ℓ ⊔ κ) where
  pub at : (w : W) → P w → P (m w).1

module _ {ℓ κ} {W : Type 0} {A : Type ℓ} {P : W → Type κ} where
  pub Keeps-pure : (a : A) → Keeps P (pure {W = W} a)
  unfolding pure
  Keeps-pure a = record { at = λ w h. h }

  pub Keeps-lift : (r : Result A) → Keeps P (lift {W = W} r)
  unfolding lift
  Keeps-lift r = record { at = λ w h. h }

  pub Keeps-raise : (e : Error) → Keeps P (raise {W = W} {A = A} e)
  unfolding raise
  Keeps-raise e = record { at = λ w h. h }

  pub Keeps-if :
      (test : Bool) (here there : Exec W A)
      → (test ≡ true → Keeps P here)
      → (test ≡ false → Keeps P there)
      → Keeps P (if test then here else there)
  Keeps-if true here there on_true on_false = on_true refl
  Keeps-if false here there on_true on_false = on_false refl

  pub Keeps-attempt : (m : Exec W A) → Keeps P m → Keeps P (attempt m)
  unfolding attempt
  Keeps-attempt m km = record { at = λ w h. km.at w h }

module _ {ℓ μ κ} {W : Type 0} {A : Type ℓ} {B : Type μ} {P : W → Type κ} where
  Keeps-continue :
      (r : Result A) (f : A → Exec W B) (w : W)
      → ((a : A) → r ≡ ok a → Keeps P (f a))
      → P w
      → P (continue r f w).1
  Keeps-continue (ok a) f w kf h = (kf a refl).at w h
  Keeps-continue (err e) f w kf h = h
  Keeps-continue (panic p) f w kf h = h

  pub Keeps-bind :
      (first : Exec W A) (next : A → Exec W B)
      → Keeps P first
      → ((a : A) → Keeps P (next a))
      → Keeps P (first >>= next)
  unfolding ◌>>=◌
  Keeps-bind first next k rest = record {
    at = λ w h. Keeps-continue (first w).0 next (first w).1 (λ a _. rest a) (k.at w h);
  }

  -- The rest of the block may use that `result` is a value.
  pub Keeps-bind-lift :
      (result : Result A) (next : A → Exec W B)
      → ((a : A) → result ≡ ok a → Keeps P (next a))
      → Keeps P (lift result >>= next)
  unfolding ◌>>=◌
  Keeps-bind-lift result next rest = record { at = λ w h. Keeps-continue result next w rest h }

module _ {ℓ μ κ} {W : Type 0} {A : Type ℓ} {B : Type μ} {P : W → Type κ} where
  -- The rest of the block may use that its value came from the first action, in a world with `P`.
  pub Keeps-bind_from :
      (m : Exec W A) (f : A → Exec W B)
      → Keeps P m
      → ((a : A) (w : W) → P w → (m w).0 ≡ ok a → Keeps P (f a))
      → Keeps P (m >>= f)
  unfolding ◌>>=◌
  Keeps-bind_from m f km kf = record {
    at = λ w h. Keeps-continue (m w).0 f (m w).1 (λ a e. kf a w h e) (km.at w h);
  }

-- Where `m` returns without error, `Q` holds of the world that it leaves.
pub record Ends {ℓ κ} {W : Type 0} {A : Type ℓ} (Q : W → Type κ) (m : Exec W A) : Type (ℓ ⊔ κ) where
  pub at : (w : W) (a : A) → (m w).0 ≡ ok a → Q (m w).1

module _ {ℓ μ κ} {W : Type 0} {A : Type ℓ} {B : Type μ} {Q : W → Type κ} where
  Ends-continue :
      (r : Result A) (f : A → Exec W B) (w : W) (b : B)
      → ((a : A) → Ends Q (f a))
      → (continue r f w).0 ≡ ok b
      → Q (continue r f w).1
  Ends-continue (ok a) f w b ef h = (ef a).at w b h
  Ends-continue (err e) f w b ef h = absurd (cc)
  Ends-continue (panic p) f w b ef h = absurd (cc)

  -- What the last action ensures, the block ensures.
  pub Ends-bind : (m : Exec W A) (f : A → Exec W B) → ((a : A) → Ends Q (f a)) → Ends Q (m >>= f)
  unfolding ◌>>=◌
  Ends-bind m f ef = record { at = λ w b h. Ends-continue (m w).0 f (m w).1 b ef h }

  Ends-then-continue :
      (r : Result A) (f : A → Exec W B) (w : W)
      → ((a : A) → Keeps Q (f a))
      → ((a : A) → r ≡ ok a → Q w)
      → (b : B) → (continue r f w).0 ≡ ok b
      → Q (continue r f w).1
  Ends-then-continue (ok a) f w kf q b h = (kf a).at w (q a refl)
  Ends-then-continue (err e) f w kf q b h = absurd (cc)
  Ends-then-continue (panic p) f w kf q b h = absurd (cc)

  -- What the first action ensures and the rest keeps, the block ensures.
  pub Ends-then :
      (m : Exec W A) (f : A → Exec W B) → Ends Q m → ((a : A) → Keeps Q (f a)) → Ends Q (m >>= f)
  unfolding ◌>>=◌
  Ends-then m f em kf = record {
    at = λ w b h. Ends-then-continue (m w).0 f (m w).1 kf (λ a e. em.at w a e) b h;
  }

module _ {ℓ} {W : Type 0} {A : Type ℓ} where
  continue-raise :
      (r : Result (Unit {0})) (x : Error) (w : W) (b : A)
      → (continue r (λ _. raise {A = A} x) w).0 ≡ ok b
      → ⊥
  unfolding raise
  continue-raise (ok u) x w b h = cc
  continue-raise (err e) x w b h = cc
  continue-raise (panic p) x w b h = cc

  -- A call that is reported where it fails returns only what the call returned.
  on_error-eq-ok :
      (r : Result A) (h : Error → Exec W (Unit {0})) (w : W) (b : A)
      → (continue (settle r) (λ t. report t h) w).0 ≡ ok b
      → (r ≡ ok b) × ((continue (settle r) (λ t. report t h) w).1 ≡ w)
  unfolding pure ◌>>=◌
  on_error-eq-ok (ok a) h w b e = (e, refl)
  on_error-eq-ok (err x) h w b e = absurd (continue-raise (h x w).0 x (h x w).1 b e)
  on_error-eq-ok (panic p) h w b e = absurd (cc)

  -- The value of a reported call is that of the call.
  pub on_error-value :
      (m : Exec W A) (h : Error → Exec W (Unit {0})) (w : W) (a : A)
      → (on_error m h w).0 ≡ ok a
      → (m w).0 ≡ ok a
  unfolding on_error ◌>>=◌
  on_error-value m h w a e = (on_error-eq-ok (m w).0 h (m w).1 a e).0

module _ {ℓ κ} {W : Type 0} {A : Type ℓ} {Q : W → Type κ} where
  -- A call that is reported where it fails.
  pub Ends-on_error :
      (m : Exec W A) (h : Error → Exec W (Unit {0})) → Ends Q m → Ends Q (on_error m h)
  unfolding on_error
  Ends-on_error m h em = record {
    at = λ w b e.
        let back = on_error-eq-ok (m w).0 h (m w).1 b e in subst Q (sym back.1) (em.at w b back.0);
  }

module _ {ℓ κ} {W : Type 0} {A : Type ℓ} {P : W → Type κ} where
  Keeps-report :
      (h : Error → Exec W (Unit {0}))
      → ((e : Error) → Keeps P (h e))
      → (t : Try A) → Keeps P (report t h)
  Keeps-report h kh (done a) = Keeps-pure a
  Keeps-report h kh (failed e) = Keeps-bind (h e) _ (kh e) (λ _. Keeps-raise e)

  pub Keeps-on_error :
      (m : Exec W A) (h : Error → Exec W (Unit {0}))
      → Keeps P m
      → ((e : Error) → Keeps P (h e))
      → Keeps P (on_error m h)
  unfolding on_error
  Keeps-on_error m h km kh = Keeps-bind (attempt m) _ (Keeps-attempt m km) (Keeps-report h kh)

  Keeps-report_ignoring :
      (ignore : Bool) (z : A) (h : Error → Exec W (Unit {0}))
      → ((e : Error) → Keeps P (h e))
      → (t : Try A) → Keeps P (report_ignoring ignore z t h)
  Keeps-report_ignoring ignore z h kh (done a) = Keeps-pure a
  Keeps-report_ignoring true z h kh (failed e) = Keeps-bind (h e) _ (kh e) (λ _. Keeps-pure z)
  Keeps-report_ignoring false z h kh (failed e) = Keeps-bind (h e) _ (kh e) (λ _. Keeps-raise e)

  pub Keeps-on_error_ignoring :
      (ignore : Bool) (z : A) (m : Exec W A) (h : Error → Exec W (Unit {0}))
      → Keeps P m
      → ((e : Error) → Keeps P (h e))
      → Keeps P (on_error_ignoring ignore z m h)
  unfolding on_error_ignoring
  Keeps-on_error_ignoring ignore z m h km kh =
      Keeps-bind (attempt m) _ (Keeps-attempt m km) (Keeps-report_ignoring ignore z h kh)

pub ruleset keeps_rules = (
  Keeps-pure, Keeps-raise, Keeps-lift, Keeps-if, Keeps-bind, Keeps-attempt, Keeps-on_error,
  Keeps-on_error_ignoring,
)
