-- ===== src/Go/Exec/Steps.antt =====
-- What a block does, by what its first action returned.
use gpbackman.Base.{refl, ◌≡◌, ◌∙◌, ap, String}
use gpbackman.Go.Result.{Result, Error, ok, err, panic}
use gpbackman.Go.Exec.{Exec, pure, raise, continue, ◌>>=◌, settle, report, on_error}

module _ {ℓ κ} {W : Type 0} {A : Type ℓ} {B : Type κ} (m : Exec W A) (f : A → Exec W B)
    (w : W) where
  pub bind_ok : {a : A} → (m w).0 ≡ ok a → (m >>= f) w ≡ f a (m w).1
  unfolding ◌>>=◌
  bind_ok e = ap (λ r. continue r f (m w).1) e

  pub bind_err : {x : Error} → (m w).0 ≡ err x → (m >>= f) w ≡ (err x, (m w).1)
  unfolding ◌>>=◌
  bind_err e = ap (λ r. continue r f (m w).1) e

  pub bind_panic : {p : String} → (m w).0 ≡ panic p → (m >>= f) w ≡ (panic p, (m w).1)
  unfolding ◌>>=◌
  bind_panic e = ap (λ r. continue r f (m w).1) e

  continue_value :
      (r : Result A) (v : W) (b : B)
      → (continue r f v).0 ≡ ok b
      → (a : A) × ((r ≡ ok a) × ((f a v).0 ≡ ok b))
  continue_value (ok a) v b e = (a, (refl, e))
  continue_value (err x) v b e = absurd (cc)
  continue_value (panic p) v b e = absurd (cc)

  -- A block that returns a value has gone through its first action, which returned one too.
  pub bind_value :
      (b : B) → ((m >>= f) w).0 ≡ ok b → (a : A) × (((m w).0 ≡ ok a) × ((f a (m w).1).0 ≡ ok b))
  unfolding ◌>>=◌
  bind_value b e = continue_value (m w).0 (m w).1 b e

module _ {ℓ} {W : Type 0} {A : Type ℓ} (m : Exec W A) (h : Error → Exec W (Unit {0})) (w : W) where
  pub on_error_ok : {a : A} → (m w).0 ≡ ok a → on_error m h w ≡ (ok a, (m w).1)
  unfolding on_error
  on_error_ok e = ap (λ r. continue (settle r) (λ t. report t h) (m w).1) e

  pub on_error_err : {x : Error} → (m w).0 ≡ err x → on_error m h w ≡ (h x >>= λ _. raise x) (m w).1
  unfolding on_error
  on_error_err e = ap (λ r. continue (settle r) (λ t. report t h) (m w).1) e

  pub on_error_panic : {p : String} → (m w).0 ≡ panic p → on_error m h w ≡ (panic p, (m w).1)
  unfolding on_error
  on_error_panic e = ap (λ r. continue (settle r) (λ t. report t h) (m w).1) e

module _ {ℓ κ μ} {W : Type 0} {A : Type ℓ} {B : Type κ} (Q : W → Type μ) (f : A → Exec W B) where
  continue_at :
      (r : Result A) (v : W) → Q v → ((a : A) → r ≡ ok a → Q (f a v).1) → Q (continue r f v).1
  continue_at (ok a) v q h = h a refl
  continue_at (err x) v q h = q
  continue_at (panic p) v q h = q

  -- What holds behind the first action and behind the rest, where that is reached, holds behind the
  -- block.
  pub bind_at :
      (m : Exec W A) (w : W)
      → Q (m w).1
      → ((a : A) → (m w).0 ≡ ok a → Q (f a (m w).1).1)
      → Q ((m >>= f) w).1
  unfolding ◌>>=◌
  bind_at m w q h = continue_at (m w).0 (m w).1 q h

module _ {ℓ} {W : Type 0} {A : Type ℓ} where
  pub pure_value : (a b : A) (w : W) → (pure a w).0 ≡ ok b → a ≡ b
  unfolding pure
  pure_value a b w e = cc

module _ {ℓ κ} {W : Type 0} {A : Type ℓ} {B : Type κ} (m : Exec W A) (h : Error → Exec W (Unit {0}))
    (f : A → Exec W B) (w : W) where
  -- A reported call that returns is passed on as the call itself.
  pub on_error_then : {a : A} → (m w).0 ≡ ok a → (on_error m h >>= f) w ≡ f a (m w).1
  on_error_then {a} e =
      let out = on_error_ok m h w e in
      bind_ok (on_error m h) f w (ap (λ o. o.0) out) ∙ ap (λ o. f a o.1) out

  pub on_error_then_panic :
      {p : String} → (m w).0 ≡ panic p → (on_error m h >>= f) w ≡ (panic p, (m w).1)
  on_error_then_panic {p} e =
      let out = on_error_panic m h w e in
      bind_panic (on_error m h) f w (ap (λ o. o.0) out)
      ∙ ap (λ (o : Result A × W). (panic p, o.1)) out
