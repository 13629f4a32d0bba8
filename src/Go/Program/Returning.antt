-- ===== src/Go/Program/Returning.antt =====
-- What is known of a program that returned.
use gpbackman.Base.{◌≡◌, refl, inl, inr}
use gpbackman.Go.Program.{Outcome, returned, exit, crash, Program, go_on, ◌>>=◌}
use gpbackman.Go.Program.Deciding.{Decides}

module _ {ℓ κ} {W : Type 0} {A : Type ℓ} {B : Type κ} (m : Program W A) (f : A → Program W B)
    (w : W) where
  go_on_returned :
      (o : Outcome A) (v : W) (b : B)
      → (go_on o f v).0 ≡ returned b
      → (a : A) × ((o ≡ returned a) × ((f a v).0 ≡ returned b))
  go_on_returned (returned a) v b e = (a, (refl, e))
  go_on_returned (exit code) v b e = absurd (cc)
  go_on_returned (crash p) v b e = absurd (cc)

  -- A block that returned has gone through its first call, which returned too.
  pub bind_returned :
      (b : B)
      → ((m >>= f) w).0 ≡ returned b
      → (a : A) × (((m w).0 ≡ returned a) × ((f a (m w).1).0 ≡ returned b))
  unfolding ◌>>=◌
  bind_returned b e = go_on_returned (m w).0 (m w).1 b e

-- A check that returned has found its condition.
pub Decides_returned {κ} :
    {W : Type 0} {Q : W → Type κ} (m : Program W (Unit {0}))
    → Decides Q m
    → (w : W) → (m w).0 ≡ returned tt
    → Q w
Decides_returned m d w e = elim (d.at w) [ inl (q, s) ↦ q | inr (q, s) ↦ absurd (cc) ]
