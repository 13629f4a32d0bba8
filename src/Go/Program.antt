-- ===== src/Go/Program.antt =====
-- Code that may end the whole program: `os.Exit` gives the exit code, and nothing after it runs.
pub mod Deciding
pub mod Returning
use gpbackman.Base.{ℕ, String, Bool, true, false, if◌then◌else◌, List, [], ◌∷◌}
use gpbackman.Go.Result.{Error, Result, ok, err, panic}

pub data Outcome {ℓ} (A : Type ℓ) : Type ℓ where
  returned : A → Outcome A
  exit : ℕ → Outcome A
  crash : String → Outcome A

abbrev pub Program {ℓ} : Type 0 → Type ℓ → Type ℓ
Program W A = W → Outcome A × W

module _ {ℓ} {W : Type 0} {A : Type ℓ} where
  pub give : A → Program W A
  give a w = (returned a, w)

  -- os.Exit(code)
  pub os_exit : ℕ → Program W A
  os_exit code w = (exit code, w)

  -- A panic, which ends the program too.
  pub crashed : String → Program W A
  crashed p w = (crash p, w)

module _ {ℓ κ} {W : Type 0} {A : Type ℓ} {B : Type κ} where
  abbrev pub go_on : Outcome A → (A → Program W B) → Program W B
  go_on (returned a) f w = f a w
  go_on (exit code) f w = (exit code, w)
  go_on (crash p) f w = (crash p, w)

  infixl 10 ◌>>=◌ ◌>>◌
  -- Opening this opens `give` and `os_exit` too.
  unfoldable pub ◌>>=◌ : Program W A → (A → Program W B) → Program W B
  unfolding give os_exit
  ◌>>=◌ m f w = let (o, w') = m w in go_on o f w'

  abbrev pub ◌>>◌ : Program W A → Program W B → Program W B
  m >> n = m >>= λ _. n

module _ {W : Type 0} where
  -- `if test { body }`
  unfoldable pub when : Bool → Program W (Unit {0}) → Program W (Unit {0})
  when test body = if test then body else give tt

  abbrev pub failing : Result (Unit {0}) → (Error → Program W (Unit {0})) → Program W (Unit {0})
  failing (ok u) handler = give tt
  failing (err e) handler = handler e
  failing (panic p) handler = crashed p

  -- `err = call(); if err != nil { handler }`, for a call that reads the world and does not change it
  unfoldable pub check :
      (W → Result (Unit {0})) → (Error → Program W (Unit {0})) → Program W (Unit {0})
  check call handler w = failing (call w) handler w

  -- `for _, item := range list { body }`
  unfoldable pub for_each {ℓ} :
      {A : Type ℓ} → List A → (A → Program W (Unit {0})) → Program W (Unit {0})
  unfolding ◌>>=◌
  for_each [] body = give tt
  for_each (item ∷ list) body = body item >> for_each list body
