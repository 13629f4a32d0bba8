-- ===== src/Base/Codes.antt =====
-- Texts compared by their code points.
use Prim.Native.Nat.{ℕ}
use Prim.Native.Char.{code}
use Prim.Native.String.{String}
use mathlib.Core.Path.{◌≡◌, refl}
use mathlib.Core.Bool.{Bool, true, false, ◌&&◌}
use mathlib.Core.List.{List, [], ◌∷◌}
use native.Mathlib.Omega.{arith}
use text.Mathlib.TextEquality.{Char-path}
use gpbackman.Base.Tests.{nat_eq}
use gpbackman.Base.Text.{codes}

unfoldable pub codes_eq : List ℕ → List ℕ → Bool
codes_eq [] [] = true
codes_eq [] (d ∷ ds) = false
codes_eq (c ∷ cs) [] = false
codes_eq (c ∷ cs) (d ∷ ds) = nat_eq c d && codes_eq cs ds

pub codes_eq_sound : (c d : List ℕ) → codes_eq c d ≡ true → c ≡ d
unfolding codes_eq
codes_eq_sound [] [] h = refl
codes_eq_sound [] (d ∷ ds) h = ground arith
codes_eq_sound (c ∷ cs) [] h = ground arith
codes_eq_sound (c ∷ cs) (d ∷ ds) h = ground (arith, codes_eq_sound cs ds)

pub codes_inj : (s t : String) → codes s ≡ codes t → s ≡ t
codes_inj String.[] String.[] h = refl
codes_inj String.[] (String.◌∷◌ d t) h = cc
codes_inj (String.◌∷◌ c s) String.[] h = cc
codes_inj (String.◌∷◌ c s) (String.◌∷◌ d t) h =
    let a : code c ≡ code d = cc in
    let b : codes s ≡ codes t = cc in
    let same_head = Char-path c d a in let same_tail = codes_inj s t b in cc
