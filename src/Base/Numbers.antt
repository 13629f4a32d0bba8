-- ===== src/Base/Numbers.antt =====
-- Integers, and numbers as texts: `strconv.Itoa`, and `%02d` of `fmt`.
use Prim.Native.Nat.{ℕ, zero, suc, ◌/◌, ◌%◌}
use Prim.Native.String.{String, ◌++◌ as ◌<>◌, char_at}
use mathlib.Core.Bool.{Bool, true, false}
use gpbackman.Base.Tests.{ltb, if◌then◌else◌}

pub data ℤ : Type 0 where
  pos : ℕ → ℤ
  negsuc : ℕ → ℤ

abbrev pub positive : ℤ → Bool
positive (pos zero) = false
positive (pos (suc n)) = true
positive (negsuc n) = false

-- The digits of a number in front of a text; a round for each digit, and one for each unit of the
-- number is enough.
digits : ℕ → ℕ → String → String
digits zero n rest = rest
digits (suc fuel) n rest =
    let here = String.◌∷◌ (char_at "0123456789" (n % 10)) rest in
    let more = digits fuel (n / 10) here in if ltb n 10 then here else more

unfoldable pub decimal : ℕ → String
unfolding digits
decimal n = digits (suc n) n ""

unfoldable pub itoa : ℤ → String
unfolding decimal
itoa (pos n) = decimal n
itoa (negsuc n) = "-" <> decimal (suc n)

-- Sprintf("%02d", z): zeros up to a width of two, behind a sign.
unfoldable pub padded : ℤ → String
unfolding decimal
padded (pos n) = if ltb n 10 then "0" <> decimal n else decimal n
padded (negsuc n) = "-" <> decimal (suc n)
