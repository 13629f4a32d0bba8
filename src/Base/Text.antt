-- ===== src/Base/Text.antt =====
-- Texts: the bytes of a Go string as numbers, `strings.Join`, and `fmt.Sprintf` with `%s`.
use Prim.Native.Nat.{ℕ}
use Prim.Native.Char.{code}
use Prim.Native.String.{String, ◌++◌ as ◌<>◌}
use mathlib.Core.Bool.{Bool, true, false, ◌||◌}
use mathlib.Core.List.{List, [], ◌∷◌, ◌++◌}
use gpbackman.Base.Tests.{nat_eq}
use text.Mathlib.Text.{◌==◌}

-- The code points of a text: its bytes, where it is ASCII.
abbrev pub codes : String → List ℕ
codes String.[] = []
codes (String.◌∷◌ c s) = code c ∷ codes s

-- strings.Join(list, sep)
abbrev pub join : List String → String → String
join [] sep = ""
join (s ∷ []) sep = s
join (s ∷ t ∷ rest) sep = s <> (sep <> join (t ∷ rest) sep)

-- The test `item == a || item == b || ...` of a Go `switch` with several values.
abbrev pub contains : List String → String → Bool
contains [] s = false
contains (x ∷ xs) s = s == x || contains xs s

sprintf_from : Bool → String → List (List ℕ) → List ℕ
sprintf_from after_percent String.[] args = []
sprintf_from false (String.◌∷◌ c format) args = elim (nat_eq (code c) b'%') [
  | true ↦ sprintf_from true format args
  | false ↦ code c ∷ sprintf_from false format args
]
sprintf_from true (String.◌∷◌ c format) [] = codes "%!s(MISSING)" ++ sprintf_from false format []
sprintf_from true (String.◌∷◌ c format) (a ∷ args) = a ++ sprintf_from false format args

-- fmt.Sprintf for formats whose only verb is `%s`, giving the bytes.
unfoldable pub sprintf : String → List (List ℕ) → List ℕ
unfolding sprintf_from
sprintf format args = sprintf_from false format args

-- strings.Join(list, sep), giving the bytes.
abbrev pub join_codes : List String → String → List ℕ
join_codes [] sep = []
join_codes (s ∷ []) sep = codes s
join_codes (s ∷ t ∷ rest) sep = codes s ++ (codes sep ++ join_codes (t ∷ rest) sep)
