-- ===== src/Config/Validate/Laws.antt =====
-- Which texts are timestamps and table names.
use Prim.Native.Char.{code}
use Prim.Native.String.{len, slice}
use Prim.Native.String.len
use text.Mathlib.TextPositions.{len_utf8-pos}
use gpbackman.Base.{
  ℕ, zero, suc, ◌≤◌, ◌≡◌, ◌≢◌, refl, ap, ◌↔◌, String, true, false, List, [], ◌∷◌, ◌++◌, All, length,
  codes, arith, inl, inr, Bool-cases, nat_eq, ltb,
}
use gpbackman.Go.Result.{ok}
use gpbackman.Sql.Lexer.{QuoteFree}
use gpbackman.Time.{is_digit}
use gpbackman.Config.Validate.{
  digits_only, check_timestamp, check_table_fqn, is_fqn, one_line, some_text, dot_then_more,
}
use gpbackman.Paths.{first_eight}

abbrev pub AreDigits : List ℕ → Type 0
AreDigits cs = All (λ c. (48 ≤ c) × (c ≤ 57)) cs

-- A text of as many digits as timestamps have.
abbrev pub IsTimestamp : String → Type 0
IsTimestamp s = (length (codes s) ≡ 14) × AreDigits (codes s)

digits_only_iff :
    (n : ℕ) (s : String) → (digits_only n s ≡ true) ↔ ((length (codes s) ≡ n) × AreDigits (codes s))
unfolding digits_only is_digit
digits_only_iff zero String.[] = (λ h. (refl, tt), λ h. refl)
digits_only_iff zero (String.◌∷◌ c s) = (λ h. absurd (cc), λ h. absurd (omega (arith, h.0)))
digits_only_iff (suc n) String.[] = (λ h. absurd (cc), λ h. absurd (omega (arith, h.0)))
digits_only_iff (suc n) (String.◌∷◌ c s) = ground (arith, digits_only_iff n s)

pub check_timestamp_iff : (s : String) → (check_timestamp s ≡ ok tt) ↔ IsTimestamp s
unfolding check_timestamp
check_timestamp_iff s = ground (arith, digits_only_iff 14 s)

digits_plain : (cs : List ℕ) → AreDigits cs → All (λ c. c ≢ 39) cs
digits_plain [] d = tt
digits_plain (c ∷ cs) (d, ds) = (ground (arith, d), digits_plain cs ds)

-- A text is at least as long in bytes as in characters.
length-codes-len : (s : String) → length (codes s) ≤ len s
length-codes-len String.[] = omega arith
length-codes-len (String.◌∷◌ c s) =
    let (k, wide) = len_utf8-pos c in omega (arith, wide, len.cons c s, length-codes-len s)

-- A dot with something on both sides, on one line.
abbrev pub IsFqn : String → Type 0
IsFqn s =
    All (λ c. c ≢ 10) (codes s)
    × ((x : ℕ) × (a : List ℕ) × (y : ℕ) × (b : List ℕ) × (codes s ≡ x ∷ (a ++ (b'.' ∷ y ∷ b))))

one_line_iff : (s : String) → (one_line s ≡ true) ↔ All (λ c. c ≢ 10) (codes s)
unfolding one_line
one_line_iff String.[] = (λ h. tt, λ h. refl)
one_line_iff (String.◌∷◌ c s) = ground (arith, one_line_iff s)

abbrev HasDot : List ℕ → Type 0
HasDot cs = (a : List ℕ) × (y : ℕ) × (b : List ℕ) × (cs ≡ a ++ (b'.' ∷ y ∷ b))

HasDot-tail : (c : ℕ) (cs : List ℕ) → c ≢ b'.' → HasDot (c ∷ cs) → HasDot cs
HasDot-tail c cs n ([], y, b, e) = absurd (n (cc))
HasDot-tail c cs n (x ∷ a, y, b, e) = let t : cs ≡ a ++ (b'.' ∷ y ∷ b) = cc in (a, y, b, t)

HasDot-some : (c : ℕ) (s : String) → HasDot (c ∷ codes s) → some_text s ≡ true
HasDot-some c String.[] ([], y, b, e) = absurd (cc)
HasDot-some c String.[] (x ∷ [], y, b, e) = absurd (cc)
HasDot-some c String.[] (x ∷ z ∷ a, y, b, e) = absurd (cc)
HasDot-some c (String.◌∷◌ d s) h = refl

dot_sound : (s : String) → dot_then_more s ≡ true → HasDot (codes s)
unfolding dot_then_more
dot_sound String.[] h = absurd (cc)
dot_sound (String.◌∷◌ c String.[]) h = absurd (ground arith)
dot_sound (String.◌∷◌ c (String.◌∷◌ d s)) h = elim (Bool-cases (nat_eq (code c) b'.')) [
  | inl e ↦
      let here : code c ≡ b'.' = ground arith in
      ([], code d, codes s, ap (λ x. x ∷ code d ∷ codes s) here)
  | inr e ↦
      let (a, y, b, t) = dot_sound (String.◌∷◌ d s) (ground arith) in
      (code c ∷ a, y, b, ap (λ cs. code c ∷ cs) t)
]

dot_complete : (s : String) → HasDot (codes s) → dot_then_more s ≡ true
unfolding dot_then_more
dot_complete String.[] ([], y, b, e) = absurd (cc)
dot_complete String.[] (x ∷ a, y, b, e) = absurd (cc)
dot_complete (String.◌∷◌ c s) h = elim (Bool-cases (nat_eq (code c) b'.')) [
  | inl e ↦ rw e (HasDot-some (code c) s h)
  | inr e ↦ rw e (dot_complete s (HasDot-tail (code c) (codes s) (ground arith) h))
]

is_fqn_iff : (s : String) → (is_fqn s ≡ true) ↔ IsFqn s
unfolding is_fqn
is_fqn_iff String.[] =
    (λ h. absurd (cc), λ h. let (line, rest) = h in let (x, a, y, b, e) = rest in absurd (cc))
is_fqn_iff (String.◌∷◌ c s) = (
  λ h.
      let line : one_line (String.◌∷◌ c s) ≡ true = ground arith in
      let dot : dot_then_more s ≡ true = ground arith in
      let (a, y, b, e) = dot_sound s dot in
      ((one_line_iff (String.◌∷◌ c s)).0 line, (code c, a, y, b, ap (λ cs. code c ∷ cs) e)),
  λ h.
      let (line, rest) = h in
      let (x, a, y, b, e) = rest in
      let t : codes s ≡ a ++ (b'.' ∷ y ∷ b) = cc in
      rw ((one_line_iff (String.◌∷◌ c s)).1 line) (dot_complete s (a, y, b, t)),
)

-- A table name passes exactly if it is one line with a dot that has something on both sides.
pub check_table_fqn_iff : (s : String) → (check_table_fqn s ≡ ok tt) ↔ IsFqn s
unfolding check_table_fqn
check_table_fqn_iff s = ground (arith, is_fqn_iff s)

-- A text that passes the check of timestamps holds no quote, so that it cannot end the text of an
-- SQL value, and its first eight characters can be cut off without a panic.
pub check_timestamp-safe :
    (s : String)
    → check_timestamp s ≡ ok tt
    → QuoteFree s × ((day : String) × (first_eight s ≡ ok day))
unfolding first_eight
check_timestamp-safe s h =
    let (long, d) = (check_timestamp_iff s).0 h in
    let fits : ltb (len s) 8 ≡ false = ground (arith, length-codes-len s, long) in
    (digits_plain (codes s) d, (slice s 0 8, rw fits refl))
