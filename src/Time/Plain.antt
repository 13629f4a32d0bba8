-- ===== src/Time/Plain.antt =====
-- The bytes of a time at the layout of timestamps.
use gpbackman.Base.{
  ℕ, ◌/◌, ◌%◌, ◌<◌, ◌≡◌, refl, ◌≢◌, String, true, not, arith, nat_eq, codes, All, all_below,
  all_below_sound,
}
use Prim.Native.Char.{code}
use gpbackman.Time.{Time, digit_char}
use gpbackman.Time.Format.{two_digits, format_layout}
use gpbackman.Time.RoundTrip.{IsValid, days_in-le}

quote_table : all_below 10 (λ d. not (nat_eq (code (digit_char d)) 39)) ≡ true
unfolding all_below
quote_table = refl

digit_plain : (d : ℕ) → d < 10 → code (digit_char d) ≢ 39
digit_plain d h = ground (arith, all_below_sound 10 _ d quote_table h)

abbrev IsPlain : String → Type 0
IsPlain s = All (λ c. c ≢ 39) (codes s)

two_digits-IsPlain : (n : ℕ) (rest : String) → n < 100 → IsPlain rest → IsPlain (two_digits n rest)
two_digits-IsPlain n rest h k =
    (digit_plain (n / 10) (omega arith), (digit_plain (n % 10) (omega arith), k))

-- It holds no quote.
pub format_layout_plain : (t : Time) → IsValid t → All (λ c. c ≢ 39) (codes (format_layout t))
unfolding format_layout
format_layout_plain t v =
    let s5 = two_digits t.second "" in
    let s4 = two_digits t.minute s5 in
    let s3 = two_digits t.hour s4 in
    let s2 = two_digits t.day s3 in
    let s1 = two_digits t.month s2 in
    let s0 = two_digits (t.year % 100) s1 in
    two_digits-IsPlain (t.year / 100) s0 (omega arith) (
      two_digits-IsPlain (t.year % 100) s1 (omega arith) (
        two_digits-IsPlain t.month s2 (omega arith) (
          two_digits-IsPlain t.day s3 (omega (arith, days_in-le t.month t.year)) (
            two_digits-IsPlain t.hour s4 (omega arith) (
              two_digits-IsPlain t.minute s5 (omega arith)
                (two_digits-IsPlain t.second "" (omega arith) tt))))))
