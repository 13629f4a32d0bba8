-- ===== src/Sql/Lexer.antt =====
-- How SQL text falls into tokens: words, quoted texts with '' for a quote, and single symbols.
use gpbackman.Base.{
  ℕ, ◌≡◌, refl, ◌≢◌, ◌∙◌, ap, Bool, false, ◌||◌, String, List, [], ◌∷◌, ◌++◌, arith, if◌then◌else◌,
  nat_eq, codes, All,
}
use mathlib.Core.List.{append_assoc, append-nil}
use gpbackman.Sql.{Token, word, text, symbol, broken}

pub data Mode : Type 0 where
  between : Mode
  in_word : List ℕ → Mode
  in_text : List ℕ → Mode
  -- A quote was read inside a text: it ends the text, unless one more quote follows.
  after_quote : List ℕ → Mode

is_space : ℕ → Bool
is_space c = nat_eq c 32 || (nat_eq c 9 || (nat_eq c 10 || nat_eq c 13))

is_symbol : ℕ → Bool
is_symbol c =
    nat_eq c b','
    || (nat_eq c b'('
        || (nat_eq c b')'
            || (nat_eq c b';'
                || (nat_eq c b'=' || (nat_eq c b'<' || (nat_eq c b'>' || nat_eq c b'!'))))))

start : ℕ → List Token × Mode
unfolding is_space is_symbol
start c =
    if is_space c
    then ([], between)
    else if nat_eq c 39
    then ([], in_text [])
    else if is_symbol c
    then (symbol c ∷ [], between)
    else ([], in_word (c ∷ []))

step : Mode → ℕ → List Token × Mode
unfolding start
step between c = start c
step (in_word w) c =
    if is_space c
    then (word w ∷ [], between)
    else if nat_eq c 39
    then (word w ∷ [], in_text [])
    else if is_symbol c
    then (word w ∷ symbol c ∷ [], between)
    else ([], in_word (w ++ (c ∷ [])))
step (in_text t) c = if nat_eq c 39 then ([], after_quote t) else ([], in_text (t ++ (c ∷ [])))
step (after_quote t) c =
    if nat_eq c 39 then ([], in_text (t ++ (39 ∷ []))) else (text t ∷ (start c).0, (start c).1)

stop : Mode → List Token
stop between = []
stop (in_word w) = word w ∷ []
stop (in_text t) = broken ∷ []
stop (after_quote t) = text t ∷ []

unfoldable pub lex_from : Mode → List ℕ → List Token
unfolding step stop
lex_from m [] = stop m
lex_from m (c ∷ s) = (step m c).0 ++ lex_from (step m c).1 s

unfoldable pub lex : List ℕ → List Token
unfolding lex_from
lex s = lex_from between s

-- A value that holds no quote.
abbrev pub QuoteFree : String → Type 0
QuoteFree s = All (λ c. c ≢ 39) (codes s)

nat_eq-false : (a b : ℕ) → a ≢ b → nat_eq a b ≡ false
nat_eq-false a b h = ground arith

lex_text-codes :
    (t cs rest : List ℕ)
    → All (λ c. c ≢ 39) cs
    → lex_from (in_text t) (cs ++ rest) ≡ lex_from (in_text (t ++ cs)) rest
unfolding lex_from
lex_text-codes t [] rest h = rw append-nil
lex_text-codes t (c ∷ cs) rest (ne, h) = rw (nat_eq-false c 39 ne) (
    lex_text-codes (t ++ (c ∷ [])) cs rest h
    ∙ ap (λ u. lex_from (in_text u) rest) (append_assoc t (c ∷ []) cs))

abbrev pub starts_quote : List ℕ → Bool
starts_quote [] = false
starts_quote (c ∷ rest) = nat_eq c 39

after_value :
    (t rest : List ℕ)
    → starts_quote rest ≡ false
    → lex_from (after_quote t) rest ≡ text t ∷ lex_from between rest
unfolding lex_from
after_value t [] h = refl
after_value t (c ∷ rest) h = rw h

-- A quoted value that holds no quote is one token, and its closing quote ends it, where the next
-- byte is no quote.
pub lex-value :
    (value : String) (rest : List ℕ)
    → QuoteFree value
    → starts_quote rest ≡ false
    → lex_from (in_text []) (codes value ++ (39 ∷ rest))
      ≡ text (codes value) ∷ lex_from between rest
unfolding lex_from
lex-value value rest h ne =
    lex_text-codes [] (codes value) (39 ∷ rest) h ∙ after_value (codes value) rest ne

pub lex-value_then :
    (value : String) (rest : List ℕ) {tokens : List Token}
    → QuoteFree value
    → starts_quote rest ≡ false
    → lex_from between rest ≡ tokens
    → lex_from (in_text []) (codes value ++ (39 ∷ rest)) ≡ text (codes value) ∷ tokens
lex-value_then value rest h ne more =
    lex-value value rest h ne ∙ ap (λ l. text (codes value) ∷ l) more
