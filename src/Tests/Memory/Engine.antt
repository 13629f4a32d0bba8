-- ===== src/Tests/Memory/Engine.antt =====
-- A small engine for the host in memory: it answers the queries and does the statements that it
-- knows, found by their tokens, and refuses all others.
use gpbackman.Base.{
  map, ◌≡◌, refl, sym, ◌∙◌, ap, String, Bool, true, false, ◌&&◌, List, [], ◌∷◌, Option, none, some,
  nat_eq, codes_eq, codes_eq_sound, arith, if◌then◌else◌, Bool-cases, inl, inr,
}
use gpbackman.Go.Result.{Error, error_new, Result, ok, err}
use gpbackman.Config.Convert.{HistoryBackupConfig}
use gpbackman.Sql.{Select, select_tokens, Token, word, text, symbol, Statement, statement_tokens}
use gpbackman.Sql.Unique.{select_tokens_inj, statement_tokens_inj}
use gpbackman.Sql.Meaning.{answer, Tables, perform}
use gpbackman.Host.{Cursor}

token_eq : Token → Token → Bool
token_eq (word a) (word b) = codes_eq a b
token_eq (text a) (text b) = codes_eq a b
token_eq (symbol a) (symbol b) = nat_eq a b
token_eq _ _ = false

token_eq_sound : (a b : Token) → token_eq a b ≡ true → a ≡ b
unfolding token_eq
token_eq_sound (word a) (word b) h = ap word (codes_eq_sound a b h)
token_eq_sound (text a) (text b) h = ap text (codes_eq_sound a b h)
token_eq_sound (symbol a) (symbol b) h = ground arith
token_eq_sound a b h = absurd (ground arith)

tokens_eq : List Token → List Token → Bool
unfolding token_eq
tokens_eq [] [] = true
tokens_eq (a ∷ as') (b ∷ bs) = token_eq a b && tokens_eq as' bs
tokens_eq _ _ = false

tokens_eq_sound : (a b : List Token) → tokens_eq a b ≡ true → a ≡ b
unfolding tokens_eq
tokens_eq_sound [] [] h = refl
tokens_eq_sound (a ∷ as') (b ∷ bs) h =
    let p = token_eq_sound a b in let q = tokens_eq_sound as' bs in ground (arith, p, q)
tokens_eq_sound a b h = absurd (ground arith)

module _ {A : Type 0} (tokens_of : A → List Token) where
  -- The first of the known ones that has the tokens.
  find_known : List A → List Token → Option A
  unfolding tokens_eq
  find_known [] ts = none
  find_known (a ∷ known) ts =
      let rest = find_known known ts in if tokens_eq ts (tokens_of a) then some a else rest

  find_known_sound :
      (known : List A) (ts : List Token) (a : A) → find_known known ts ≡ some a → ts ≡ tokens_of a
  unfolding find_known
  find_known_sound [] ts a h = absurd (ground arith)
  find_known_sound (b ∷ known) ts a h = elim (Bool-cases (tokens_eq ts (tokens_of b))) [
    | inl e ↦
        let q : some b ≡ some a = sym (rw e refl) ∙ h in
        let p : b ≡ a = cc in tokens_eq_sound ts (tokens_of b) e ∙ ap tokens_of p
    | inr e ↦ find_known_sound known ts a (sym (rw e refl) ∙ h)
  ]

pub record Store : Type 0 where
  pub committed : Tables
  pub working : Tables
  pub stored : List HistoryBackupConfig
  pub printed : List String
  pub renamed : List (String × String)

abbrev pub unknown : Error
unknown = error_new "unknown to this host"

execute : Option Statement → Store → Result (Unit {0}) × Store
execute none w = (err unknown, w)
execute (some s) w = (ok tt, record w { working = perform s w.working })

run_query : Option Select → Store → Result Cursor × Store
run_query none w = (err unknown, w)
run_query (some s) w =
    (ok (record { rows = map (λ x. ok x) (answer s w.committed); final_error = none }), w)

map_ok_inj : (l m : List String) → map (λ x. ok x) l ≡ map (λ x. ok x) m → l ≡ m
map_ok_inj [] [] h = refl
map_ok_inj [] (y ∷ m) h = ground arith
map_ok_inj (x ∷ l) [] h = ground arith
map_ok_inj (x ∷ l) (y ∷ m) h =
    let rest : map (λ x. ok x) l ≡ map (λ x. ok x) m = cc in
    let first : x ≡ y = cc in let e = map_ok_inj l m rest in cc

execute_found_acts :
    (p : Option Statement) (s : Statement) (w : Store)
    → ((t : Statement) → p ≡ some t → t ≡ s)
    → (execute p w).0 ≡ ok tt
    → (execute p w).1.working ≡ perform s w.working
unfolding execute
execute_found_acts none s w f e = ground arith
execute_found_acts (some t) s w f e = ap (λ u. perform u w.working) (f t refl)

execute_found_keeps : (p : Option Statement) (w : Store) → (execute p w).1.committed ≡ w.committed
unfolding execute
execute_found_keeps none w = refl
execute_found_keeps (some s) w = refl

query_found_reads :
    (p : Option Select) (s : Select) (l : List String) (w : Store)
    → ((t : Select) → p ≡ some t → t ≡ s)
    → (run_query p w).0 ≡ ok (record { rows = map (λ x. ok x) l; final_error = none })
    → l ≡ answer s w.committed
unfolding run_query
query_found_reads none s l w f h = ground arith
query_found_reads (some t) s l w f h =
    let e : map (λ x. ok x) (answer t w.committed) ≡ map (λ x. ok x) l = cc in
    sym (map_ok_inj (answer t w.committed) l e) ∙ ap (λ u. answer u w.committed) (f t refl)

query_found_keeps : (p : Option Select) (w : Store) → (run_query p w).1.committed ≡ w.committed
unfolding run_query
query_found_keeps none w = refl
query_found_keeps (some s) w = refl

-- The engine, on the tokens of a text.
unfoldable pub do_statement : List Statement → List Token → Store → Result (Unit {0}) × Store
unfolding find_known execute
do_statement known ts w = execute (find_known statement_tokens known ts) w

unfoldable pub do_query : List Select → List Token → Store → Result Cursor × Store
unfolding find_known run_query
do_query known ts w = run_query (find_known select_tokens known ts) w

pub do_statement_acts :
    (known : List Statement) (ts : List Token) (s : Statement) (w : Store)
    → ts ≡ statement_tokens s
    → (do_statement known ts w).0 ≡ ok tt
    → (do_statement known ts w).1.working ≡ perform s w.working
unfolding do_statement
do_statement_acts known ts s w l e =
    execute_found_acts (find_known statement_tokens known ts) s w
      (λ t f. statement_tokens_inj t s (sym (find_known_sound statement_tokens known ts t f) ∙ l)) e

pub do_statement_keeps :
    (known : List Statement) (ts : List Token) (w : Store)
    → (do_statement known ts w).1.committed ≡ w.committed
unfolding do_statement
do_statement_keeps known ts w = execute_found_keeps (find_known statement_tokens known ts) w

pub do_query_reads :
    (known : List Select) (ts : List Token) (s : Select) (l : List String) (w : Store)
    → ts ≡ select_tokens s
    → (do_query known ts w).0 ≡ ok (record { rows = map (λ x. ok x) l; final_error = none })
    → l ≡ answer s w.committed
unfolding do_query
do_query_reads known ts s l w t e =
    query_found_reads (find_known select_tokens known ts) s l w
      (λ u f. select_tokens_inj u s (sym (find_known_sound select_tokens known ts u f) ∙ t)) e

pub do_query_keeps :
    (known : List Select) (ts : List Token) (w : Store)
    → (do_query known ts w).1.committed ≡ w.committed
unfolding do_query
do_query_keeps known ts w = query_found_keeps (find_known select_tokens known ts) w
