-- ===== src/Db/Queries/Deleting.antt =====
-- The DELETE statements of CleanBackupsDB, as tokens.
use mathlib.Core.List.{append_assoc}
use gpbackman.Base.{ℕ, ◌≡◌, refl, ◌∙◌, ap, String, List, [], ◌∷◌, ◌++◌, codes, join_codes, All}
use gpbackman.Sql.{Token, delete, statement_tokens, value_tokens, kw, symbol}
use gpbackman.Sql.Lexer.{lex, lex_from, in_text, QuoteFree, lex-value, lex-value_then}
use gpbackman.Db.Queries.{delete_backups_form_table_query}
use gpbackman.Db.Clean.{id_str}

-- The tables that CleanBackupsDB deletes from.
pub data Table : Type 0 where
  backups : Table
  restore_plans : Table
  restore_plan_tables : Table
  exclude_relations : Table
  exclude_schemas : Table
  include_relations : Table
  include_schemas : Table

abbrev pub table_name : Table → String
table_name backups = "backups"
table_name restore_plans = "restore_plans"
table_name restore_plan_tables = "restore_plan_tables"
table_name exclude_relations = "exclude_relations"
table_name exclude_schemas = "exclude_schemas"
table_name include_relations = "include_relations"
table_name include_schemas = "include_schemas"

-- The values behind the first quote.
lex-values :
    (id : String) (ids : List String)
    → All QuoteFree (id ∷ ids)
    → lex_from (in_text []) (join_codes (id ∷ ids) "','" ++ (39 ∷ codes ");"))
      ≡ value_tokens (id ∷ ids) (symbol b')' ∷ symbol b';' ∷ [])
unfolding lex_from
lex-values id [] (h, _) = lex-value id (codes ");") h refl
lex-values id (next ∷ ids) (h, hs) =
    ap (lex_from (in_text []))
      (append_assoc (codes id) (codes "','" ++ join_codes (next ∷ ids) "','") (39 ∷ codes ");"))
    ∙ lex-value_then id (codes ",'" ++ (join_codes (next ∷ ids) "','" ++ (39 ∷ codes ");"))) h refl
        (ap (λ l. symbol b',' ∷ l) (lex-values next ids hs))

lex-id_str :
    (id : String) (ids : List String)
    → All QuoteFree (id ∷ ids)
    → lex_from (in_text []) ((join_codes (id ∷ ids) "','" ++ codes "'") ++ codes ");")
      ≡ value_tokens (id ∷ ids) (symbol b')' ∷ symbol b';' ∷ [])
lex-id_str id ids h =
    ap (lex_from (in_text [])) (append_assoc (join_codes (id ∷ ids) "','") (codes "'") (codes ");"))
    ∙ lex-values id ids h

abbrev delete_from_table : Table → List Token → List Token
delete_from_table t rest =
    kw "DELETE"
    ∷ kw "FROM"
    ∷ kw (table_name t)
    ∷ kw "WHERE"
    ∷ kw "timestamp"
    ∷ kw "IN"
    ∷ symbol b'('
    ∷ rest

-- The text after the first quote.
abbrev ids_text : String → List String → List ℕ
ids_text id ids = (join_codes (id ∷ ids) "','" ++ codes "'") ++ codes ");"

prefix :
    (t : Table) (id : String) (ids : List String)
    → lex (delete_backups_form_table_query (table_name t) (id_str (id ∷ ids)))
      ≡ delete_from_table t (lex_from (in_text []) (ids_text id ids))
unfolding lex delete_backups_form_table_query id_str
prefix backups id ids = refl
prefix restore_plans id ids = refl
prefix restore_plan_tables id ids = refl
prefix exclude_relations id ids = refl
prefix exclude_schemas id ids = refl
prefix include_relations id ids = refl
prefix include_schemas id ids = refl

-- For each of the seven tables and every non-empty list of names that hold no quote the text of the
-- DELETE falls into the tokens of the statement that deletes exactly those names from that table.
pub lex-delete :
    (t : Table) (id : String) (ids : List String)
    → All QuoteFree (id ∷ ids)
    → lex (delete_backups_form_table_query (table_name t) (id_str (id ∷ ids)))
      ≡ statement_tokens (delete (table_name t) (id ∷ ids))
lex-delete t id ids h = prefix t id ids ∙ ap (delete_from_table t) (lex-id_str id ids h)
