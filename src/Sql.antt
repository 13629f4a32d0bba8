-- ===== src/Sql.antt =====
-- The part of SQL that the program's statements use: their tokens, and what they mean over tables
-- of named text columns. This is the independent description that the texts built in
-- gpbckpconfig/utils_db.go are compared with.
pub mod Lexer
pub mod Meaning
pub mod Unique
use gpbackman.Base.{ℕ, String, List, [], ◌∷◌, codes}

pub data Token : Type 0 where
  word : List ℕ → Token
  text : List ℕ → Token
  symbol : ℕ → Token
  broken : Token

-- One condition on a column; a WHERE clause is a conjunction of these.
pub data Condition : Type 0 where
  equal : String → String → Condition
  differs : String → String → Condition
  less : String → String → Condition
  greater : String → String → Condition
  one_of : String → List String → Condition
  none_of : String → List String → Condition

-- SELECT column FROM table WHERE conditions ORDER BY timestamp DESC;
pub record Select : Type 0 where
  pub column : String
  pub table : String
  pub conditions : List Condition

pub data Statement : Type 0 where
  -- DELETE FROM table WHERE timestamp IN (values);
  delete : String → List String → Statement
  -- UPDATE backups SET date_deleted = value WHERE timestamp = key;
  set_date_deleted : String → String → Statement

abbrev pub kw : String → Token
kw name = word (codes name)

abbrev pub lit : String → Token
lit value = text (codes value)

abbrev pub value_tokens : List String → List Token → List Token
value_tokens [] rest = rest
value_tokens (v ∷ []) rest = lit v ∷ rest
value_tokens (v ∷ u ∷ more) rest = lit v ∷ symbol b',' ∷ value_tokens (u ∷ more) rest

abbrev pub condition_tokens : Condition → List Token → List Token
condition_tokens (equal col v) rest = kw col ∷ symbol b'=' ∷ lit v ∷ rest
condition_tokens (differs col v) rest = kw col ∷ symbol b'!' ∷ symbol b'=' ∷ lit v ∷ rest
condition_tokens (less col v) rest = kw col ∷ symbol b'<' ∷ lit v ∷ rest
condition_tokens (greater col v) rest = kw col ∷ symbol b'>' ∷ lit v ∷ rest
condition_tokens (one_of col vs) rest =
    kw col ∷ kw "IN" ∷ symbol b'(' ∷ value_tokens vs (symbol b')' ∷ rest)
condition_tokens (none_of col vs) rest =
    kw col ∷ kw "NOT" ∷ kw "IN" ∷ symbol b'(' ∷ value_tokens vs (symbol b')' ∷ rest)

abbrev pub where_tokens : String → List Condition → List Token → List Token
where_tokens joiner [] rest = rest
where_tokens joiner (c ∷ cs) rest = kw joiner ∷ condition_tokens c (where_tokens "AND" cs rest)

abbrev pub select_tokens : Select → List Token
select_tokens s =
    kw "SELECT"
    ∷ kw s.column
    ∷ kw "FROM"
    ∷ kw s.table
    ∷ where_tokens "WHERE" s.conditions
        (kw "ORDER" ∷ kw "BY" ∷ kw "timestamp" ∷ kw "DESC" ∷ symbol b';' ∷ [])

abbrev pub statement_tokens : Statement → List Token
statement_tokens (delete table values) =
    kw "DELETE"
    ∷ kw "FROM"
    ∷ kw table
    ∷ kw "WHERE"
    ∷ condition_tokens (one_of "timestamp" values) (symbol b';' ∷ [])
statement_tokens (set_date_deleted key value) =
    kw "UPDATE"
    ∷ kw "backups"
    ∷ kw "SET"
    ∷ kw "date_deleted"
    ∷ symbol b'='
    ∷ lit value
    ∷ kw "WHERE"
    ∷ condition_tokens (equal "timestamp" key) (symbol b';' ∷ [])
