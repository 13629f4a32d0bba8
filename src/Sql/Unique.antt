-- ===== src/Sql/Unique.antt =====
-- The tokens of a statement tell which statement it is.
use gpbackman.Base.{◌≡◌, refl, String, List, [], ◌∷◌, codes, codes_inj, arith}
use gpbackman.Sql.{
  Token, symbol, Condition, equal, differs, less, greater, one_of, none_of, Select, Statement,
  delete, set_date_deleted, kw, lit, value_tokens, condition_tokens, where_tokens, select_tokens,
  statement_tokens,
}

value_tokens_inj :
    (vs us : List String) (r s : List Token)
    → value_tokens vs (symbol b')' ∷ r) ≡ value_tokens us (symbol b')' ∷ s)
    → (vs ≡ us) × (r ≡ s)
value_tokens_inj [] [] r s h = (refl, cc)
value_tokens_inj [] (u ∷ []) r s h = absurd (cc)
value_tokens_inj [] (u ∷ u' ∷ us) r s h = absurd (cc)
value_tokens_inj (v ∷ []) [] r s h = absurd (cc)
value_tokens_inj (v ∷ v' ∷ vs) [] r s h = absurd (cc)
value_tokens_inj (v ∷ []) (u ∷ []) r s h =
    let e : codes v ≡ codes u = cc in let f = codes_inj v u e in (cc, cc)
value_tokens_inj (v ∷ []) (u ∷ u' ∷ us) r s h = absurd (ground arith)
value_tokens_inj (v ∷ v' ∷ vs) (u ∷ []) r s h = absurd (ground arith)
value_tokens_inj (v ∷ v' ∷ vs) (u ∷ u' ∷ us) r s h =
    let e : codes v ≡ codes u = cc in
    let f = codes_inj v u e in
    let k : value_tokens (v' ∷ vs) (symbol b')' ∷ r) ≡ value_tokens (u' ∷ us) (symbol b')' ∷ s) =
      cc in
    let (p, q) = value_tokens_inj (v' ∷ vs) (u' ∷ us) r s k in (cc, q)

module _ (col col' : String) (r s : List Token) where
  -- A condition that compares a column with one value.
  one_value_inj :
      (v u : String) → kw col ∷ lit v ∷ r ≡ kw col' ∷ lit u ∷ s → (col ≡ col') × (v ≡ u) × (r ≡ s)
  one_value_inj v u h =
      let e : codes col ≡ codes col' = cc in
      let k : codes v ≡ codes u = cc in (codes_inj col col' e, codes_inj v u k, cc)

  values_inj :
      (vs us : List String)
      → kw col ∷ value_tokens vs (symbol b')' ∷ r) ≡ kw col' ∷ value_tokens us (symbol b')' ∷ s)
      → (col ≡ col') × (vs ≡ us) × (r ≡ s)
  values_inj vs us h =
      let e : codes col ≡ codes col' = cc in
      let k : value_tokens vs (symbol b')' ∷ r) ≡ value_tokens us (symbol b')' ∷ s) = cc in
      let (p, q) = value_tokens_inj vs us r s k in (codes_inj col col' e, p, q)

condition_tokens_inj :
    (c d : Condition) (r s : List Token)
    → condition_tokens c r ≡ condition_tokens d s
    → (c ≡ d) × (r ≡ s)
condition_tokens_inj (equal col v) (equal col' u) r s h =
    let (p, q, t) = one_value_inj col col' r s v u (cc) in (cc, t)
condition_tokens_inj (differs col v) (differs col' u) r s h =
    let (p, q, t) = one_value_inj col col' r s v u (cc) in (cc, t)
condition_tokens_inj (less col v) (less col' u) r s h =
    let (p, q, t) = one_value_inj col col' r s v u (cc) in (cc, t)
condition_tokens_inj (greater col v) (greater col' u) r s h =
    let (p, q, t) = one_value_inj col col' r s v u (cc) in (cc, t)
condition_tokens_inj (one_of col vs) (one_of col' us) r s h =
    let (p, q, t) = values_inj col col' r s vs us (cc) in (cc, t)
condition_tokens_inj (none_of col vs) (none_of col' us) r s h =
    let (p, q, t) = values_inj col col' r s vs us (cc) in (cc, t)
condition_tokens_inj c d r s h = absurd (ground arith)

abbrev order_tokens : List Token
order_tokens = kw "ORDER" ∷ kw "BY" ∷ kw "timestamp" ∷ kw "DESC" ∷ symbol b';' ∷ []

where_tokens_inj :
    (cs ds : List Condition)
    → where_tokens "AND" cs order_tokens ≡ where_tokens "AND" ds order_tokens
    → cs ≡ ds
where_tokens_inj [] [] h = refl
where_tokens_inj [] (d ∷ ds) h = absurd (ground arith)
where_tokens_inj (c ∷ cs) [] h = absurd (ground arith)
where_tokens_inj (c ∷ cs) (d ∷ ds) h =
    let (p, q) =
      condition_tokens_inj c d (where_tokens "AND" cs order_tokens)
        (where_tokens "AND" ds order_tokens) (cc) in
    let t = where_tokens_inj cs ds q in cc

conditions_inj :
    (cs ds : List Condition)
    → where_tokens "WHERE" cs order_tokens ≡ where_tokens "WHERE" ds order_tokens
    → cs ≡ ds
conditions_inj [] [] h = refl
conditions_inj [] (d ∷ ds) h = absurd (ground arith)
conditions_inj (c ∷ cs) [] h = absurd (ground arith)
conditions_inj (c ∷ cs) (d ∷ ds) h =
    let (p, q) =
      condition_tokens_inj c d (where_tokens "AND" cs order_tokens)
        (where_tokens "AND" ds order_tokens) (cc) in
    let t = where_tokens_inj cs ds q in cc

-- Two SELECTs with the same tokens are the same.
pub select_tokens_inj : (s t : Select) → select_tokens s ≡ select_tokens t → s ≡ t
select_tokens_inj s t h =
    let p : codes s.column ≡ codes t.column = cc in
    let q : codes s.table ≡ codes t.table = cc in
    let column = codes_inj s.column t.column p in
    let table = codes_inj s.table t.table q in
    let conditions = conditions_inj s.conditions t.conditions (cc) in ground arith

-- Two statements with the same tokens are the same.
pub statement_tokens_inj : (s t : Statement) → statement_tokens s ≡ statement_tokens t → s ≡ t
statement_tokens_inj (delete table vs) (delete table' us) h =
    let p : codes table ≡ codes table' = cc in
    let table_eq = codes_inj table table' p in
    let (q, r) = value_tokens_inj vs us (symbol b';' ∷ []) (symbol b';' ∷ []) (cc) in cc
statement_tokens_inj (delete table vs) (set_date_deleted key v) h = absurd (ground arith)
statement_tokens_inj (set_date_deleted key v) (delete table vs) h = absurd (ground arith)
statement_tokens_inj (set_date_deleted key v) (set_date_deleted key' u) h =
    let p : codes key ≡ codes key' = cc in
    let q : codes v ≡ codes u = cc in let a = codes_inj key key' p in let b = codes_inj v u q in cc
