-- ===== src/Sql/Meaning/Order.antt =====
-- What holds of every row holds of the rows that a query gives.
use gpbackman.Base.{
  ◌≡◌, ◌≢◌, refl, ◌∙◌, ap, String, Bool, true, false, List, [], ◌∷◌, map, All, Bool-cases, ◌==◌,
  ◌||◌, inl, inr, arith, eq_iff, contains,
}
use gpbackman.Sql.Meaning.{Row, str_lt, filter_rows, insert_row, order_rows}

module _ (P : Row → Type 0) where
  insert-All : (r : Row) (rows : List Row) → P r → All P rows → All P (insert_row r rows)
  unfolding insert_row
  insert-All r [] p h = (p, tt)
  insert-All r (s ∷ rows) p (q, h) = elim (Bool-cases (str_lt (r "timestamp") (s "timestamp"))) [
    | inl e ↦ rw e (q, insert-All r rows p h)
    | inr e ↦ rw e (p, (q, h))
  ]

  pub order-All : (rows : List Row) → All P rows → All P (order_rows rows)
  unfolding order_rows
  order-All [] h = tt
  order-All (r ∷ rows) (p, h) = insert-All r (order_rows rows) p (order-All rows h)

pub All-map :
    {A : Type 0}
    → (P Q : A → Type 0) → ((a : A) → P a → Q a)
    → (list : List A) → All P list
    → All Q list
All-map P Q h [] all = tt
All-map P Q h (a ∷ list) (p, ps) = (h a p, All-map P Q h list ps)

-- A row that is kept has passed the test.
pub filter-All :
    (P Q : Row → Type 0) (test : Row → Bool)
    → ((r : Row) → P r → test r ≡ true → Q r)
    → (rows : List Row) → All P rows
    → All Q (filter_rows test rows)
unfolding filter_rows
filter-All P Q test h [] all = tt
filter-All P Q test h (r ∷ rows) (p, ps) = elim (Bool-cases (test r)) [
  | inl e ↦ rw e (h r p e, filter-All P Q test h rows ps)
  | inr e ↦ rw e (filter-All P Q test h rows ps)
]

-- Sorting keeps the names.
insert-contains :
    (name : String) (r : Row) (rows : List Row)
    → contains (map (λ s. s "timestamp") (insert_row r rows)) name
      ≡ contains (map (λ s. s "timestamp") (r ∷ rows)) name
unfolding insert_row
insert-contains name r [] = refl
insert-contains name r (s ∷ rows) =
    let ih = insert-contains name r rows in
    elim (Bool-cases (str_lt (r "timestamp") (s "timestamp"))) [
      | inl e ↦ rw e (ground (arith, ih))
      | inr e ↦ rw e refl
    ]

pub order-contains :
    (name : String) (rows : List Row)
    → contains (map (λ s. s "timestamp") (order_rows rows)) name
      ≡ contains (map (λ s. s "timestamp") rows) name
unfolding order_rows
order-contains name [] = refl
order-contains name (r ∷ rows) =
    insert-contains name r (order_rows rows)
    ∙ ap (λ b. name == r "timestamp" || b) (order-contains name rows)

pub map-All :
    (P : String → Type 0) (column : String) (rows : List Row)
    → All (λ r. P (r column)) rows
    → All P (map (λ r. r column) rows)
map-All P column [] h = tt
map-All P column (r ∷ rows) (p, h) = (p, map-All P column rows h)

pub contains_none :
    (name : String) (list : List String) → All (λ x. x ≢ name) list → contains list name ≡ false
contains_none name [] h = refl
contains_none name (x ∷ list) (n, h) = ground (arith, eq_iff name x, contains_none name list h, n)
