-- ===== src/Sql/Meaning/Elsewhere.antt =====
-- A query whose conditions no row of a name meets gives other names only.
use gpbackman.Base.{◌≡◌, ◌≢◌, String, Bool, false, List, [], ◌∷◌, map, All, arith}
use gpbackman.Sql.{Select}
use gpbackman.Sql.Lexer.{QuoteFree}
use gpbackman.Sql.Meaning.{Row, filter_rows, order_rows, holds_all}
use gpbackman.Sql.Meaning.Order.{order-All, filter-All, map-All}

-- A name without a quote, and not the one that is to be kept.
abbrev pub Elsewhere : String → String → Type 0
Elsewhere name x = QuoteFree x × (x ≢ name)

pub absent : (name : String) (l : List String) → All (Elsewhere name) l → All (λ x. x ≢ name) l
absent name [] h = tt
absent name (x ∷ xs) (h, hs) = (h.1, absent name xs hs)

pub plain_names : (name : String) (l : List String) → All (Elsewhere name) l → All QuoteFree l
plain_names name [] h = tt
plain_names name (x ∷ xs) (h, hs) = (h.0, plain_names name xs hs)

-- No row of that name passes the test, and no name in the table holds a quote.
abbrev pub NonePasses : (Row → Bool) → String → List Row → Type 0
NonePasses test name rows =
    All (λ r. QuoteFree (r "timestamp") × (r "timestamp" ≡ name → test r ≡ false)) rows

pub answer-Elsewhere :
    (name : String) (s : Select) (rows : List Row)
    → NonePasses (holds_all s.conditions) name rows
    → All
        (Elsewhere name)
        (map (λ r. r "timestamp") (order_rows (filter_rows (holds_all s.conditions) rows)))
answer-Elsewhere name s rows kept =
    let P = λ (r : Row). QuoteFree (r "timestamp") × (r "timestamp" ≢ name) in
    map-All (Elsewhere name) "timestamp" _ (
      order-All P _
        (filter-All _ P _ (λ r p test. (p.0, λ same. ground (arith, p.1 same, test))) rows kept))
