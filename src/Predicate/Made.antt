-- ===== src/Predicate/Made.antt =====
-- About the predicates that the exported functions and methods of expression.go, column.go and
-- aggregate.go make.
pub mod Written
use tiqq.Prelude.{List, [], ◌∷◌, ◌++◌, Text, codes, ok, ◌≡◌}
use tiqq.Value.{Value}
use tiqq.Column.{ColumnRef, new_column, count, min_of, max_of, sum, avg}
use tiqq.Predicate.{
  Predicate, eq, ne, gt, gte, lt, lte, like, eq_columns, ne_columns, gt_columns, gte_columns,
  lt_columns, lte_columns, is_null, is_not_null, in_list, not_in_list, and_all, or_all, negate,
}

-- The columns that the exported functions make, with the names of their SQL functions, the outer one
-- first.
pub data IsMadeColumn : ColumnRef → List Text → Type 0 where
  made_new : (t n : Text) → IsMadeColumn (new_column t n) []
  made_count :
      {c : ColumnRef} {ws : List Text}
      → IsMadeColumn c ws
      → IsMadeColumn (count c) (codes "COUNT" ∷ ws)
  made_min :
      {c : ColumnRef} {ws : List Text}
      → IsMadeColumn c ws
      → IsMadeColumn (min_of c) (codes "MIN" ∷ ws)
  made_max :
      {c : ColumnRef} {ws : List Text}
      → IsMadeColumn c ws
      → IsMadeColumn (max_of c) (codes "MAX" ∷ ws)
  made_sum :
      {c : ColumnRef} {ws : List Text} → IsMadeColumn c ws → IsMadeColumn (sum c) (codes "SUM" ∷ ws)
  made_avg :
      {c : ColumnRef} {ws : List Text} → IsMadeColumn c ws → IsMadeColumn (avg c) (codes "AVG" ∷ ws)

-- The functions that compare with a value, and with another column, and their SQL operators.
pub data Comparing : (ColumnRef → Value → Predicate) → Text → Type 0 where
  by_eq : Comparing eq (codes "=")
  by_ne : Comparing ne (codes "<>")
  by_gt : Comparing gt (codes ">")
  by_gte : Comparing gte (codes ">=")
  by_lt : Comparing lt (codes "<")
  by_lte : Comparing lte (codes "<=")
  by_like : Comparing like (codes "LIKE")

pub data ComparingColumns : (ColumnRef → ColumnRef → Predicate) → Text → Type 0 where
  by_eq_columns : ComparingColumns eq_columns (codes "=")
  by_ne_columns : ComparingColumns ne_columns (codes "<>")
  by_gt_columns : ComparingColumns gt_columns (codes ">")
  by_gte_columns : ComparingColumns gte_columns (codes ">=")
  by_lt_columns : ComparingColumns lt_columns (codes "<")
  by_lte_columns : ComparingColumns lte_columns (codes "<=")

-- The predicates that the exported functions make of such columns, with the SQL names of the calls
-- that made them, the outer one first, and the values that the calls were given, in their order.
mutual
  pub data IsMade : Predicate → List Text → List Value → Type 0 where
    made_value :
        (f : ColumnRef → Value → Predicate) (op : Text) (c : ColumnRef) (v : Value) {ws : List Text}
        → Comparing f op
        → IsMadeColumn c ws
        → IsMade (f c v) (op ∷ ws) (v ∷ [])
    made_columns :
        (f : ColumnRef → ColumnRef → Predicate) (op : Text) (c d : ColumnRef) {ws us : List Text}
        → ComparingColumns f op
        → IsMadeColumn c ws
        → IsMadeColumn d us
        → IsMade (f c d) (op ∷ (ws ++ us)) []
    made_is_null :
        (c : ColumnRef) {ws : List Text}
        → IsMadeColumn c ws
        → IsMade (is_null c) (codes "IS NULL" ∷ ws) []
    made_is_not_null :
        (c : ColumnRef) {ws : List Text}
        → IsMadeColumn c ws
        → IsMade (is_not_null c) (codes "IS NOT NULL" ∷ ws) []
    made_in :
        (c : ColumnRef) (vs : List Value) {p : Predicate} {ws : List Text}
        → IsMadeColumn c ws
        → in_list c vs ≡ ok p
        → IsMade p (codes "IN" ∷ ws) vs
    made_not_in :
        (c : ColumnRef) (vs : List Value) {p : Predicate} {ws : List Text}
        → IsMadeColumn c ws
        → not_in_list c vs ≡ ok p
        → IsMade p (codes "NOT IN" ∷ ws) vs
    made_and :
        (ps : List Predicate) {p : Predicate} {ws : List Text} {vs : List Value}
        → AreMade ps ws vs
        → and_all ps ≡ ok p
        → IsMade p (codes "AND" ∷ ws) vs
    made_or :
        (ps : List Predicate) {p : Predicate} {ws : List Text} {vs : List Value}
        → AreMade ps ws vs
        → or_all ps ≡ ok p
        → IsMade p (codes "OR" ∷ ws) vs
    made_not :
        (p : Predicate) {ws : List Text} {vs : List Value}
        → IsMade p ws vs
        → IsMade (negate p) (codes "NOT" ∷ ws) vs

  pub data AreMade : List Predicate → List Text → List Value → Type 0 where
    made_none : AreMade [] [] []
    made_more :
        (p : Predicate) (ps : List Predicate) {ws us : List Text} {vs xs : List Value}
        → IsMade p ws vs
        → AreMade ps us xs
        → AreMade (p ∷ ps) (ws ++ us) (vs ++ xs)
