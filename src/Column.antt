-- ===== src/Column.antt =====
-- column.go, aggregate.go and order.go: column references and what is made of them. The type
-- parameters of columns (scope, result and comparison types) have no run-time content.
use tiqq.Prelude.{
  Bool, true, false, ◌++◌, Text, codes, is_empty, equal, if◌then◌else◌, Result, ok, err, panic,
}
use tiqq.Value.{Value, null}

-- `columnRef`: the fields `aggregate`, `function` and `input` are set together, by `aggregate` alone.
pub data ColumnRef : Type 0 where
  plain : Text → Text → Text → ColumnRef
  aggregated : Text → Text → Text → Text → ColumnRef → ColumnRef

abbrev pub id : ColumnRef → Text
id (plain i q n) = i
id (aggregated i q n f c) = i

abbrev pub column_qualifier : ColumnRef → Text
column_qualifier (plain i q n) = q
column_qualifier (aggregated i q n f c) = q

abbrev pub column_name : ColumnRef → Text
column_name (plain i q n) = n
column_name (aggregated i q n f c) = n

abbrev pub is_aggregate : ColumnRef → Bool
is_aggregate (plain i q n) = false
is_aggregate (aggregated i q n f c) = true

-- `RequiredColumn` and `NullableColumn` differ in their types alone.
unfoldable pub new_column : Text → Text → ColumnRef
new_column t n = plain (t ++ (codes "." ++ n)) t n

unfoldable pub alias_column : ColumnRef → Text → Result ColumnRef
alias_column c a =
    if is_empty a
    then err (panic (codes "tiqq: table alias must not be empty"))
    else ok (plain (a ++ (codes "." ++ column_name c)) a (column_name c))

unfoldable pub require_distinct_aliases : Text → Text → Result (Unit {0})
require_distinct_aliases l r =
    if equal l r then err (panic (codes "tiqq: self join aliases must be distinct")) else ok tt

unfoldable pub aggregate : Text → ColumnRef → ColumnRef
aggregate f c =
    aggregated (f ++ (codes "(" ++ (id c ++ codes ")"))) (column_qualifier c) (column_name c) f c

-- The methods `Count`, `Min`, `Max`, `Sum` and `Avg`.
unfoldable pub count : ColumnRef → ColumnRef
count c = aggregate (codes "COUNT") c

unfoldable pub min_of : ColumnRef → ColumnRef
min_of c = aggregate (codes "MIN") c

unfoldable pub max_of : ColumnRef → ColumnRef
max_of c = aggregate (codes "MAX") c

unfoldable pub sum : ColumnRef → ColumnRef
sum c = aggregate (codes "SUM") c

unfoldable pub avg : ColumnRef → ColumnRef
avg c = aggregate (codes "AVG") c

pub record Assignment : Type 0 where
  pub column : ColumnRef
  pub value : Value
  pub excluded : Bool
  pub inserted : Bool

pub record InsertValue : Type 0 where
  pub target : ColumnRef
  pub insert_value : Value

unfoldable pub to : ColumnRef → Value → Assignment
to c v = record { column = c; value = v; excluded = false; inserted = false }

unfoldable pub value_of : ColumnRef → Value → InsertValue
value_of c v = record { target = c; insert_value = v }

unfoldable pub excluded_assignment : ColumnRef → Assignment
excluded_assignment c = record { column = c; value = null; excluded = true; inserted = false }

unfoldable pub inserted_assignment : ColumnRef → Assignment
inserted_assignment c = record { column = c; value = null; excluded = false; inserted = true }

pub record Order : Type 0 where
  pub order_column : ColumnRef
  pub direction : Text

unfoldable pub asc : ColumnRef → Order
asc c = record { order_column = c; direction = codes "ASC" }

unfoldable pub desc : ColumnRef → Order
desc c = record { order_column = c; direction = codes "DESC" }
