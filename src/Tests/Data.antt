-- ===== src/Tests/Data.antt =====
-- Two tables, related by a foreign key, with columns, queries and rows.
use tiqq.Prelude.{List, [], ◌∷◌, some, codes, String}
use tiqq.Value.{Value, string, int64, ℤ, pos}
use tiqq.Dialect.{postgresql, TableRef}
use tiqq.Column.{ColumnRef, new_column, to, value_of, excluded_assignment, InsertValue, asc}
use tiqq.Predicate.{gte, like, gt}
use tiqq.Source.{ForeignKey, TableInfo, Source, table_join_source, join_inner}
use tiqq.Delete
use tiqq.Update
use tiqq.Select
use tiqq.Insert

abbrev pub ref : String → TableRef
ref n = record { schema = []; table_name = codes n; alias = []; dialect = some postgresql }

abbrev pub col : String → String → ColumnRef
col t n = new_column (codes t) (codes n)

-- The column views are of no use here.
abbrev pub users : TableInfo (Unit {0}) (Unit {0})
users = record { info_ref = ref "users"; required = tt; nullable = tt; info_keys = [] }

abbrev pub orders_key : ForeignKey
orders_key = record {
  columns = codes "user_id" ∷ [];
  referenced_table = codes "users";
  referenced_columns = codes "id" ∷ [];
}

abbrev pub orders : TableInfo (Unit {0}) (Unit {0})
orders = record {
  info_ref = ref "orders";
  required = tt;
  nullable = tt;
  info_keys = orders_key ∷ [];
}

abbrev pub number : ℤ → Value
number n = int64 n

abbrev pub delete_query : Delete.DeleteQuery
delete_query =
    Delete.returning_columns
      (Delete.where_all (Delete.new_delete orders)
        (gte (col "orders" "total") (number (pos 10)) ∷ []))
      (col "orders" "id" ∷ [])

abbrev pub update_query : Update.UpdateQuery
update_query =
    Update.where_all
      (Update.set_all (Update.new_update orders) (
        to (col "orders" "total") (number (pos 5))
        ∷ to (col "orders" "note") (string (codes "x"))
        ∷ []))
      (gt (col "orders" "total") (number (pos 10)) ∷ [])

abbrev pub sources : Source
sources = (join_inner {LC = Unit {0}} {LNC = Unit {0}} (table_join_source users) orders).source

abbrev pub select_query : Select.Query
select_query =
    Select.limit_to
      (Select.order
        (Select.where_all
          (Select.select (Select.new_query sources)
            (col "users" "name" ∷ col "orders" "total" ∷ []))
          (gte (col "orders" "total") (number (pos 10))
            ∷ like (col "users" "name") (string (codes "A%"))
            ∷ []))
        (asc (col "users" "name") ∷ []))
      (pos 3)

abbrev pub row_one : List InsertValue
row_one =
    value_of (col "users" "id") (number (pos 1))
    ∷ value_of (col "users" "name") (string (codes "A"))
    ∷ []

abbrev pub row_two : List InsertValue
row_two =
    value_of (col "users" "name") (string (codes "B"))
    ∷ value_of (col "users" "id") (number (pos 2))
    ∷ []

abbrev pub insert_query : Insert.InsertQuery
insert_query =
    Insert.with_conflict_do_update
      (Insert.add_row
        (Insert.add_row
          (Insert.new_insert (ref "users") (codes "id" ∷ codes "name" ∷ []) (codes "name" ∷ [])
            ((codes "id" ∷ []) ∷ []))
          row_one)
        row_two)
      (col "users" "id" ∷ []) (excluded_assignment (col "users" "name") ∷ [])
