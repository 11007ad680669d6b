-- ===== src/Mysql.antt =====
-- mysql/insert.go: the MySQL INSERT builder, which wraps that of insert.go.
use tiqq.Prelude.{List, Text, none, Result, ◌≡◌, refl}
use tiqq.Dialect.{TableRef}
use tiqq.Column.{ColumnRef, Assignment, InsertValue, inserted_assignment}
use tiqq.Statement.{Statement}
use tiqq.Insert

pub record InsertQuery : Type 0 where
  pub query : Insert.InsertQuery

unfoldable pub new_insert : Insert.InsertQuery → InsertQuery
new_insert q = record { query = q }

unfoldable pub add_row : InsertQuery → List InsertValue → InsertQuery
add_row q vs = record q { query = Insert.add_row q.query vs }

unfoldable pub returning_columns : InsertQuery → List ColumnRef → InsertQuery
returning_columns q cs = record q { query = Insert.returning_columns q.query cs }

unfoldable pub build : InsertQuery → Result Statement
build q = Insert.build q.query

unfoldable pub must_build : InsertQuery → Result Statement
must_build q = Insert.must_build q.query

-- ON DUPLICATE KEY whose assignments are still to be given.
pub record DuplicateKeyBuilder : Type 0 where
  pub builder_query : InsertQuery

unfoldable pub on_duplicate_key : InsertQuery → DuplicateKeyBuilder
on_duplicate_key q = record { builder_query = q }

unfoldable pub do_update : DuplicateKeyBuilder → List Assignment → InsertQuery
do_update b xs = record { query = Insert.with_duplicate_key_do_update b.builder_query.query xs }

unfoldable pub inserted : ColumnRef → Assignment
inserted c = inserted_assignment c

-- The queries that the operations of the package reach from a new INSERT of insert.go.
pub data IsMade : InsertQuery → Type 0 where
  made_new :
      (t : TableRef) (insertable needed : List Text) (keys : List (List Text))
      → IsMade (new_insert (Insert.new_insert t insertable needed keys))
  made_row : (q : InsertQuery) (vs : List InsertValue) → IsMade q → IsMade (add_row q vs)
  made_returning :
      (q : InsertQuery) (cs : List ColumnRef) → IsMade q → IsMade (returning_columns q cs)
  made_update :
      (q : InsertQuery) (xs : List Assignment)
      → IsMade q
      → IsMade (do_update (on_duplicate_key q) xs)

-- No operation of the MySQL package gives a query an ON CONFLICT clause: every query that they reach
-- from a new INSERT has none.
pub mysql_conflict : (q : InsertQuery) → IsMade q → q.query.conflict ≡ none
unfolding new_insert add_row returning_columns on_duplicate_key do_update Insert.new_insert
    Insert.add_row Insert.returning_columns Insert.with_duplicate_key_do_update
mysql_conflict _ (made_new t insertable needed keys) = refl
mysql_conflict _ (made_row q vs m) = mysql_conflict q m
mysql_conflict _ (made_returning q cs m) = mysql_conflict q m
mysql_conflict _ (made_update q xs m) = mysql_conflict q m
