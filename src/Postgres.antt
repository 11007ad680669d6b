-- ===== src/Postgres.antt =====
-- postgres/insert.go: the PostgreSQL INSERT builder, which wraps that of insert.go.
use tiqq.Prelude.{List, Text, none, Result, ◌≡◌, refl}
use tiqq.Dialect.{TableRef}
use tiqq.Column.{ColumnRef, Assignment, InsertValue, excluded_assignment}
use tiqq.Statement.{Statement}
use tiqq.Insert

pub record InsertQuery : Type 0 where
  pub query : Insert.InsertQuery

unfoldable pub new_insert : Insert.InsertQuery → InsertQuery
new_insert q = record { query = q }

unfoldable pub add_row : InsertQuery → List InsertValue → InsertQuery
add_row q vs = record q { query = Insert.add_row q.query vs }

unfoldable pub returning_columns : InsertQuery → List ColumnRef → InsertQuery
returning_columns q cs = record q { query = Insert.returning_columns q.query cs }

unfoldable pub build : InsertQuery → Result Statement
build q = Insert.build q.query

unfoldable pub must_build : InsertQuery → Result Statement
must_build q = Insert.must_build q.query

-- A conflict clause whose action is still to be given.
pub record ConflictBuilder : Type 0 where
  pub builder_query : InsertQuery
  pub conflict_columns : List ColumnRef

unfoldable pub on_conflict : InsertQuery → List ColumnRef → ConflictBuilder
on_conflict q cs = record { builder_query = q; conflict_columns = cs }

unfoldable pub do_nothing : ConflictBuilder → InsertQuery
do_nothing b = record {
  query = Insert.with_conflict_do_nothing b.builder_query.query b.conflict_columns;
}

unfoldable pub do_update : ConflictBuilder → List Assignment → InsertQuery
do_update b xs = record {
  query = Insert.with_conflict_do_update b.builder_query.query b.conflict_columns xs;
}

unfoldable pub excluded : ColumnRef → Assignment
excluded c = excluded_assignment c

-- The queries that the operations of the package reach from a new INSERT of insert.go.
pub data IsMade : InsertQuery → Type 0 where
  made_new :
      (t : TableRef) (insertable needed : List Text) (keys : List (List Text))
      → IsMade (new_insert (Insert.new_insert t insertable needed keys))
  made_row : (q : InsertQuery) (vs : List InsertValue) → IsMade q → IsMade (add_row q vs)
  made_returning :
      (q : InsertQuery) (cs : List ColumnRef) → IsMade q → IsMade (returning_columns q cs)
  made_nothing :
      (q : InsertQuery) (cs : List ColumnRef) → IsMade q → IsMade (do_nothing (on_conflict q cs))
  made_update :
      (q : InsertQuery) (cs : List ColumnRef) (xs : List Assignment)
      → IsMade q
      → IsMade (do_update (on_conflict q cs) xs)

-- No operation of the PostgreSQL package gives a query assignments of ON DUPLICATE KEY UPDATE: every query that
-- they reach from a new INSERT has none.
pub postgres_duplicate : (q : InsertQuery) → IsMade q → q.query.duplicate ≡ none
unfolding new_insert add_row returning_columns on_conflict do_nothing do_update Insert.new_insert
    Insert.add_row Insert.returning_columns Insert.with_conflict_do_nothing
    Insert.with_conflict_do_update
postgres_duplicate _ (made_new t insertable needed keys) = refl
postgres_duplicate _ (made_row q vs m) = postgres_duplicate q m
postgres_duplicate _ (made_returning q cs m) = postgres_duplicate q m
postgres_duplicate _ (made_nothing q cs m) = postgres_duplicate q m
postgres_duplicate _ (made_update q cs xs m) = postgres_duplicate q m
