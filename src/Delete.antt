-- ===== src/Delete.antt =====
-- delete.go: the DELETE builder.
pub mod Builds
use tiqq.Prelude.{
  Bool, true, false, not, ◌&&◌, List, [], ◌∷◌, ◌++◌, Text, codes, Result, ok, err, errorf, ◌>>=◌,
  ◌>>◌, fail_if,
}
use tiqq.Dialect.{Renderer, renderer_for, render_table, qualifier}
use tiqq.Column.{ColumnRef}
use tiqq.Predicate.{Predicate, Rendered, render_clause}
use tiqq.Validate.{is_nil, validate_predicates, validate_returning, render_returning}
use tiqq.Statement.{Statement, new_statement, must}
use tiqq.Source.{TableInfo, TableSource, table_source_of}

pub record DeleteQuery : Type 0 where
  pub table : TableSource
  pub predicates : List Predicate
  pub all_rows : Bool
  pub returning : List ColumnRef
  pub returns : Bool

unfoldable pub new_delete {ℓ κ} : {C : Type ℓ} {NC : Type κ} → TableInfo C NC → DeleteQuery
new_delete info = record {
  table = table_source_of info;
  predicates = [];
  all_rows = false;
  returning = [];
  returns = false;
}

-- The methods of the builder; the source's `where` is a reserved word here.
unfoldable pub where_all : DeleteQuery → List Predicate → DeleteQuery
where_all q ps = record q { predicates = q.predicates ++ ps }

unfoldable pub allow_all_rows : DeleteQuery → DeleteQuery
allow_all_rows q = record q { all_rows = true }

unfoldable pub returning_columns : DeleteQuery → List ColumnRef → DeleteQuery
returning_columns q cs = record q { returns = true; returning = cs }

-- The second half of `Build`: the text and the arguments.
unfoldable pub render : Renderer → DeleteQuery → Statement
render r q =
    let o = render_clause r (codes " WHERE ") q.predicates 1 in
    new_statement
      (codes "DELETE FROM "
        ++ (render_table r q.table.ref ++ (o.text ++ render_returning r q.returning)))
      o.args q.returning

unfoldable pub build : DeleteQuery → Result Statement
build q = do
  r ← renderer_for q.table.ref
  fail_if (is_nil q.predicates && not q.all_rows)
      (errorf (codes "tiqq: DELETE requires WHERE or AllRows"))
  validate_returning r q.table.ref q.returning q.returns
  validate_predicates (codes "WHERE") q.predicates (qualifier q.table.ref ∷ [])
  ok (render r q)

unfoldable pub must_build : DeleteQuery → Result Statement
unfolding must
must_build q = must (build q)
