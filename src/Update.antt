-- ===== src/Update.antt =====
-- update.go: the UPDATE builder.
pub mod Builds
use tiqq.Prelude.{
  ℕ, ◌+◌, Bool, true, false, not, ◌&&◌, ◌||◌, List, [], ◌∷◌, ◌++◌, map, Text, codes, KeySet, has,
  if◌then◌else◌, Result, ok, err, errorf, ◌>>=◌, ◌>>◌, fail_if,
}
use tiqq.Value.{Value}
use tiqq.Dialect.{Renderer, renderer_for, render_table, qualifier, quote_identifier, placeholder}
use tiqq.Column.{ColumnRef, Assignment, id, column_name}
use tiqq.Predicate.{Predicate, Rendered, render_clause}
use tiqq.Validate.{
  is_nil, validate_columns, validate_predicates, validate_returning, render_returning,
}
use tiqq.Statement.{Statement, new_statement, must}
use tiqq.Source.{TableInfo, TableSource, table_source_of}

pub record UpdateQuery : Type 0 where
  pub table : TableSource
  pub assignments : List Assignment
  pub predicates : List Predicate
  pub all_rows : Bool
  pub returning : List ColumnRef
  pub returns : Bool

unfoldable pub new_update {ℓ κ} : {C : Type ℓ} {NC : Type κ} → TableInfo C NC → UpdateQuery
new_update info = record {
  table = table_source_of info;
  assignments = [];
  predicates = [];
  all_rows = false;
  returning = [];
  returns = false;
}

unfoldable pub set_all : UpdateQuery → List Assignment → UpdateQuery
set_all q xs = record q { assignments = q.assignments ++ xs }

unfoldable pub where_all : UpdateQuery → List Predicate → UpdateQuery
where_all q ps = record q { predicates = q.predicates ++ ps }

unfoldable pub allow_all_rows : UpdateQuery → UpdateQuery
allow_all_rows q = record q { all_rows = true }

unfoldable pub returning_columns : UpdateQuery → List ColumnRef → UpdateQuery
returning_columns q cs = record q { returns = true; returning = cs }

-- The loop that collects the assigned columns and rejects values of an incoming row.
unfoldable pub reject_incoming : List Assignment → Result (Unit {0})
reject_incoming [] = ok tt
reject_incoming (a ∷ xs) =
    if a.excluded || a.inserted
    then err (errorf (codes "tiqq: UPDATE SET does not accept incoming-row assignments"))
    else reject_incoming xs

-- The loop over `seenAssignments`.
unfoldable pub reject_repeated : KeySet → List Assignment → Result (Unit {0})
reject_repeated seen [] = ok tt
reject_repeated seen (a ∷ xs) =
    if has seen (id a.column)
    then err (
        errorf (
          codes "tiqq: UPDATE SET column "
          ++ (id a.column ++ codes " is specified more than once")))
    else reject_repeated (id a.column ∷ seen) xs

-- The loop that writes the assignments; the flag is `index > 0`.
unfoldable pub render_assignments : Renderer → Bool → List Assignment → ℕ → Rendered
render_assignments r later [] n = record { text = []; args = []; next = n }
render_assignments r later (a ∷ xs) n =
    let rest = render_assignments r true xs (n + 1) in
    record {
      text =
          (if later then codes ", " else [])
          ++ (quote_identifier r (column_name a.column)
              ++ (codes " = " ++ (placeholder r n ++ rest.text)));
      args = a.value ∷ rest.args;
      next = rest.next;
    }

-- The second half of `Build`: the text and the arguments.
unfoldable pub render : Renderer → UpdateQuery → Statement
render r q =
    let o = render_assignments r false q.assignments 1 in
    let w = render_clause r (codes " WHERE ") q.predicates o.next in
    new_statement
      (codes "UPDATE "
        ++ (render_table r q.table.ref
            ++ (codes " SET " ++ (o.text ++ (w.text ++ render_returning r q.returning)))))
      (o.args ++ w.args) q.returning

abbrev pub assigned_columns : List Assignment → List ColumnRef
assigned_columns = map (λ a. a.column)

unfoldable pub build : UpdateQuery → Result Statement
build q = do
  r ← renderer_for q.table.ref
  fail_if (is_nil q.assignments)
      (errorf (codes "tiqq: UPDATE requires at least one SET assignment"))
  fail_if (is_nil q.predicates && not q.all_rows)
      (errorf (codes "tiqq: UPDATE requires WHERE or AllRows"))
  validate_returning r q.table.ref q.returning q.returns
  reject_incoming q.assignments
  validate_columns (codes "SET") (assigned_columns q.assignments) (qualifier q.table.ref ∷ [])
  reject_repeated [] q.assignments
  validate_predicates (codes "WHERE") q.predicates (qualifier q.table.ref ∷ [])
  ok (render r q)

unfoldable pub must_build : UpdateQuery → Result Statement
unfolding must
must_build q = must (build q)
