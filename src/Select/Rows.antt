-- ===== src/Select/Rows.antt =====
-- About the rows of a SELECT that `Build` of query.go returns: what `Row.Get` reads of them.
use tiqq.Prelude.{List, [], ◌∷◌, Text, ok, >>=-eq-ok, ok-injective, ◌≡◌, sym, subst, Elem}
use tiqq.Value.{Value}
use tiqq.Column.{ColumnRef, id}
use tiqq.Dialect.{Renderer, qualifier}
use tiqq.Statement.{Statement, new_statement, Row, new_row}
use tiqq.Statement.Rows.{ids, Found, raw_value-projected}
use tiqq.Source.{TableSource}
use tiqq.Join.{join_loop}
use tiqq.Select.{Query, assemble, render_from, build}
use tiqq.Select.Builds.{select_build_iff}

-- A statement that reads the given columns.
abbrev HasProjection : Statement → List ColumnRef → Type 0
HasProjection s cs = (t : Text) × (vs : List Value) × (new_statement t vs cs ≡ s)

render_from-HasProjection :
    (r : Renderer) (q : Query) (ts : List TableSource) (s : Statement)
    → render_from r q ts ≡ ok s
    → HasProjection s q.projections
unfolding render_from assemble
render_from-HasProjection r q [] s h = cc
render_from-HasProjection r q (base ∷ ts) s h =
    let (j, e, same) =
      >>=-eq-ok (join_loop r (base ∷ ts) (qualifier base.ref ∷ []) q.from.joins 1) _ h in
    (_, _, ok-injective same)

-- If `Build` of a SELECT returns a statement, and `NewRow` takes scanned values for it, then every
-- column that the query selects is read without an error, as the value at the last place that the
-- projection gives to its id.
pub select_build-Found :
    (q : Query) (s : Statement) (vs : List Value) (row : Row)
    → build q ≡ ok s
    → new_row s vs ≡ ok row
    → (c : ColumnRef) → Elem (id c) (ids q.projections)
    → Found c q.projections vs row
select_build-Found q s vs row h made c m =
    let (r, v, rendered) = (select_build_iff q s).0 h in
    let (t, args, same) = render_from-HasProjection r q q.from.tables s rendered in
    raw_value-projected t args q.projections vs (subst (λ x. new_row x vs ≡ ok row) (sym same) made)
      c m
