-- ===== src/Validate.antt =====
-- The checks that the builders share: validateColumns and validateNoAggregates of query.go,
-- validateReturning and renderReturning of returning.go, and the loops that check a list of predicates.
pub mod Scope
use tiqq.Prelude.{
  Bool, true, false, not, ◌&&◌, List, [], ◌∷◌, ◌++◌, map, Text, codes, equal, join, KeySet, has,
  if◌then◌else◌, Result, ok, err, errorf, ◌>>=◌, ◌>>◌, fail_if,
}
use tiqq.Dialect.{Renderer, name, quote_identifier, TableRef, qualifier}
use tiqq.Column.{ColumnRef, id, column_qualifier, column_name, is_aggregate}
use tiqq.Predicate.{Predicate, predicate_columns}

abbrev pub out_of_scope : Text → ColumnRef → Text
out_of_scope clause c =
    codes "tiqq: " ++ (clause ++ (codes " column " ++ (id c ++ codes " is not in query scope")))

abbrev pub rejects_aggregate : Text → ColumnRef → Text
rejects_aggregate clause c =
    codes "tiqq: " ++ (clause ++ (codes " does not accept aggregate " ++ id c))

unfoldable pub validate_columns : Text → List ColumnRef → KeySet → Result (Unit {0})
validate_columns clause [] allowed = ok tt
validate_columns clause (c ∷ cs) allowed =
    if not (has allowed (column_qualifier c))
    then err (errorf (out_of_scope clause c))
    else validate_columns clause cs allowed

unfoldable pub validate_no_aggregates : Text → List ColumnRef → Result (Unit {0})
validate_no_aggregates clause [] = ok tt
validate_no_aggregates clause (c ∷ cs) =
    if is_aggregate c
    then err (errorf (rejects_aggregate clause c))
    else validate_no_aggregates clause cs

-- The loop over the predicates of a WHERE clause, in the three builders that have one.
unfoldable pub validate_predicates : Text → List Predicate → KeySet → Result (Unit {0})
validate_predicates clause [] allowed = ok tt
validate_predicates clause (p ∷ ps) allowed = do
  validate_columns clause (predicate_columns p) allowed
  validate_no_aggregates clause (predicate_columns p)
  validate_predicates clause ps allowed

abbrev pub is_nil {ℓ} : {A : Type ℓ} → List A → Bool
is_nil [] = true
is_nil (x ∷ xs) = false

unfoldable pub validate_returning : Renderer → TableRef → List ColumnRef → Bool → Result (Unit {0})
validate_returning r t cs false = ok tt
validate_returning r t cs true = do
  fail_if (equal (name r) (codes "mysql")) (errorf (codes "tiqq: mysql does not support RETURNING"))
  fail_if (is_nil cs) (errorf (codes "tiqq: RETURNING requires at least one column"))
  validate_columns (codes "RETURNING") cs (qualifier t ∷ [])
  validate_no_aggregates (codes "RETURNING") cs

unfoldable pub render_returning : Renderer → List ColumnRef → Text
render_returning r [] = []
render_returning r (c ∷ cs) =
    codes " RETURNING "
    ++ join (codes ", ") (map (λ d. quote_identifier r (column_name d)) (c ∷ cs))
