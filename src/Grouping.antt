-- ===== src/Grouping.antt =====
-- validateGrouping of query.go: which columns may stand beside aggregates and GROUP BY.

pub mod Accepts
use tiqq.Prelude.{
  Bool, true, false, not, ◌&&◌, ◌||◌, List, [], ◌∷◌, ◌++◌, Text, codes, KeySet, has, if◌then◌else◌,
  Result, ok, err, errorf, ◌>>=◌, ◌>>◌,
}
use tiqq.Column.{ColumnRef, id, is_aggregate}
use tiqq.Predicate.{Predicate, predicate_columns}
use tiqq.Validate.{is_nil}

-- The first loop: the grouped ids, unless a group is an aggregate.
unfoldable pub group_keys : List ColumnRef → KeySet → Result KeySet
group_keys [] grouped = ok grouped
group_keys (c ∷ cs) grouped =
    if is_aggregate c
    then err (errorf (codes "tiqq: GROUP BY does not accept aggregate " ++ id c))
    else group_keys cs (id c ∷ grouped)

unfoldable pub any_aggregate : List ColumnRef → Bool
any_aggregate [] = false
any_aggregate (c ∷ cs) = is_aggregate c || any_aggregate cs

unfoldable pub any_predicate_aggregate : List Predicate → Bool
any_predicate_aggregate [] = false
any_predicate_aggregate (p ∷ ps) = any_aggregate (predicate_columns p) || any_predicate_aggregate ps

-- The loops over the projections, the columns of a HAVING predicate and the ordering.
unfoldable pub require_grouped : Text → KeySet → List ColumnRef → Result (Unit {0})
require_grouped clause grouped [] = ok tt
require_grouped clause grouped (c ∷ cs) =
    if not (is_aggregate c) && not (has grouped (id c))
    then err (
        errorf (
          codes "tiqq: "
          ++ (clause ++ (codes " column " ++ (id c ++ codes " must appear in GROUP BY")))))
    else require_grouped clause grouped cs

unfoldable pub require_having_grouped : KeySet → List Predicate → Result (Unit {0})
require_having_grouped grouped [] = ok tt
require_having_grouped grouped (p ∷ ps) = do
  require_grouped (codes "HAVING") grouped (predicate_columns p)
  require_having_grouped grouped ps

-- The checks behind the test for aggregates and groups.
unfoldable pub require_all_grouped :
    KeySet → List ColumnRef → List Predicate → List ColumnRef → Result (Unit {0})
require_all_grouped grouped projections having order_by = do
  require_grouped (codes "SELECT") grouped projections
  require_having_grouped grouped having
  require_grouped (codes "ORDER BY") grouped order_by

unfoldable pub validate_grouping :
    List ColumnRef → List ColumnRef → List Predicate → List ColumnRef → Result (Unit {0})
validate_grouping projections group_by having order_by = do
  grouped ← group_keys group_by []
  if not (any_aggregate projections || any_predicate_aggregate having || any_aggregate order_by)
        && is_nil group_by
      then ok tt
      else require_all_grouped grouped projections having order_by
