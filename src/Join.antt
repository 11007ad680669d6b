-- ===== src/Join.antt =====
-- The joins of query.go: inferring an omitted ON clause from foreign keys, and the loop of `Build`
-- that checks and writes the joins.
pub mod Inference
pub mod Params
use tiqq.Prelude.{
  ℕ, ◌+◌, Bool, true, false, not, ◌&&◌, ◌||◌, List, [], ◌∷◌, ◌++◌, Text, codes, KeySet, has, equal,
  length, ◌==◌, if◌then◌else◌, Result, ok, err, errorf, ◌>>=◌, ◌>>◌, fail_if,
}
use tiqq.Dialect.{Renderer, name, qualifier, render_table}
use tiqq.Column.{ColumnRef, plain}
use tiqq.Predicate.{Predicate, column_comparison, Rendered, render_conjuncts}
use tiqq.Validate.{is_nil, validate_predicates}
use tiqq.Source.{
  ForeignKey, TableSource, JoinKind, inner_join, left_join, right_join, full_join, cross_join,
  kind_text, JoinClause,
}

-- A column of a table as the inferred conditions name it.
abbrev pub key_column : TableSource → Text → ColumnRef
key_column t c = plain (qualifier t.ref ++ (codes "." ++ c)) (qualifier t.ref) c

-- The inner loop of `relationPredicateGroups`: the two lists of columns have one length there.
unfoldable pub key_equations : TableSource → TableSource → List Text → List Text → List Predicate
key_equations child parent (c ∷ cs) (d ∷ ds) =
    column_comparison (key_column child c) (codes "=") (key_column parent d)
    ∷ key_equations child parent cs ds
key_equations child parent _ _ = []

abbrev pub does_not_relate : ForeignKey → TableSource → Bool
does_not_relate k parent =
    not (equal k.referenced_table parent.ref.table_name)
    || is_nil k.columns
    || not (length k.columns == length k.referenced_columns)

-- The loop over `child.foreignKeys`.
unfoldable pub key_groups : TableSource → TableSource → List ForeignKey → List (List Predicate)
unfolding key_equations
key_groups child parent [] = []
key_groups child parent (k ∷ ks) =
    let rest = key_groups child parent ks in
    if does_not_relate k parent
    then rest
    else key_equations child parent k.columns k.referenced_columns ∷ rest

unfoldable pub relation_predicate_groups : TableSource → TableSource → List (List Predicate)
unfolding key_groups
relation_predicate_groups child parent = key_groups child parent child.foreign_keys

-- The loop of `inferJoinConditions` over the tables.
unfoldable pub candidates : List TableSource → KeySet → TableSource → List (List Predicate)
unfolding relation_predicate_groups
candidates [] visible right = []
candidates (t ∷ ts) visible right =
    let rest = candidates ts visible right in
    if not (has visible (qualifier t.ref))
    then rest
    else relation_predicate_groups t right ++ (relation_predicate_groups right t ++ rest)

unfoldable pub only_candidate : List (List Predicate) → Result (List Predicate)
only_candidate [] = err (errorf (codes "tiqq: JOIN requires ON because no foreign key matches"))
only_candidate (ps ∷ []) = ok ps
only_candidate (ps ∷ qs ∷ more) =
    err (errorf (codes "tiqq: JOIN requires ON because multiple foreign keys match"))

unfoldable pub infer_join_conditions :
    List TableSource → KeySet → TableSource → Result (List Predicate)
unfolding candidates only_candidate
infer_join_conditions tables visible right = only_candidate (candidates tables visible right)

-- `conditions`, inferred where the join has none
unfoldable pub join_conditions :
    List TableSource → KeySet → TableSource → List Predicate → Result (List Predicate)
join_conditions tables visible right [] = infer_join_conditions tables visible right
join_conditions tables visible right (p ∷ ps) = ok (p ∷ ps)

abbrev join_head : Renderer → JoinClause → Text
join_head r j = codes " " ++ (kind_text j.kind ++ (codes " " ++ render_table r j.right_table.ref))

-- What a join with an ON clause writes.
unfoldable pub render_on : Renderer → JoinClause → List Predicate → ℕ → Rendered
render_on r j ps n =
    let o = render_conjuncts r false ps n in
    record { text = join_head r j ++ (codes " ON " ++ o.text); args = o.args; next = o.next }

-- A join that is no CROSS JOIN.
unfoldable pub join_on : Renderer → List TableSource → KeySet → JoinClause → ℕ → Result Rendered
unfolding join_conditions render_on
join_on r tables visible j n = do
  ps ← join_conditions tables visible j.right_table j.conditions
  validate_predicates (codes "ON") ps (qualifier j.right_table.ref ∷ visible)
  ok (render_on r j ps n)

-- One round of the loop over the joins.
unfoldable pub join_step :
    Renderer → List TableSource → KeySet → JoinKind → JoinClause → ℕ → Result Rendered
unfolding join_on
join_step r tables visible cross_join j n = do
  fail_if (not (is_nil j.conditions)) (errorf (codes "tiqq: CROSS JOIN does not accept ON"))
  ok (record { text = join_head r j; args = []; next = n })
join_step r tables visible full_join j n = do
  fail_if (equal (name r) (codes "mysql")) (errorf (codes "tiqq: mysql does not support FULL JOIN"))
  join_on r tables visible j n
join_step r tables visible inner_join j n = join_on r tables visible j n
join_step r tables visible left_join j n = join_on r tables visible j n
join_step r tables visible right_join j n = join_on r tables visible j n

-- The loop over the joins. After each, the joined table is visible.
unfoldable pub join_loop :
    Renderer → List TableSource → KeySet → List JoinClause → ℕ → Result Rendered
unfolding join_step
join_loop r tables visible [] n = ok (record { text = []; args = []; next = n })
join_loop r tables visible (j ∷ js) n = do
  o ← join_step r tables visible j.kind j n
  rest ← join_loop r tables (qualifier j.right_table.ref ∷ visible) js o.next
  ok (record { text = o.text ++ rest.text; args = o.args ++ rest.args; next = rest.next })
