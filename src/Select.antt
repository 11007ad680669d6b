-- ===== src/Select.antt =====
-- The SELECT builder of query.go.
pub mod Builds
pub mod Params
pub mod Rows
use tiqq.Prelude.{
  ℕ, ◌+◌, Bool, true, false, not, ◌&&◌, ◌||◌, List, [], ◌∷◌, ◌++◌, map, Option, none, some, Text,
  codes, KeySet, has, equal, join, if◌then◌else◌, Result, ok, err, errorf, panic, ◌>>=◌, ◌>>◌,
  fail_if,
}
use tiqq.Value.{ℤ, is_negative, int64}
use tiqq.Dialect.{Renderer, name, renderer_for, render_table, qualifier, placeholder}
use tiqq.Column.{ColumnRef, Order, id}
use tiqq.Predicate.{Predicate, predicate_columns, Rendered, render_column, render_clause}
use tiqq.Validate.{is_nil, validate_columns, validate_predicates}
use tiqq.Grouping.{validate_grouping}
use tiqq.Statement.{Statement, new_statement, must}
use tiqq.Source.{TableInfo, TableSource, Source, table_source_of}
use tiqq.Join.{join_loop}

pub record Query : Type 0 where
  pub from : Source
  pub predicates : List Predicate
  pub projections : List ColumnRef
  pub group_by : List ColumnRef
  pub having : List Predicate
  pub distinct : Bool
  pub order_by : List Order
  pub limit : Option ℤ
  pub offset : Option ℤ

unfoldable pub new_query : Source → Query
new_query s = record {
  from = s;
  predicates = [];
  projections = [];
  group_by = [];
  having = [];
  distinct = false;
  order_by = [];
  limit = none;
  offset = none;
}

unfoldable pub new_table_query {ℓ κ} : {C : Type ℓ} {NC : Type κ} → TableInfo C NC → Query
unfolding new_query
new_table_query info = new_query (record { tables = table_source_of info ∷ []; joins = [] })

unfoldable pub group : Query → List ColumnRef → Query
group q cs = record q { group_by = cs }

unfoldable pub having_all : Query → List Predicate → Query
having_all q ps = record q { having = q.having ++ ps }

unfoldable pub where_all : Query → List Predicate → Query
where_all q ps = record q { predicates = q.predicates ++ ps }

unfoldable pub select : Query → List ColumnRef → Query
select q cs = record q { projections = cs }

unfoldable pub make_distinct : Query → Query
make_distinct q = record q { distinct = true }

unfoldable pub order : Query → List Order → Query
order q os = record q { order_by = os }

unfoldable pub limit_to : Query → ℤ → Query
limit_to q n = record q { limit = some n }

unfoldable pub offset_by : Query → ℤ → Query
offset_by q n = record q { offset = some n }

-- The loop of `queryRenderer` over the other tables.
unfoldable pub same_dialect : Renderer → List TableSource → Result (Unit {0})
same_dialect r [] = ok tt
same_dialect r (t ∷ ts) = do
  other ← renderer_for t.ref
  fail_if (not (equal (name r) (name other))) (
      errorf (
        codes "tiqq: cannot combine "
        ++ (name r ++ (codes " and " ++ (name other ++ codes " SQL dialects")))))
  same_dialect r ts

-- `tables[0]` of no tables panics; `Build` checks first.
unfoldable pub query_renderer : List TableSource → Result Renderer
unfolding same_dialect
query_renderer [] = err (panic (codes "index out of range"))
query_renderer (t ∷ ts) = do r ← renderer_for t.ref; same_dialect r ts; ok r

unfoldable pub distinct_references : KeySet → List TableSource → Result (Unit {0})
distinct_references seen [] = ok tt
distinct_references seen (t ∷ ts) =
    if has seen (qualifier t.ref)
    then err (errorf (codes "tiqq: table aliases must be distinct"))
    else distinct_references (qualifier t.ref ∷ seen) ts

abbrev pub qualifiers : List TableSource → KeySet
qualifiers = map (λ t. qualifier t.ref)

abbrev pub order_columns : List Order → List ColumnRef
order_columns = map (λ o. o.order_column)

unfoldable pub validate_having : List Predicate → KeySet → Result (Unit {0})
validate_having [] allowed = ok tt
validate_having (p ∷ ps) allowed = do
  validate_columns (codes "HAVING") (predicate_columns p) allowed
  validate_having ps allowed

-- The loop over the ordering of a SELECT DISTINCT.
unfoldable pub ordered_columns_selected : KeySet → List ColumnRef → Result (Unit {0})
ordered_columns_selected selected [] = ok tt
ordered_columns_selected selected (c ∷ cs) =
    if not (has selected (id c))
    then err (
        errorf
          (codes "tiqq: DISTINCT ORDER BY column " ++ (id c ++ codes " must appear in SELECT")))
    else ordered_columns_selected selected cs

unfoldable pub validate_distinct : Query → Result (Unit {0})
unfolding ordered_columns_selected
validate_distinct q =
    if q.distinct
    then ordered_columns_selected (map id q.projections) (order_columns q.order_by)
    else ok tt

abbrev pub is_negative_option : Option ℤ → Bool
is_negative_option none = false
is_negative_option (some n) = is_negative n

abbrev pub is_some {ℓ} : {A : Type ℓ} → Option A → Bool
is_some none = false
is_some (some a) = true

unfoldable pub validate_limits : Renderer → Query → Result (Unit {0})
validate_limits r q = do
  fail_if (is_negative_option q.limit) (errorf (codes "tiqq: LIMIT must not be negative"))
  fail_if (is_negative_option q.offset) (errorf (codes "tiqq: OFFSET must not be negative"))
  fail_if (is_some q.offset && not (is_some q.limit) && not (equal (name r) (codes "postgresql")))
      (errorf (codes "tiqq: " ++ (name r ++ codes " OFFSET requires LIMIT")))

-- A list of columns behind a keyword, if there are any.
unfoldable pub render_group_by : Renderer → List ColumnRef → Text
render_group_by r [] = []
render_group_by r (c ∷ cs) =
    codes " GROUP BY " ++ join (codes ", ") (map (render_column r) (c ∷ cs))

abbrev pub render_order : Renderer → Order → Text
render_order r o = render_column r o.order_column ++ (codes " " ++ o.direction)

unfoldable pub render_order_by : Renderer → List Order → Text
render_order_by r [] = []
render_order_by r (o ∷ os) = codes " ORDER BY " ++ join (codes ", ") (map (render_order r) (o ∷ os))

-- LIMIT or OFFSET, whose number is an argument.
unfoldable pub render_bound : Renderer → Text → Option ℤ → ℕ → Rendered
render_bound r keyword none n = record { text = []; args = []; next = n }
render_bound r keyword (some v) n = record {
  text = keyword ++ placeholder r n;
  args = int64 v ∷ [];
  next = n + 1;
}

-- The whole text, from the joins that the loop has written.
unfoldable pub assemble : Renderer → Query → TableSource → Rendered → Statement
assemble r q base j =
    let w = render_clause r (codes " WHERE ") q.predicates j.next in
    let h = render_clause r (codes " HAVING ") q.having w.next in
    let l = render_bound r (codes " LIMIT ") q.limit h.next in
    let o = render_bound r (codes " OFFSET ") q.offset l.next in
    new_statement
      (codes "SELECT "
        ++ ((if q.distinct then codes "DISTINCT " else [])
            ++ (join (codes ", ") (map (render_column r) q.projections)
                ++ (codes " FROM "
                    ++ (render_table r base.ref
                        ++ (j.text
                            ++ (w.text
                                ++ (render_group_by r q.group_by
                                    ++ (h.text
                                        ++ (render_order_by r q.order_by
                                            ++ (l.text ++ o.text)))))))))))
      (j.args ++ (w.args ++ (h.args ++ (l.args ++ o.args)))) q.projections

-- `tables[0]` again: the base table, from which the joins start.
unfoldable pub render_from : Renderer → Query → List TableSource → Result Statement
render_from r q [] = err (panic (codes "index out of range"))
render_from r q (base ∷ ts) = do
  j ← join_loop r (base ∷ ts) (qualifier base.ref ∷ []) q.from.joins 1
  ok (assemble r q base j)

unfoldable pub build : Query → Result Statement
build q = do
  fail_if (is_nil q.projections) (errorf (codes "tiqq: SELECT requires at least one column"))
  fail_if (is_nil q.from.tables) (errorf (codes "tiqq: query requires a source"))
  r ← query_renderer q.from.tables
  distinct_references [] q.from.tables
  validate_columns (codes "SELECT") q.projections (qualifiers q.from.tables)
  validate_predicates (codes "WHERE") q.predicates (qualifiers q.from.tables)
  validate_columns (codes "GROUP BY") q.group_by (qualifiers q.from.tables)
  validate_columns (codes "ORDER BY") (order_columns q.order_by) (qualifiers q.from.tables)
  validate_having q.having (qualifiers q.from.tables)
  validate_grouping q.projections q.group_by q.having (order_columns q.order_by)
  validate_distinct q
  validate_limits r q
  render_from r q q.from.tables

unfoldable pub must_build : Query → Result Statement
unfolding must
must_build q = must (build q)
