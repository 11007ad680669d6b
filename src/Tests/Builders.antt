-- ===== src/Tests/Builders.antt =====
-- The four builders on concrete queries.
use tiqq.Prelude.{
  List, [], ◌∷◌, some, codes, length, ok, ◌≡◌, inl, refl, equal, join, separated, decimal, digits,
  All,
}
use tiqq.Value.{Value, string, pos}
use tiqq.Dialect.{
  Renderer, postgres_renderer, renderer_for, renderer_of, dialect_renderer, name, qualifier,
  render_table, double, quote_identifier, placeholder,
}
use tiqq.Column.{new_column, to, asc, value_of, excluded_assignment}
use tiqq.Predicate.{
  comparison, gte, gt, like, predicate_columns, render_column, placeholders, render_predicate,
  render_conjuncts, render_clause,
}
use tiqq.Predicate.Params.{words, HasKeywords, column_words}
use tiqq.Validate.{
  validate_columns, validate_no_aggregates, validate_predicates, validate_returning,
  render_returning,
}
use tiqq.Scan.{params, numbered}
use tiqq.Statement.Rows.{Found}
use tiqq.Statement.{new_row, Row, Statement, new_statement, record_positions}
use tiqq.Source.Reached.{IsChain, Reached-IsChain, from_table, by_inner, by_left, joined_again}
use tiqq.Source.{
  join_left, joined_source, table_source_of, table_join_source, with_join, join_inner, kind_text,
}
use tiqq.Grouping.{group_keys, any_aggregate, any_predicate_aggregate, validate_grouping}
use tiqq.Join.{
  key_equations, key_groups, relation_predicate_groups, candidates, only_candidate,
  infer_join_conditions, join_conditions, render_on, join_on, join_step, join_loop,
}
use tiqq.Tests.Data.{
  users, orders, col, number, delete_query, update_query, select_query, insert_query,
}
use tiqq.Delete
use tiqq.Update
use tiqq.Select
use tiqq.Insert
use tiqq.Insert.Conflict.{
  check_target, key_set, same_column_set, matches_key, check_assigned, check_conflict,
  validate_conflict, validate_duplicate_key, render_incoming, render_target, render_action,
  render_conflict, render_new_alias, render_duplicate_key,
}
use tiqq.Delete.Builds.{delete_build_iff, delete_build-params}
use tiqq.Update.Builds.{update_build_iff, update_build-params}
use tiqq.Select.Builds.{select_build_iff}
use tiqq.Select.Params.{QueryKeywords, select_build-params}
use tiqq.Insert.Builds.{insert_build_iff}
use tiqq.Select.Rows.{select_build-Found}
use tiqq.Insert.Params.{insert_build-params}

abbrev delete_statement : Statement
delete_statement =
    new_statement (codes "DELETE FROM \"orders\" WHERE \"orders\".\"total\" >= $1 RETURNING \"id\"")
      (number (pos 10) ∷ []) (col "orders" "id" ∷ [])

build-delete_query : Delete.build delete_query ≡ ok delete_statement
unfolding Delete.build Delete.render Delete.returning_columns Delete.where_all Delete.new_delete
    codes equal join separated decimal digits renderer_for renderer_of dialect_renderer name
    qualifier render_table double quote_identifier placeholder new_column comparison gte
    predicate_columns render_column render_predicate render_conjuncts render_clause validate_columns
    validate_no_aggregates validate_predicates validate_returning render_returning new_statement
    record_positions table_source_of
build-delete_query = refl

abbrev update_statement : Statement
update_statement =
    new_statement
      (codes "UPDATE \"orders\" SET \"total\" = $1, \"note\" = $2 WHERE \"orders\".\"total\" > $3")
      (number (pos 5) ∷ string (codes "x") ∷ number (pos 10) ∷ []) []

build-update_query : Update.build update_query ≡ ok update_statement
unfolding Update.build Update.render Update.where_all Update.set_all Update.new_update
    Update.reject_incoming Update.reject_repeated Update.render_assignments codes equal decimal
    digits renderer_for renderer_of dialect_renderer qualifier render_table double quote_identifier
    placeholder new_column to comparison gt predicate_columns render_column render_predicate
    render_conjuncts render_clause validate_columns validate_no_aggregates validate_predicates
    validate_returning render_returning new_statement record_positions table_source_of
build-update_query = refl

abbrev select_statement : Statement
select_statement =
    new_statement
      (codes
        "SELECT \"users\".\"name\", \"orders\".\"total\" FROM \"users\" INNER JOIN \"orders\" ON \"orders\".\"user_id\" = \"users\".\"id\" WHERE \"orders\".\"total\" >= $1 AND \"users\".\"name\" LIKE $2 ORDER BY \"users\".\"name\" ASC LIMIT $3")
      (number (pos 10) ∷ string (codes "A%") ∷ number (pos 3) ∷ [])
      (col "users" "name" ∷ col "orders" "total" ∷ [])

build-select_query : Select.build select_query ≡ ok select_statement
unfolding Select.build Select.limit_to Select.order Select.where_all Select.select Select.new_query
    Select.same_dialect Select.query_renderer Select.distinct_references Select.validate_having
    Select.validate_distinct Select.validate_limits Select.render_group_by Select.render_order_by
    Select.render_bound Select.assemble Select.render_from codes equal join separated decimal digits
    renderer_for renderer_of dialect_renderer name qualifier render_table double quote_identifier
    placeholder new_column asc comparison gte like predicate_columns render_column render_predicate
    render_conjuncts render_clause validate_columns validate_no_aggregates validate_predicates
    new_statement record_positions table_source_of table_join_source with_join join_inner kind_text
    group_keys any_aggregate any_predicate_aggregate validate_grouping key_equations key_groups
    relation_predicate_groups candidates only_candidate infer_join_conditions join_conditions
    render_on join_on join_step join_loop
build-select_query = refl

abbrev insert_statement : Statement
insert_statement =
    new_statement
      (codes
        "INSERT INTO \"users\" (\"id\", \"name\") VALUES ($1, $2), ($3, $4) ON CONFLICT (\"id\") DO UPDATE SET \"name\" = EXCLUDED.\"name\"")
      (number (pos 1) ∷ string (codes "A") ∷ number (pos 2) ∷ string (codes "B") ∷ []) []

build-insert_query : Insert.build insert_query ≡ ok insert_statement
unfolding Insert.build Insert.render Insert.with_conflict_do_update Insert.add_row Insert.new_insert
    Insert.check_values Insert.check_required Insert.find Insert.found_or Insert.in_order
    Insert.check_expected Insert.normalize_row Insert.normalize_rows Insert.render_rows codes equal
    join separated decimal digits renderer_for renderer_of dialect_renderer name qualifier
    render_table double quote_identifier placeholder new_column value_of excluded_assignment
    placeholders validate_returning render_returning new_statement record_positions check_target
    key_set same_column_set matches_key check_assigned check_conflict validate_conflict
    validate_duplicate_key render_incoming render_target render_action render_conflict
    render_new_alias render_duplicate_key
build-insert_query = refl

-- every argument has its placeholder
select_params : params postgres_renderer select_statement.sql ≡ some 1 ∷ some 2 ∷ some 3 ∷ []
unfolding tiqq.Scan.scan codes new_statement
select_params = refl

delete_build_iff_example :
    (r : Renderer) × Delete.Builds.IsValid r delete_query
    × (Delete.render r delete_query ≡ delete_statement)
delete_build_iff_example = (delete_build_iff delete_query delete_statement).0 build-delete_query

update_build_iff_example :
    (r : Renderer) × Update.Builds.IsValid r update_query
    × (Update.render r update_query ≡ update_statement)
update_build_iff_example = (update_build_iff update_query update_statement).0 build-update_query

select_build_iff_example :
    (r : Renderer) × Select.Builds.IsValid r select_query
    × (Select.render_from r select_query select_query.from.tables ≡ ok select_statement)
select_build_iff_example = (select_build_iff select_query select_statement).0 build-select_query

delete_keywords : All (λ p. HasKeywords (words p)) delete_query.predicates
unfolding Delete.returning_columns Delete.where_all Delete.new_delete gte comparison words
    column_words new_column codes
delete_keywords = ((refl, tt), tt)

update_keywords : All (λ p. HasKeywords (words p)) update_query.predicates
unfolding Update.where_all Update.set_all Update.new_update gt comparison words column_words
    new_column codes
update_keywords = ((refl, tt), tt)

delete_renderer : renderer_for delete_query.table.ref ≡ ok postgres_renderer
unfolding Delete.returning_columns Delete.where_all Delete.new_delete table_source_of renderer_for
    renderer_of dialect_renderer
delete_renderer = refl

update_renderer : renderer_for update_query.table.ref ≡ ok postgres_renderer
unfolding Update.where_all Update.set_all Update.new_update table_source_of renderer_for renderer_of
    dialect_renderer
update_renderer = refl

insert_renderer : renderer_for insert_query.table ≡ ok postgres_renderer
unfolding Insert.with_conflict_do_update Insert.add_row Insert.new_insert renderer_for renderer_of
    dialect_renderer
insert_renderer = refl

select_keywords : QueryKeywords select_query
unfolding Select.limit_to Select.order Select.where_all Select.select Select.new_query join_inner
    table_join_source with_join table_source_of asc gte like comparison words column_words
    new_column codes
select_keywords = record {
  selected = (tt, (tt, tt));
  filters = ((refl, tt), ((refl, tt), tt));
  groups = tt;
  group_filters = tt;
  orders = ((refl, tt), tt);
  joins = (tt, tt);
}

delete_build-params_example :
    params postgres_renderer delete_statement.sql
    ≡ numbered postgres_renderer 1 (length delete_statement.args)
delete_build-params_example =
    delete_build-params postgres_renderer delete_query delete_statement delete_renderer
      delete_keywords build-delete_query

update_build-params_example :
    params postgres_renderer update_statement.sql
    ≡ numbered postgres_renderer 1 (length update_statement.args)
update_build-params_example =
    update_build-params postgres_renderer update_query update_statement update_renderer
      update_keywords build-update_query

select_build-params_example :
    (r : Renderer) × Select.Builds.IsValid r select_query
    × (params r select_statement.sql ≡ numbered r 1 (length select_statement.args))
select_build-params_example =
    select_build-params select_query select_statement select_keywords build-select_query

insert_build-params_example :
    params postgres_renderer insert_statement.sql
    ≡ numbered postgres_renderer 1 (length insert_statement.args)
insert_build-params_example =
    insert_build-params postgres_renderer insert_query insert_statement insert_renderer
      build-insert_query

insert_build_iff_example : (r : Renderer) × Insert.Builds.IsValid r insert_query
insert_build_iff_example = (insert_build_iff insert_query).0 (insert_statement, build-insert_query)

abbrev scanned : List Value
scanned = string (codes "A") ∷ number (pos 12) ∷ []

abbrev select_row : Row
select_row = record { statement = select_statement; values = scanned }

new_row-select_statement : new_row select_statement scanned ≡ ok select_row
unfolding new_row new_statement
new_row-select_statement = refl

select_build-Found_example : Found (col "users" "name") select_query.projections scanned select_row
unfolding Select.limit_to Select.order Select.where_all Select.select Select.new_query
select_build-Found_example =
    select_build-Found select_query select_statement scanned select_row build-select_query
      new_row-select_statement (col "users" "name") (inl refl)

-- Users joined with orders, and with orders again.
Reached-IsChain_example :
    IsChain (join_left (joined_source (join_inner (table_join_source users) orders)) orders).source
Reached-IsChain_example = Reached-IsChain _ (
    by_left (joined_source (join_inner (table_join_source users) orders)) orders (
      joined_again (join_inner (table_join_source users) orders)
        (by_inner (table_join_source users) orders (from_table users))))
