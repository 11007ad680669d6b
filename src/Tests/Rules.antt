-- ===== src/Tests/Rules.antt =====
-- The checks and the rows on concrete data.
use tiqq.Prelude.{
  true, false, List, [], ◌∷◌, ◌++◌, some, Text, codes, ok, err, errorf, Succeeds, ◌≡◌, ◌↔◌, inl,
  refl, equal, All, Distinct, Elem, sym, ◌∙◌, KeySet, has, has_iff,
}
use tiqq.Value.{Value, string, pos}
use tiqq.Dialect.{postgres_renderer, qualifier}
use tiqq.Column.{sum, ColumnRef, new_column, count, id, value_of, inserted_assignment}
use tiqq.Statement.{Statement, Row, new_statement, new_row, raw_value}
use tiqq.Statement.Rows.{ids, Found, raw_value-projected, raw_value-not_projected}
use tiqq.Source.{TableSource, table_source_of}
use tiqq.Predicate.{Predicate}
use tiqq.Predicate.{gte, eq, or_all, logical, of_list, logical_expression}
use tiqq.Predicate.Made.Written.{IsWritten, IsMade-IsWritten}
use tiqq.Predicate.Made.{
  IsMade, made_or, made_more, made_none, made_value, made_new, made_sum, by_gte, by_eq,
}
use tiqq.Grouping.{validate_grouping}
use tiqq.Grouping.Accepts.{IsGroupable, used, validate_grouping_iff}
use tiqq.Join.{
  key_equations, key_groups, relation_predicate_groups, candidates, only_candidate,
  infer_join_conditions,
}
use tiqq.Join.Inference.{
  IsCondition, NoKey, infer_join_conditions-IsCondition, infer_join_conditions-none_iff,
}
use tiqq.Insert
use tiqq.Insert.{names, first_row, normalize_rows}
use tiqq.Insert.Rows.{IsRow, AllNormalized, normalize_rows-ok, normalize_rows-total}
use tiqq.Insert.Conflict.{matches_key, validate_conflict, validate_duplicate_key}
use tiqq.Insert.Conflict.Keys.{IsUniqueKey, matches_key_iff}
use tiqq.Insert.Conflict.Accepts.{
  AcceptsConflict, AcceptsDuplicate, validate_conflict_iff, validate_duplicate_key_iff,
}
use tiqq.Tests.Data.{col, number, users, orders, insert_query, row_one, row_two}

-- A projection that names one column twice.
abbrev projection : List ColumnRef
projection = col "u" "id" ∷ col "u" "name" ∷ col "u" "id" ∷ []

abbrev scanned : List Value
scanned = number (pos 1) ∷ string (codes "A") ∷ number (pos 2) ∷ []

abbrev statement : Statement
statement = new_statement (codes "SELECT") [] projection

abbrev row : Row
row = record { statement = statement; values = scanned }

made : new_row statement scanned ≡ ok row
unfolding new_row new_statement
made = refl

raw_value-projected_example : Found (col "u" "id") projection scanned row
raw_value-projected_example =
    raw_value-projected (codes "SELECT") [] projection scanned made (col "u" "id") (inl refl)

absent : (ks : KeySet) (k : Text) → has ks k ≡ false → ¬ Elem k ks
absent ks k h m = cc (sym h ∙ (has_iff ks k).1 m)

no_age : ¬ Elem (id (col "u" "age")) (ids projection)
unfolding new_column codes equal
no_age = absent (ids projection) (id (col "u" "age")) refl

raw_value-not_projected_example :
    raw_value row (col "u" "age")
    ≡ err (
        errorf (codes "tiqq: column " ++ (id (col "u" "age") ++ codes " is not in the projection")))
raw_value-not_projected_example =
    raw_value-not_projected (codes "SELECT") [] projection scanned made (col "u" "age") no_age

validate_grouping_iff_example :
    (validate_grouping (col "u" "name" ∷ count (col "u" "id") ∷ []) (col "u" "name" ∷ []) [] []
      ≡ ok tt)
    ↔ IsGroupable (col "u" "name" ∷ []) (used (col "u" "name" ∷ count (col "u" "id") ∷ []) [] [])
validate_grouping_iff_example =
    validate_grouping_iff (col "u" "name" ∷ count (col "u" "id") ∷ []) [] [] (col "u" "name" ∷ [])

abbrev tables : List TableSource
tables = table_source_of users ∷ table_source_of orders ∷ []

abbrev inferred : List Predicate
inferred =
    key_equations (table_source_of orders) (table_source_of users) (codes "user_id" ∷ [])
      (codes "id" ∷ [])

inferred_ok :
    infer_join_conditions tables (codes "users" ∷ []) (table_source_of orders) ≡ ok inferred
unfolding infer_join_conditions candidates only_candidate relation_predicate_groups key_groups
    key_equations table_source_of qualifier equal codes
inferred_ok = refl

infer_join_conditions-IsCondition_example :
    IsCondition (qualifier (table_source_of orders).ref ∷ codes "users" ∷ []) inferred
infer_join_conditions-IsCondition_example =
    infer_join_conditions-IsCondition (codes "users" ∷ []) (table_source_of orders) tables inferred
      inferred_ok

infer_join_conditions-none_iff_example :
    (infer_join_conditions tables (codes "users" ∷ []) (table_source_of users)
      ≡ err (errorf (codes "tiqq: JOIN requires ON because no foreign key matches")))
    ↔ NoKey (codes "users" ∷ []) (table_source_of users) tables
infer_join_conditions-none_iff_example =
    infer_join_conditions-none_iff (codes "users" ∷ []) (table_source_of users) tables

-- The values of the second row are put in the order of the first.
normalized :
    normalize_rows insert_query (names row_one) 1 (row_one ∷ row_two ∷ [])
    ≡ ok (
        row_one
        ∷ (value_of (col "users" "id") (number (pos 2))
            ∷ value_of (col "users" "name") (string (codes "B"))
            ∷ [])
        ∷ [])
unfolding normalize_rows Insert.normalize_row Insert.check_values Insert.check_required
    Insert.in_order Insert.find Insert.found_or Insert.check_expected Insert.with_conflict_do_update
    Insert.add_row Insert.new_insert qualifier value_of new_column equal codes
normalized = refl

normalize_rows-ok_example :
    All (IsRow insert_query (names row_one)) (row_one ∷ row_two ∷ [])
    × AllNormalized (names row_one) (row_one ∷ row_two ∷ []) (
        row_one
        ∷ (value_of (col "users" "id") (number (pos 2))
            ∷ value_of (col "users" "name") (string (codes "B"))
            ∷ [])
        ∷ [])
normalize_rows-ok_example =
    normalize_rows-ok insert_query (names row_one) 1 (row_one ∷ row_two ∷ [])
      (row_one
        ∷ (value_of (col "users" "id") (number (pos 2))
            ∷ value_of (col "users" "name") (string (codes "B"))
            ∷ [])
        ∷ [])
      normalized

normalize_rows-total_example :
    Succeeds (normalize_rows insert_query (names row_one) 1 (row_one ∷ row_two ∷ []))
normalize_rows-total_example =
    normalize_rows-total insert_query (names row_one) 1 (row_one ∷ row_two ∷ [])
      normalize_rows-ok_example.0

abbrev pair : KeySet
pair = codes "b" ∷ codes "a" ∷ []

pair-Distinct : Distinct pair
unfolding codes equal
pair-Distinct = (absent (codes "a" ∷ []) (codes "b") refl, (absent [] (codes "a") refl, tt))

matches_key_iff_example :
    (matches_key ((codes "id" ∷ []) ∷ (codes "a" ∷ codes "b" ∷ []) ∷ []) pair ≡ true)
    ↔ IsUniqueKey ((codes "id" ∷ []) ∷ (codes "a" ∷ codes "b" ∷ []) ∷ []) pair
matches_key_iff_example =
    matches_key_iff ((codes "id" ∷ []) ∷ (codes "a" ∷ codes "b" ∷ []) ∷ []) pair pair-Distinct

validate_conflict_iff_example :
    (validate_conflict postgres_renderer
        (codes "users")
        (codes "id" ∷ codes "name" ∷ [])
        ((codes "id" ∷ []) ∷ [])
        insert_query.conflict
      ≡ ok tt)
    ↔ AcceptsConflict postgres_renderer
        (codes "users")
        (codes "id" ∷ codes "name" ∷ [])
        ((codes "id" ∷ []) ∷ [])
        insert_query.conflict
validate_conflict_iff_example =
    validate_conflict_iff postgres_renderer (codes "users") (codes "id" ∷ codes "name" ∷ [])
      ((codes "id" ∷ []) ∷ []) insert_query.conflict

validate_duplicate_key_iff_example :
    (validate_duplicate_key
        (codes "users")
        (codes "name" ∷ [])
        (some (inserted_assignment (col "users" "name") ∷ []))
      ≡ ok tt)
    ↔ AcceptsDuplicate
        (codes "users")
        (codes "name" ∷ [])
        (some (inserted_assignment (col "users" "name") ∷ []))
validate_duplicate_key_iff_example =
    validate_duplicate_key_iff (codes "users") (codes "name" ∷ [])
      (some (inserted_assignment (col "users" "name") ∷ []))

abbrev alternatives : List Predicate
alternatives =
    gte (sum (col "orders" "total")) (number (pos 10))
    ∷ eq (col "orders" "id") (number (pos 1))
    ∷ []

abbrev disjunction : Predicate
disjunction = logical_expression (codes "OR") (of_list alternatives)

disjunction_made : or_all alternatives ≡ ok disjunction
unfolding or_all logical
disjunction_made = refl

abbrev disjunction_words : List Text
disjunction_words = codes "OR" ∷ codes ">=" ∷ codes "SUM" ∷ codes "=" ∷ []

abbrev disjunction_values : List Value
disjunction_values = number (pos 10) ∷ number (pos 1) ∷ []

disjunction-IsMade : IsMade disjunction disjunction_words disjunction_values
disjunction-IsMade =
    made_or alternatives
      (made_more _ _ (made_value gte _ _ _ by_gte (made_sum (made_new _ _)))
        (made_more _ _ (made_value eq _ _ _ by_eq (made_new _ _)) made_none))
      disjunction_made

IsMade-IsWritten_example : IsWritten disjunction disjunction_words disjunction_values
IsMade-IsWritten_example =
    IsMade-IsWritten disjunction disjunction_words disjunction_values disjunction-IsMade
