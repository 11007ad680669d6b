-- ===== src/Insert.antt =====
-- insert.go: the INSERT builder, and the conflict clauses that the dialect packages postgres, sqlite
-- and mysql add to it (`OnConflict`, `OnDuplicateKey`).
pub mod Conflict
pub mod Rows
pub mod Params
pub mod Builds
use tiqq.Prelude.{
  ℕ, ◌+◌, Bool, true, false, not, ◌&&◌, ◌||◌, List, [], ◌∷◌, ◌++◌, map, Option, none, some, Text,
  codes, decimal, KeySet, has, add, equal, join, length, ◌==◌, if◌then◌else◌, Result, ok, err,
  errorf, ◌>>=◌, ◌>>◌, fail_if,
}
use tiqq.Value.{Value}
use tiqq.Dialect.{Renderer, TableRef, renderer_for, render_table, qualifier, quote_identifier}
use tiqq.Column.{ColumnRef, Assignment, InsertValue, id, column_qualifier, column_name}
use tiqq.Predicate.{Rendered, placeholders}
use tiqq.Validate.{is_nil, validate_returning, render_returning}
use tiqq.Statement.{Statement, new_statement, must}
use tiqq.Insert.Conflict.{
  InsertConflict, validate_conflict, validate_duplicate_key, render_conflict, render_duplicate_key,
  render_new_alias,
}

pub record InsertQuery : Type 0 where
  pub table : TableRef
  pub rows : List (List InsertValue)
  pub insertable : KeySet
  pub required : List Text
  pub unique_keys : List (List Text)
  pub conflict : Option InsertConflict
  pub duplicate : Option (List Assignment)
  pub returning : List ColumnRef
  pub returns : Bool

unfoldable pub new_insert : TableRef → List Text → List Text → List (List Text) → InsertQuery
new_insert t columns needed keys = record {
  table = t;
  rows = [];
  insertable = columns;
  required = needed;
  unique_keys = keys;
  conflict = none;
  duplicate = none;
  returning = [];
  returns = false;
}

unfoldable pub add_row : InsertQuery → List InsertValue → InsertQuery
add_row q vs = record q { rows = q.rows ++ vs ∷ [] }

unfoldable pub returning_columns : InsertQuery → List ColumnRef → InsertQuery
returning_columns q cs = record q { returns = true; returning = cs }

unfoldable pub with_conflict_do_nothing : InsertQuery → List ColumnRef → InsertQuery
with_conflict_do_nothing q cs = record q {
  conflict = some (record { conflict_target = cs; do_nothing = true; assignments = [] });
}

unfoldable pub with_conflict_do_update :
    InsertQuery → List ColumnRef → List Assignment → InsertQuery
with_conflict_do_update q cs xs = record q {
  conflict = some (record { conflict_target = cs; do_nothing = false; assignments = xs });
}

unfoldable pub with_duplicate_key_do_update : InsertQuery → List Assignment → InsertQuery
with_duplicate_key_do_update q xs = record q { duplicate = some xs }

abbrev pub value_name : InsertValue → Text
value_name v = column_name v.target

abbrev pub names : List InsertValue → List Text
names = map value_name

-- The loop over the values of a row: `seen` holds the names so far.
unfoldable pub check_values : InsertQuery → KeySet → List InsertValue → Result (Unit {0})
check_values q seen [] = ok tt
check_values q seen (v ∷ vs) =
    if not (equal (column_qualifier v.target) (qualifier q.table))
    then err
        (errorf (codes "tiqq: INSERT column " ++ (id v.target ++ codes " is not in query scope")))
    else if not (has q.insertable (value_name v))
    then err (errorf (codes "tiqq: column " ++ (id v.target ++ codes " is not insertable")))
    else if has seen (value_name v)
    then err (
        errorf
          (codes "tiqq: INSERT column " ++ (id v.target ++ codes " is specified more than once")))
    else check_values q (value_name v ∷ seen) vs

-- The loop over the required columns. Rows are counted from 1 in messages.
unfoldable pub check_required : InsertQuery → ℕ → KeySet → List Text → Result (Unit {0})
check_required q number seen [] = ok tt
check_required q number seen (k ∷ ks) =
    if not (has seen k)
    then err (
        errorf (
          codes "tiqq: required INSERT column "
          ++ (q.table.table_name
              ++ (codes "." ++ (k ++ (codes " is missing from row " ++ decimal number))))))
    else check_required q number seen ks

-- `valuesByColumn[k]`
unfoldable pub find : Text → List InsertValue → Option InsertValue
find k [] = none
find k (v ∷ vs) = if equal (value_name v) k then some v else find k vs

abbrev mismatch : InsertQuery → ℕ → Text → Text → Text
mismatch q number k why =
    codes "tiqq: INSERT row "
    ++ (decimal number
        ++ (codes " columns do not match the first row: column "
            ++ (q.table.table_name ++ (codes "." ++ (k ++ why)))))

unfoldable pub found_or : InsertQuery → ℕ → Text → Option InsertValue → Result InsertValue
found_or q number k none = err (errorf (mismatch q number k (codes " is missing")))
found_or q number k (some v) = ok v

-- The loop that puts the values of a row in the order of the first row's columns.
unfoldable pub in_order : InsertQuery → ℕ → List InsertValue → List Text → Result (List InsertValue)
unfolding find found_or
in_order q number row [] = ok []
in_order q number row (k ∷ ks) = do
  v ← found_or q number k (find k row)
  vs ← in_order q number row ks
  ok (v ∷ vs)

unfoldable pub check_expected : InsertQuery → ℕ → KeySet → List InsertValue → Result (Unit {0})
check_expected q number first [] = ok tt
check_expected q number first (v ∷ vs) =
    if not (has first (value_name v))
    then err (errorf (mismatch q number (value_name v) (codes " is unexpected")))
    else check_expected q number first vs

-- One round of the loop over the rows; `first` holds the columns of the first row.
unfoldable pub normalize_row :
    InsertQuery → List Text → ℕ → List InsertValue → Result (List InsertValue)
unfolding check_values check_required in_order check_expected
normalize_row q first number row = do
  fail_if (is_nil row) (
      errorf
        (codes "tiqq: INSERT row " ++ (decimal number ++ codes " requires at least one value")))
  check_values q [] row
  check_required q number (names row) q.required
  vs ← in_order q number row first
  check_expected q number first row
  ok vs

unfoldable pub normalize_rows :
    InsertQuery → List Text → ℕ → List (List InsertValue) → Result (List (List InsertValue))
unfolding normalize_row
normalize_rows q first number [] = ok []
normalize_rows q first number (row ∷ rows) = do
  vs ← normalize_row q first number row
  rest ← normalize_rows q first (number + 1) rows
  ok (vs ∷ rest)

-- `query.rows[0]`, if there is one
abbrev pub first_row : List (List InsertValue) → List InsertValue
first_row [] = []
first_row (row ∷ rows) = row

abbrev pub row_values : List InsertValue → List Value
row_values = map (λ v. v.insert_value)

-- The loop that writes the rows; the flag is `rowIndex > 0`.
unfoldable pub render_rows : Renderer → Bool → List (List InsertValue) → ℕ → Rendered
render_rows r later [] n = record { text = []; args = []; next = n }
render_rows r later (row ∷ rows) n =
    let rest = render_rows r true rows (n + length (row_values row)) in
    record {
      text =
          (if later then codes ", " else [])
          ++ (codes "("
              ++ (join (codes ", ") (placeholders r (row_values row) n)
                  ++ (codes ")" ++ rest.text)));
      args = row_values row ++ rest.args;
      next = rest.next;
    }

-- The second half of `Build`, from the rows in order.
unfoldable pub render : Renderer → InsertQuery → List (List InsertValue) → Statement
render r q rows =
    let o = render_rows r false rows 1 in
    let c = render_conflict r q.conflict o.next in
    let d = render_duplicate_key r q.duplicate c.next in
    new_statement
      (codes "INSERT INTO "
        ++ (render_table r q.table
            ++ (codes " ("
                ++ (join (codes ", ")
                      (map (λ v. quote_identifier r (value_name v)) (first_row rows))
                    ++ (codes ") VALUES "
                        ++ (o.text
                            ++ (render_new_alias r q.duplicate
                                ++ (c.text ++ (d.text ++ render_returning r q.returning)))))))))
      (o.args ++ (c.args ++ d.args)) q.returning

abbrev pub is_present {ℓ} : {A : Type ℓ} → Option A → Bool
is_present none = false
is_present (some a) = true

abbrev pub assignments_of : Option (List Assignment) → List Assignment
assignments_of none = []
assignments_of (some xs) = xs

unfoldable pub build : InsertQuery → Result Statement
build q = do
  r ← renderer_for q.table
  fail_if (is_nil (first_row q.rows)) (errorf (codes "tiqq: INSERT requires at least one value"))
  validate_returning r q.table q.returning q.returns
  rows ← normalize_rows q (names (first_row q.rows)) 1 q.rows
  fail_if (is_present q.conflict && not (is_nil (assignments_of q.duplicate)))
      (errorf (codes "tiqq: INSERT cannot combine ON CONFLICT and ON DUPLICATE KEY UPDATE"))
  validate_conflict r (qualifier q.table) q.insertable q.unique_keys q.conflict
  validate_duplicate_key (qualifier q.table) q.insertable q.duplicate
  ok (render r q rows)

unfoldable pub must_build : InsertQuery → Result Statement
unfolding must
must_build q = must (build q)
