-- ===== src/Introspect/Sqlite.antt =====
-- introspect/sqlite/sqlite.go: the schema of a SQLite database, from the answers to its pragmas. The
-- numbers that these give are natural numbers.
pub mod Resolve
pub mod Ranges
use tiqq.Prelude.{
  text_before, ℕ, ◌+◌, Bool, true, false, not, ◌&&◌, ◌||◌, List, [], ◌∷◌, ◌++◌, map, Option, none,
  some, Text, codes, decimal, equal, is_empty, length, ltb, leb, ◌==◌, if◌then◌else◌, Result, ok,
  err, errorf, Error, ◌>>=◌, ◌>>◌, prefixed, keys_of, lookup, put, value_or, sort,
}
use tiqq.Codegen.Words.{to_lower, trim_space, equal_fold}
use tiqq.Schema.{SchemaDialect, Key, Column, ForeignKey, Table, Schema}
use tiqq.Introspect.{Rows, each_row, map_result}

-- The rows of the pragmas.
pub record ColumnRow : Type 0 where
  pub cid : ℕ
  pub column_name : Text
  pub db_type : Text
  pub not_null : ℕ
  pub default_value : Option Text
  pub primary_position : ℕ
  pub hidden : ℕ

pub record IndexRow : Type 0 where
  pub sequence : ℕ
  pub index_name : Text
  pub unique : ℕ
  pub origin : Text
  pub partial : ℕ

pub record IndexColumnRow : Type 0 where
  pub sequence : ℕ
  pub cid : ℕ
  pub indexed : Option Text

pub record ForeignKeyRow : Type 0 where
  pub key_id : ℕ
  pub sequence : ℕ
  pub referenced_table : Text
  pub column : Text
  pub referenced_column : Option Text
  pub on_update : Text
  pub on_delete : Text
  pub match_kind : Text

-- What `QueryContext` answers to a query text.
pub record Database : Type 0 where
  pub table_rows : Text → Result (Rows Text)
  pub column_rows : Text → Result (Rows ColumnRow)
  pub index_rows : Text → Result (Rows IndexRow)
  pub index_column_rows : Text → Result (Rows IndexColumnRow)
  pub foreign_key_rows : Text → Result (Rows ForeignKeyRow)

abbrev pub schema_main : Text
schema_main = codes "main"

abbrev tables_sql : Text
tables_sql =
    codes
      "SELECT name FROM sqlite_schema WHERE type = 'table' AND name NOT LIKE 'sqlite_%' ORDER BY name"

-- `strings.ReplaceAll` of each quote by two.
unfoldable pub double_quotes : Text → Text
double_quotes [] = []
double_quotes (c ∷ s) =
    let rest = double_quotes s in if c == b'"' then b'"' ∷ b'"' ∷ rest else c ∷ rest

unfoldable pub pragma : Text → Text → Text
unfolding double_quotes
pragma name value =
    codes "PRAGMA " ++ (name ++ (codes "(\"" ++ (double_quotes value ++ codes "\")")))

unfoldable pub read_table_names : Database → Result (List Text)
unfolding each_row
read_table_names db = do
  rows ← prefixed (codes "introspect SQLite tables: ") (db.table_rows tables_sql)
  names ← each_row (codes "scan SQLite table: ") (λ ns n. ns ++ n ∷ []) [] rows.scans
  prefixed (codes "iterate SQLite tables: ") rows.iteration
  ok names

-- The columns of a table, and the map from positions in the primary key to names.
pub record Found : Type 0 where
  pub found_columns : List Column
  pub primary_columns : List (ℕ × Text)

unfoldable pub read_column : Found → ColumnRow → Found
unfolding to_lower trim_space put
read_column f r =
    let c : Column = record {
      column_name = r.column_name;
      db_type = to_lower (trim_space r.db_type);
      nullable = r.not_null == 0 && r.primary_position == 0;
      default = r.default_value;
      generated = not (r.hidden == 0);
      identity = false;
      unsigned = false;
    } in
    record {
      found_columns = f.found_columns ++ c ∷ [];
      primary_columns =
          if ltb 0 r.primary_position
          then put (λ i j. i == j) r.primary_position r.column_name f.primary_columns
          else f.primary_columns;
    }

-- The column of a primary key of one column of type INTEGER is an identity.
unfoldable pub identify : List Text → Column → Column
unfolding equal equal_fold codes
identify (only ∷ []) c =
    if equal c.column_name only && equal_fold c.db_type (codes "integer")
    then record c { identity = true }
    else c
identify _ c = c

unfoldable pub is_candidate : IndexRow → Bool
unfolding equal codes
is_candidate r = not (r.unique == 0) && not (equal r.origin (codes "pk")) && r.partial == 0

abbrev pub collect_index : List Text → IndexRow → List Text
collect_index ns r = if is_candidate r then ns ++ r.index_name ∷ [] else ns

-- The map from positions in an index to names, unless an expression is indexed.
abbrev pub collect_column : Bool × List (ℕ × Text) → IndexColumnRow → Bool × List (ℕ × Text)
collect_column (valid, m) r = elim (r.indexed) [
  | none ↦ (false, m)
  | some n ↦ (valid, put (λ i j. i == j) (r.sequence + 1) n m)
]

-- A row of a foreign key goes to the key with its id, which the first such row makes.
unfoldable pub collect_key : Text → List (ℕ × ForeignKey) → ForeignKeyRow → List (ℕ × ForeignKey)
unfolding lookup put decimal
collect_key name m r =
    let fresh : ForeignKey = record {
      foreign_name = name ++ (codes "_fk_" ++ decimal r.key_id);
      foreign_columns = [];
      referenced_schema = schema_main;
      referenced_table = r.referenced_table;
      referenced_columns = [];
    } in
    let k = value_or fresh (lookup (λ i j. i == j) r.key_id m) in
    put (λ i j. i == j) r.key_id
      (record k {
        foreign_columns = k.foreign_columns ++ r.column ∷ [];
        referenced_columns = k.referenced_columns ++ value_or [] r.referenced_column ∷ [];
      })
      m

abbrev pub no_columns : Found
no_columns = record { found_columns = []; primary_columns = [] }

-- A key of no columns is none.
abbrev add_key : Text → List Text → List Key → List Key
add_key name [] keys = keys
add_key name (c ∷ cs) keys = record { key_name = name; key_columns = c ∷ cs } ∷ keys

abbrev pub primary : Text → List Text → Option Key
primary name [] = none
primary name (c ∷ cs) = some (record { key_name = name; key_columns = c ∷ cs })

abbrev zero_key : ForeignKey
zero_key = record {
  foreign_name = [];
  foreign_columns = [];
  referenced_schema = [];
  referenced_table = [];
  referenced_columns = [];
}

-- The places at which a run ranges over a map: the primary key of a table, an index of a table, and
-- the foreign keys of a table, with the places of the table and of the index in their loops. Each is
-- reached at most once.
pub data Place : Type 0 where
  primary_place : ℕ → Place
  index_place : ℕ → ℕ → Place
  foreign_place : ℕ → Place

-- `visited` gives the keys of the map at a place, in the order in which Go's `range` visits them there.
module _ (visited : Place → List ℕ → List ℕ) where
  unfoldable pub ordered_columns : Place → List (ℕ × Text) → List Text
  unfolding lookup sort
  ordered_columns place m =
      map (λ (i : ℕ). value_or [] (lookup (λ i j. i == j) i m))
        (sort leb (visited place (keys_of m)))

  unfoldable pub read_index_columns : Place → Database → Text → Text → Result (List Text)
  unfolding each_row pragma put ordered_columns
  read_index_columns place db table_name index_name =
      let at = index_name ++ (codes " for " ++ (table_name ++ codes ": ")) in
      do
        rows ←
            prefixed (codes "introspect SQLite index " ++ at)
              (db.index_column_rows (pragma (codes "index_info") index_name))
        found ← each_row (codes "scan SQLite index " ++ at) collect_column (true, []) rows.scans
        prefixed (codes "iterate SQLite index " ++ at) rows.iteration
        ok (if not found.0 then [] else ordered_columns place found.1)

  -- The keys of the indexes from the `k`th on, in their order; an index that has no columns is no key.
  unfoldable pub index_keys : ℕ → ℕ → Database → Text → List Text → Result (List Key)
  unfolding read_index_columns
  index_keys n k db name [] = ok []
  index_keys n k db name (i ∷ is) = do
    columns ← read_index_columns (index_place n k) db name i
    rest ← index_keys n (k + 1) db name is
    ok (add_key i columns rest)

  unfoldable pub read_unique_keys : ℕ → Database → Text → Result (List Key)
  unfolding each_row pragma is_candidate sort text_before index_keys
  read_unique_keys n db name =
      let at = name ++ codes ": " in
      do
        rows ←
            prefixed (codes "introspect SQLite indexes for " ++ at)
              (db.index_rows (pragma (codes "index_list") name))
        indexes ← each_row (codes "scan SQLite index for " ++ at) collect_index [] rows.scans
        prefixed (codes "close SQLite indexes for " ++ at) rows.closing
        prefixed (codes "iterate SQLite indexes for " ++ at) rows.iteration
        index_keys n 0 db name (sort text_before indexes)

  unfoldable pub read_foreign_keys : ℕ → Database → Text → Result (List ForeignKey)
  unfolding each_row pragma collect_key lookup sort
  read_foreign_keys n db name =
      let at = name ++ codes ": " in
      do
        rows ←
            prefixed (codes "introspect SQLite foreign keys for " ++ at)
              (db.foreign_key_rows (pragma (codes "foreign_key_list") name))
        keys ←
            each_row (codes "scan SQLite foreign key for " ++ at) (collect_key name) [] rows.scans
        prefixed (codes "iterate SQLite foreign keys for " ++ at) rows.iteration
        ok (
            map (λ (i : ℕ). value_or zero_key (lookup (λ i j. i == j) i keys))
              (sort leb (visited (foreign_place n) (keys_of keys))))

  unfoldable pub read_table : ℕ → Database → Text → Result Table
  unfolding each_row pragma read_column identify ordered_columns read_unique_keys read_foreign_keys
  read_table n db name =
      let at = name ++ codes ": " in
      do
        rows ←
            prefixed (codes "introspect SQLite columns for " ++ at)
              (db.column_rows (pragma (codes "table_xinfo") name))
        found ← each_row (codes "scan SQLite column for " ++ at) read_column no_columns rows.scans
        prefixed (codes "close SQLite columns for " ++ at) rows.closing
        prefixed (codes "iterate SQLite columns for " ++ at) rows.iteration
        unique ← read_unique_keys n db name
        foreign ← read_foreign_keys n db name
        ok (record {
          schema = schema_main;
          table_name = name;
          columns =
              map (identify (ordered_columns (primary_place n) found.primary_columns))
                found.found_columns;
          primary_key =
              primary (name ++ codes "_pkey")
                (ordered_columns (primary_place n) found.primary_columns);
          unique_keys = unique;
          foreign_keys = foreign;
        })

  -- The loop over the names of the tables, from the `n`th on.
  unfoldable pub read_tables : ℕ → Database → List Text → Result (List Table)
  unfolding read_table
  read_tables n db [] = ok []
  read_tables n db (name ∷ names) = do
    t ← read_table n db name
    ts ← read_tables (n + 1) db names
    ok (t ∷ ts)

-- `tables`: the table with a name is the last one.
abbrev pub tables_by_name : List (Text × Table) → List Table → List (Text × Table)
tables_by_name m [] = m
tables_by_name m (t ∷ ts) = tables_by_name (put equal t.table_name t m) ts

unfoldable pub any_empty : List Text → Bool
any_empty [] = false
any_empty (c ∷ cs) = is_empty c || any_empty cs

-- The primary key of a table, if there is a table and it has one.
abbrev pub primary_of : Option Table → Option Key
primary_of none = none
primary_of (some t) = t.primary_key

abbrev pub unresolved : ForeignKey → Error
unresolved k = errorf (
    codes "introspect SQLite foreign key "
    ++ (k.foreign_name ++ codes ": omitted referenced columns do not match a primary key"))

unfoldable pub fill_key : ForeignKey → Option Key → Result ForeignKey
fill_key k none = err (unresolved k)
fill_key k (some p) =
    if length p.key_columns == length k.foreign_columns
    then ok (record k { referenced_columns = p.key_columns })
    else err (unresolved k)

unfoldable pub resolve_key : List (Text × Table) → ForeignKey → Result ForeignKey
unfolding any_empty fill_key lookup equal
resolve_key m k =
    if any_empty k.referenced_columns
    then fill_key k (primary_of (lookup equal k.referenced_table m))
    else ok k

unfoldable pub resolve_table : List (Text × Table) → Table → Result Table
unfolding map_result resolve_key
resolve_table m t = do
  keys ← map_result (resolve_key m) t.foreign_keys
  ok (record t { foreign_keys = keys })

unfoldable pub resolve_referenced_columns : List Table → Result (List Table)
unfolding map_result resolve_table put equal
resolve_referenced_columns ts = map_result (resolve_table (tables_by_name [] ts)) ts

unfoldable pub introspect : (Place → List ℕ → List ℕ) → Database → Result Schema
unfolding read_table_names read_tables resolve_referenced_columns
introspect visited db = do
  names ← read_table_names db
  found ← read_tables visited 0 db names
  resolved ← resolve_referenced_columns found
  ok (record { dialect = SchemaDialect.sqlite; schema_name = schema_main; tables = resolved })
