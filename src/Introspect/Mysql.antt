-- ===== src/Introspect/Mysql.antt =====
-- introspect/mysql/mysql.go: the schema of a MySQL database, from rows of its information schema. What
-- `range` visits is a parameter, one for each loop.
pub mod Keys
use tiqq.Prelude.{
  ℕ, Bool, false, not, ◌||◌, List, [], ◌∷◌, ◌++◌, Option, none, some, Text, codes, equal, is_empty,
  if◌then◌else◌, Result, ok, ◌>>=◌, ◌>>◌, prefixed, keys_of, lookup, put, value_or,
}
use tiqq.Codegen.Words.{to_lower, contains}
use tiqq.Schema.{SchemaDialect, Key, Column, Table, Schema}
use tiqq.Introspect.{each_row}
use tiqq.Introspect.Tables.{
  Tables, no_tables, index_of, update_at, collect_columns, constraint_id, set_primary,
  append_unique, KeyRow, Database, add_key_column, new_key, collect_foreign, attach_foreign,
}

pub record ColumnRow : Type 0 where
  pub table_name : Text
  pub column_name : Text
  pub data_type : Text
  pub is_nullable : Text
  pub column_default : Option Text
  pub extra : Text
  pub generation_expression : Option Text
  pub column_type : Text

-- A generation expression that is neither NULL nor empty.
abbrev has_expression : Option Text → Bool
has_expression none = false
has_expression (some e) = not (is_empty e)

unfoldable pub column_of : ColumnRow → Column
unfolding equal codes to_lower contains
column_of r =
    let lower_extra = to_lower r.extra in
    record {
      column_name = r.column_name;
      db_type = r.data_type;
      nullable = equal r.is_nullable (codes "YES");
      default = r.column_default;
      generated =
          has_expression r.generation_expression || contains lower_extra (codes "generated");
      identity = contains lower_extra (codes "auto_increment");
      unsigned = contains (to_lower r.column_type) (codes " unsigned");
    }

abbrev columns_sql : Text
columns_sql =
    (codes "\nSELECT table_name, column_name, data_type, is_nullable, column_default,"
      ++ (codes "\n       extra, generation_expression, column_type"
          ++ (codes "\nFROM information_schema.columns"
              ++ (codes "\nWHERE table_schema = ?"
                  ++ codes "\nORDER BY table_name, ordinal_position"))))

abbrev keys_sql : Text
keys_sql =
    (codes "\nSELECT tc.table_name, tc.constraint_name, tc.constraint_type, kcu.column_name"
      ++ (codes "\nFROM information_schema.table_constraints tc"
          ++ (codes "\nJOIN information_schema.key_column_usage kcu"
              ++ (codes "\n  ON kcu.constraint_schema = tc.constraint_schema"
                  ++ (codes "\n AND kcu.constraint_name = tc.constraint_name"
                      ++ (codes "\n AND kcu.table_name = tc.table_name"
                          ++ (codes
                                "\nWHERE tc.table_schema = ? AND tc.constraint_type IN ('PRIMARY KEY', 'UNIQUE')"
                              ++ codes
                                  "\nORDER BY tc.table_name, tc.constraint_name, kcu.ordinal_position")))))))

abbrev foreign_keys_sql : Text
foreign_keys_sql =
    (codes "\nSELECT table_name, constraint_name, column_name,"
      ++ (codes "\n       referenced_table_schema, referenced_table_name, referenced_column_name"
          ++ (codes "\nFROM information_schema.key_column_usage"
              ++ (codes "\nWHERE table_schema = ? AND referenced_table_name IS NOT NULL"
                  ++ codes "\nORDER BY table_name, constraint_name, ordinal_position"))))

-- An entry of the maps `byName`, `kinds` and `owners`.
pub record KeyEntry : Type 0 where
  pub kind : Text
  pub owner : Text
  pub key : Key

abbrev zero_entry : KeyEntry
zero_entry = record { kind = []; owner = []; key = new_key [] }

unfoldable pub collect_key : List (Text × KeyEntry) → KeyRow → List (Text × KeyEntry)
unfolding lookup put equal
collect_key m r =
    let id = constraint_id r.table_name r.name in
    let e =
      value_or (record { kind = r.kind; owner = r.table_name; key = new_key r.name })
        (lookup equal id m) in
    put equal id (record e { key = add_key_column r.column e.key }) m

-- The loop `for id, key := range byName` over the ids in the order in which it visits them.
unfoldable pub attach_keys :
    List (Text × ℕ) → List (Text × KeyEntry) → List Text → List Table → Result (List Table)
unfolding lookup equal codes index_of update_at
attach_keys index m [] ts = ok ts
attach_keys index m (id ∷ ids) ts =
    let e = value_or zero_entry (lookup equal id m) in
    update_at (index_of index e.owner)
      (if equal e.kind (codes "PRIMARY KEY") then set_primary e.key else append_unique e.key) ts
    >>= (λ (us : List Table). attach_keys index m ids us)

-- `visited` gives the keys of the map of a loop in an order in which `range` visits them there.
module _ (visited : List Text → List Text) where
  unfoldable pub read_keys : Database ColumnRow → Text → Tables → Result (List Table)
  unfolding each_row collect_key attach_keys
  read_keys db schema_name f = do
    rows ← prefixed (codes "introspect MySQL keys: ") (db.key_rows keys_sql schema_name)
    keys ← each_row (codes "scan MySQL key: ") collect_key [] rows.scans
    prefixed (codes "iterate MySQL keys: ") rows.iteration
    attach_keys f.index keys (visited (keys_of keys)) f.list

  unfoldable pub read_foreign_keys : Database ColumnRow → Text → Tables → Result (List Table)
  unfolding each_row collect_foreign attach_foreign
  read_foreign_keys db schema_name f = do
    rows ←
        prefixed (codes "introspect MySQL foreign keys: ")
          (db.foreign_key_rows foreign_keys_sql schema_name)
    keys ← each_row (codes "scan MySQL foreign key: ") collect_foreign [] rows.scans
    prefixed (codes "iterate MySQL foreign keys: ") rows.iteration
    attach_foreign f.index keys (visited (keys_of keys)) f.list

-- The orders are those of the two loops.
unfoldable pub introspect :
    (List Text → List Text) → (List Text → List Text) → Database ColumnRow → Text → Result Schema
unfolding collect_columns read_keys read_foreign_keys column_of
introspect visited_keys visited_foreign db name = do
  rows ← prefixed (codes "introspect MySQL columns: ") (db.column_rows columns_sql name)
  found ←
      collect_columns (codes "scan MySQL column: ") name (λ (r : ColumnRow). r.table_name) column_of
        no_tables rows.scans
  prefixed (codes "close MySQL columns: ") rows.closing
  prefixed (codes "iterate MySQL columns: ") rows.iteration
  with_keys ← read_keys visited_keys db name found
  all ← read_foreign_keys visited_foreign db name (record found { list = with_keys })
  ok (record { dialect = SchemaDialect.mysql; schema_name = name; tables = all })
