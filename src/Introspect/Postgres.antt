-- ===== src/Introspect/Postgres.antt =====
-- introspect/postgres/postgres.go: the schema of a PostgreSQL database, from rows of its information schema. What
-- `range` visits is a parameter, one for each loop.
pub mod Keys
use tiqq.Prelude.{
  ℕ, false, not, List, [], ◌∷◌, ◌++◌, Option, none, some, Text, codes, equal, ◌==◌, if◌then◌else◌,
  Result, ok, ◌>>=◌, ◌>>◌, prefixed, keys_of, lookup, put, value_or,
}
use tiqq.Schema.{SchemaDialect, Key, Column, Table, Schema}
use tiqq.Introspect.{each_row}
use tiqq.Introspect.Tables.{
  Tables, no_tables, index_of, update_at, collect_columns, constraint_id, set_primary,
  append_unique, KeyRow, Database, add_key_column, new_key, collect_foreign, attach_foreign,
}

pub record ColumnRow : Type 0 where
  pub table_name : Text
  pub column_name : Text
  pub udt_name : Text
  pub is_nullable : Text
  pub column_default : Option Text
  pub is_identity : Text
  pub is_generated : Text

unfoldable pub column_of : ColumnRow → Column
unfolding equal codes
column_of r = record {
  column_name = r.column_name;
  db_type = r.udt_name;
  nullable = equal r.is_nullable (codes "YES");
  default = r.column_default;
  generated = not (equal r.is_generated (codes "NEVER"));
  identity = equal r.is_identity (codes "YES");
  unsigned = false;
}

abbrev columns_sql : Text
columns_sql =
    (codes "\nSELECT table_name, column_name, udt_name, is_nullable, column_default,"
      ++ (codes "\n       is_identity, is_generated"
          ++ (codes "\nFROM information_schema.columns"
              ++ (codes "\nWHERE table_schema = $1"
                  ++ codes "\nORDER BY table_name, ordinal_position"))))

abbrev keys_sql : Text
keys_sql =
    (codes "\nSELECT tc.table_name, tc.constraint_name, tc.constraint_type, kcu.column_name"
      ++ (codes "\nFROM information_schema.table_constraints tc"
          ++ (codes "\nJOIN information_schema.key_column_usage kcu"
              ++ (codes "\n  ON kcu.constraint_schema = tc.constraint_schema"
                  ++ (codes "\n AND kcu.constraint_name = tc.constraint_name"
                      ++ (codes "\n AND kcu.table_name = tc.table_name"
                          ++ (codes
                                "\nWHERE tc.table_schema = $1 AND tc.constraint_type IN ('PRIMARY KEY', 'UNIQUE')"
                              ++ codes
                                  "\nORDER BY tc.table_name, tc.constraint_name, kcu.ordinal_position")))))))

abbrev foreign_keys_sql : Text
foreign_keys_sql =
    (codes "\nSELECT fk.table_name, fk.constraint_name, fkc.column_name,"
      ++ (codes "\n       pk.table_schema, pk.table_name, pkc.column_name"
          ++ (codes "\nFROM information_schema.table_constraints fk"
              ++ (codes "\nJOIN information_schema.key_column_usage fkc"
                  ++ (codes
                        "\n  ON fkc.constraint_schema = fk.constraint_schema AND fkc.constraint_name = fk.constraint_name"
                      ++ (codes "\nJOIN information_schema.referential_constraints rc"
                          ++ (codes
                                "\n  ON rc.constraint_schema = fk.constraint_schema AND rc.constraint_name = fk.constraint_name"
                              ++ (codes "\nJOIN information_schema.table_constraints pk"
                                  ++ (codes
                                        "\n  ON pk.constraint_schema = rc.unique_constraint_schema AND pk.constraint_name = rc.unique_constraint_name"
                                      ++ (codes "\nJOIN information_schema.key_column_usage pkc"
                                          ++ (codes
                                                "\n  ON pkc.constraint_schema = pk.constraint_schema AND pkc.constraint_name = pk.constraint_name"
                                              ++ (codes
                                                    "\n AND pkc.ordinal_position = fkc.position_in_unique_constraint"
                                                  ++ (codes
                                                        "\nWHERE fk.table_schema = $1 AND fk.constraint_type = 'FOREIGN KEY'"
                                                      ++ codes
                                                          "\nORDER BY fk.table_name, fk.constraint_name, fkc.ordinal_position")))))))))))))

-- An entry of the maps `byName` and `keyTypes`.
pub record KeyEntry : Type 0 where
  pub kind : Text
  pub key : Key

abbrev zero_entry : KeyEntry
zero_entry = record { kind = []; key = new_key [] }

unfoldable pub collect_key : List (Text × KeyEntry) → KeyRow → List (Text × KeyEntry)
unfolding lookup put equal
collect_key m r =
    let id = constraint_id r.table_name r.name in
    let e = value_or (record { kind = r.kind; key = new_key r.name }) (lookup equal id m) in
    put equal id (record e { key = add_key_column r.column e.key }) m

abbrev pub prepend : ℕ → Option Text → Option Text
prepend c none = none
prepend c (some s) = some (c ∷ s)

abbrev pub before_nul : Text → Option Text
before_nul [] = none
before_nul (c ∷ s) = let rest = before_nul s in if c == 0 then some [] else prepend c rest

-- The text in front of the first NUL, or none where there is no NUL.
unfoldable pub owner_of : Text → Text
owner_of id = value_or [] (before_nul id)

-- The loop `for id, key := range byName` over the ids in the order in which it visits them.
unfoldable pub attach_keys :
    List (Text × ℕ) → List (Text × KeyEntry) → List Text → List Table → Result (List Table)
unfolding lookup equal codes index_of update_at owner_of
attach_keys index m [] ts = ok ts
attach_keys index m (id ∷ ids) ts =
    let e = value_or zero_entry (lookup equal id m) in
    update_at (index_of index (owner_of id))
      (if equal e.kind (codes "PRIMARY KEY") then set_primary e.key else append_unique e.key) ts
    >>= (λ (us : List Table). attach_keys index m ids us)

-- `visited` gives the keys of the map of a loop in an order in which `range` visits them there.
module _ (visited : List Text → List Text) where
  unfoldable pub read_keys : Database ColumnRow → Text → Tables → Result (List Table)
  unfolding each_row collect_key attach_keys
  read_keys db schema_name f = do
    rows ← prefixed (codes "introspect keys: ") (db.key_rows keys_sql schema_name)
    keys ← each_row (codes "scan key: ") collect_key [] rows.scans
    prefixed (codes "iterate keys: ") rows.iteration
    attach_keys f.index keys (visited (keys_of keys)) f.list

  unfoldable pub read_foreign_keys : Database ColumnRow → Text → Tables → Result (List Table)
  unfolding each_row collect_foreign attach_foreign
  read_foreign_keys db schema_name f = do
    rows ←
        prefixed (codes "introspect foreign keys: ")
          (db.foreign_key_rows foreign_keys_sql schema_name)
    keys ← each_row (codes "scan foreign key: ") collect_foreign [] rows.scans
    prefixed (codes "iterate foreign keys: ") rows.iteration
    attach_foreign f.index keys (visited (keys_of keys)) f.list

-- The orders are those of the two loops.
unfoldable pub introspect :
    (List Text → List Text) → (List Text → List Text) → Database ColumnRow → Text → Result Schema
unfolding collect_columns read_keys read_foreign_keys column_of
introspect visited_keys visited_foreign db name = do
  rows ← prefixed (codes "introspect columns: ") (db.column_rows columns_sql name)
  found ←
      collect_columns (codes "scan column: ") name (λ (r : ColumnRow). r.table_name) column_of
        no_tables rows.scans
  prefixed (codes "close columns: ") rows.closing
  prefixed (codes "iterate columns: ") rows.iteration
  with_keys ← read_keys visited_keys db name found
  all ← read_foreign_keys visited_foreign db name (record found { list = with_keys })
  ok (record { dialect = SchemaDialect.postgresql; schema_name = name; tables = all })
