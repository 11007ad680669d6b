-- ===== src/Tests/Generator.antt =====
-- The generator's types and names on concrete schemas.
use mathlib.Core.List.Permᴰ.{swap}
use tiqq.Codegen.Generate.{generate}
use tiqq.Codegen.Generate.Order.{DifferentNames, generate-Perm}
use tiqq.Prelude.{
  ◌==◌, ◌||◌, if◌then◌else◌, inl, inr, Text, map, some, Succeeds, ◌≢◌, has_iff, equal, equal_iff,
  false, true, List, [], ◌∷◌, none, String, codes, ok, ◌≡◌, ◌↔◌, refl, All, Distinct,
}
use tiqq.Value.{Value, null}
use tiqq.Dialect
use tiqq.Dialect.{TableRef, renderer_for, renderer_of, dialect_renderer, sqlite_renderer}
use tiqq.Insert.{build}
use tiqq.Codegen.Keys.{validate_foreign_keys, insertable_columns}
use tiqq.Codegen.Keys.Accepts.{
  IsResolved, column_names, full_insert, build-full_insert, validate_foreign_keys_iff,
}
use tiqq.Schema.{mysql, Column, Table, Schema}
use tiqq.Codegen.Words.{Unicode, unicode_upper, upper_char, has_suffix, trim_suffix}
use tiqq.Codegen.Types.{go_type, numeric_aggregate_types}
use tiqq.Codegen.Types.Consistent.{aggregates_of, aggregates_of-go_type}
use tiqq.Codegen.Names.{
  singular, exported, fields_from, export_part, concat, validate_generated_names,
}
use tiqq.Codegen.Names.Unique.{
  HasFields, IsGoName, declared, type_name, validate_generated_names_iff,
}

abbrev column : String → String → Column
column n t = record {
  column_name = codes n;
  db_type = codes t;
  nullable = false;
  default = none;
  generated = false;
  identity = false;
  unsigned = true;
}

-- The letters é and É are all that there is outside ASCII.
abbrev pub latin : Unicode
latin = record {
  letter = λ c. c == 201 || c == 233;
  digit = λ c. false;
  upper = λ c. if c == 233 then 201 else c;
}

abbrev schema_tables : List Table
schema_tables =
    record {
      schema = [];
      table_name = codes "order_items";
      columns = column "id" "int" ∷ column "user_id" "bigint" ∷ [];
      primary_key = none;
      unique_keys = [];
      foreign_keys = [];
    }
    ∷ []

exported_names :
    (exported latin (singular (codes "order_items")) ≡ codes "OrderItem")
    × (exported latin (codes "user_id") ≡ codes "UserID")
    × (exported latin (233 ∷ codes "tage") ≡ 201 ∷ codes "tage")
    × (exported latin (201 ∷ codes "tage") ≡ exported latin (233 ∷ codes "tage"))
unfolding singular exported fields_from export_part concat unicode_upper upper_char has_suffix
    trim_suffix equal codes
exported_names = (refl, refl, refl, refl)

aggregates_of-go_type_example :
    aggregates_of mysql (go_type mysql (column "id" "int"))
    ≡ numeric_aggregate_types mysql (codes "int")
aggregates_of-go_type_example = aggregates_of-go_type mysql (column "id" "int")

validate_generated_names_iff_example : (validate_generated_names latin schema_tables ≡ ok tt) ↔ (
    All (λ t. IsGoName latin (type_name latin t)) schema_tables
    × All (HasFields latin) schema_tables
    × Distinct (declared latin schema_tables))
validate_generated_names_iff_example = validate_generated_names_iff latin schema_tables

validate_foreign_keys_iff_example :
    (validate_foreign_keys schema_tables ≡ ok tt)
    ↔ All
        (λ t. All (IsResolved (map (λ u. u.table_name) schema_tables) t) t.foreign_keys)
        schema_tables
validate_foreign_keys_iff_example = validate_foreign_keys_iff schema_tables

abbrev items : Table
items = record {
  schema = [];
  table_name = codes "items";
  columns = column "id" "int" ∷ column "note" "text" ∷ [];
  primary_key = none;
  unique_keys = [];
  foreign_keys = [];
}

abbrev items_ref : TableRef
items_ref = record {
  schema = [];
  table_name = codes "items";
  alias = [];
  dialect = some Dialect.sqlite;
}

abbrev nothing : Text → Value
nothing k = null

items_renderer : renderer_for items_ref ≡ ok sqlite_renderer
unfolding renderer_for renderer_of dialect_renderer
items_renderer = refl

items_some : insertable_columns items.columns ≢ []
unfolding insertable_columns
items_some h = cc h

items-Distinct : Distinct (column_names items.columns)
unfolding codes equal
items-Distinct = (
  (λ m. let e : false ≡ true = (has_iff (codes "note" ∷ []) (codes "id")).1 m in cc e),
  ((λ m. m), tt),
)

build-full_insert_example : Succeeds (build (full_insert items_ref nothing items))
build-full_insert_example =
    build-full_insert items_ref nothing sqlite_renderer items items_renderer items_some
      items-Distinct

abbrev bare_table : Text → Table
bare_table name = record {
  schema = [];
  table_name = name;
  columns = column "id" "int" ∷ [];
  primary_key = none;
  unique_keys = [];
  foreign_keys = [];
}

abbrev mysql_schema : List Table → Schema
mysql_schema ts = record { dialect = mysql; schema_name = codes "shop"; tables = ts }

abbrev user_first : List Table
user_first = bare_table (codes "users") ∷ bare_table (codes "orders") ∷ []

abbrev user_last : List Table
user_last = bare_table (codes "orders") ∷ bare_table (codes "users") ∷ []

different : DifferentNames user_first
unfolding codes equal
different = (
  (λ m. elim m [ inl q ↦ cc ((equal_iff (codes "orders") (codes "users")).1 q) | inr m ↦ m ]),
  ((λ m. m), tt),
)

generate-Perm_example :
    generate latin (λ s. s) ok (mysql_schema user_first) (codes "schema")
    ≡ generate latin (λ s. s) ok (mysql_schema user_last) (codes "schema")
generate-Perm_example =
    generate-Perm latin (λ s. s) ok (mysql_schema user_first) (mysql_schema user_last)
      (codes "schema") refl (swap refl refl) different
