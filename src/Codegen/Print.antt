-- ===== src/Codegen/Print.antt =====
-- writeTable of codegen/generate.go: the Go text of one table. `quote` is `strconv.Quote`.
use tiqq.Prelude.{
  Bool, true, false, not, ◌&&◌, List, [], ◌∷◌, ◌++◌, map, none, some, Text, codes, is_empty, join,
  if◌then◌else◌,
}
use tiqq.Schema.{SchemaDialect, postgresql, mysql, sqlite, Column, ForeignKey, Table}
use tiqq.Codegen.Types.{Aggregates, type_text, numeric_aggregate_types, go_type, column_type}
use tiqq.Codegen.Words.{Unicode}
use tiqq.Codegen.Names.{singular, exported, concat}
use tiqq.Codegen.Keys.{
  foreign_key_is_external, insertable_columns, required_insert_columns, unique_columns,
}

abbrev pub is_numeric : Aggregates → Bool
is_numeric none = false
is_numeric (some a) = true

-- The functions that make a column, and that bind it again, of nullable and of numeric columns.
abbrev constructor_name : Bool → Bool → Text
constructor_name false false = codes "RequiredColumn"
constructor_name false true = codes "RequiredNumericColumn"
constructor_name true false = codes "NullableColumn"
constructor_name true true = codes "NullableNumericColumn"

abbrev rebind_name : Bool → Bool → Text
rebind_name false false = codes "RebindNullable"
rebind_name false true = codes "RebindNullableNumeric"
rebind_name true false = codes "RebindExistingNullable"
rebind_name true true = codes "RebindExistingNullableNumeric"

abbrev alias_name : Bool → Text
alias_name false = codes "AliasColumn"
alias_name true = codes "AliasNumericColumn"

-- The type arguments of a column's constructor behind its scope.
abbrev aggregate_arguments : Aggregates → Text
aggregate_arguments none = []
aggregate_arguments (some (s, a)) = codes ", " ++ (type_text s ++ (codes ", " ++ type_text a))

abbrev is_postgresql : SchemaDialect → Bool
is_postgresql postgresql = true
is_postgresql _ = false

abbrev insert_package : SchemaDialect → Text
insert_package mysql = codes "mysql"
insert_package sqlite = codes "sqlite"
insert_package _ = codes "postgres"

abbrev insert_marker : SchemaDialect → Text
insert_marker mysql = codes "MySQLMarker"
insert_marker sqlite = codes "SQLiteMarker"
insert_marker _ = codes "PostgreSQLMarker"

-- `%#v` of a slice of strings, and of a slice of these; a nil slice has no elements.
abbrev literal : Text → List Text → Text
literal type_name [] = type_name ++ codes "(nil)"
literal type_name (p ∷ ps) = type_name ++ (codes "{" ++ (join (codes ", ") (p ∷ ps) ++ codes "}"))

-- A field of the table, or of its nullable view.
unfoldable pub field_line : Unicode → SchemaDialect → Text → Bool → Column → Text
unfolding codes concat exported column_type
field_line u d scope outer c = concat (
    codes "\t"
    ∷ exported u c.column_name
    ∷ codes " "
    ∷ column_type d scope c outer
    ∷ codes "\n"
    ∷ [])

-- The conversions of a column to the nullable view.
unfoldable pub rebind_line : Unicode → SchemaDialect → Text → Column → Text
unfolding codes concat exported numeric_aggregate_types
rebind_line u d scope c = concat (
    codes "\t"
    ∷ exported u c.column_name
    ∷ codes ": tiqq."
    ∷ rebind_name c.nullable (is_numeric (numeric_aggregate_types d c.db_type))
    ∷ codes "["
    ∷ scope
    ∷ codes ", "
    ∷ scope
    ∷ codes "](table."
    ∷ exported u c.column_name
    ∷ codes "),\n"
    ∷ [])

unfoldable pub alias_line : Unicode → SchemaDialect → Text → Column → Text
unfolding codes concat exported numeric_aggregate_types
alias_line u d scope c = concat (
    codes "table."
    ∷ exported u c.column_name
    ∷ codes " = tiqq."
    ∷ alias_name (is_numeric (numeric_aggregate_types d c.db_type))
    ∷ codes "["
    ∷ scope
    ∷ codes ", "
    ∷ scope
    ∷ codes "](table."
    ∷ exported u c.column_name
    ∷ codes ", alias)\n"
    ∷ [])

-- The methods that only call the library.
unfoldable pub join_methods : Text → Text → Text
unfolding codes concat
join_methods type_name nullable_type = concat (
    codes "func (table "
    ∷ type_name
    ∷ codes "TableDef) TiqqJoinSource() tiqq.JoinSourceInfo["
    ∷ type_name
    ∷ codes "TableDef, "
    ∷ nullable_type
    ∷ codes "] { return tiqq.TableJoinSource(table.TiqqTableInfo()) }\nfunc (table "
    ∷ type_name
    ∷ codes "TableDef) LeftJoin[C, NC any, R tiqq.TableLike[C, NC]](right R) tiqq.Joined["
    ∷ type_name
    ∷ codes "TableDef, NC, "
    ∷ nullable_type
    ∷ codes ", NC] { return tiqq.LeftJoin(table, right) }\nfunc (table "
    ∷ type_name
    ∷ codes "TableDef) InnerJoin[C, NC any, R tiqq.TableLike[C, NC]](right R) tiqq.Joined["
    ∷ type_name
    ∷ codes "TableDef, C, "
    ∷ nullable_type
    ∷ codes ", NC] { return tiqq.InnerJoin(table, right) }\nfunc (table "
    ∷ type_name
    ∷ codes "TableDef) RightJoin[C, NC any, R tiqq.TableLike[C, NC]](right R) tiqq.Joined["
    ∷ nullable_type
    ∷ codes ", C, "
    ∷ nullable_type
    ∷ codes ", NC] { return tiqq.RightJoin(table, right) }\nfunc (table "
    ∷ type_name
    ∷ codes "TableDef) FullJoin[C, NC any, R tiqq.TableLike[C, NC]](right R) tiqq.Joined["
    ∷ nullable_type
    ∷ codes ", NC, "
    ∷ nullable_type
    ∷ codes ", NC] { return tiqq.FullJoin(table, right) }\nfunc (table "
    ∷ type_name
    ∷ codes "TableDef) CrossJoin[C, NC any, R tiqq.TableLike[C, NC]](right R) tiqq.Joined["
    ∷ type_name
    ∷ codes "TableDef, C, "
    ∷ nullable_type
    ∷ codes ", NC] { return tiqq.CrossJoin(table, right) }\n"
    ∷ [])

unfoldable pub query_methods : Text → Text → Text
unfolding codes concat
query_methods type_name scope = concat (
    codes "func (table "
    ∷ type_name
    ∷ codes
        "TableDef) Where(predicates ...tiqq.Predicate) tiqq.Query { return tiqq.NewTableQuery(table).Where(predicates...) }\nfunc (table "
    ∷ type_name
    ∷ codes
        "TableDef) Select(columns ...tiqq.Selection) tiqq.Query { return tiqq.NewTableQuery(table).Select(columns...) }\nfunc (table "
    ∷ type_name
    ∷ codes
        "TableDef) GroupBy(columns ...tiqq.Selection) tiqq.Query { return tiqq.NewTableQuery(table).GroupBy(columns...) }\nfunc (table "
    ∷ type_name
    ∷ codes "TableDef) Update() tiqq.UpdateQuery["
    ∷ scope
    ∷ codes "] { return tiqq.NewUpdate["
    ∷ scope
    ∷ codes "](table) }\nfunc (table "
    ∷ type_name
    ∷ codes "TableDef) Delete() tiqq.DeleteQuery["
    ∷ scope
    ∷ codes "] { return tiqq.NewDelete["
    ∷ scope
    ∷ codes "](table) }\n"
    ∷ [])

module _ (unicode : Unicode) (quote : Text → Text) where
  unfoldable pub strings_literal : List Text → Text
  unfolding join codes
  strings_literal xs = literal (codes "[]string") (map quote xs)

  unfoldable pub lists_literal : List (List Text) → Text
  unfolding join codes strings_literal
  lists_literal xs = literal (codes "[][]string") (map strings_literal xs)

  -- The line that makes a column.
  unfoldable pub column_line : SchemaDialect → Text → Text → Column → Text
  unfolding codes concat exported go_type type_text numeric_aggregate_types
  column_line d scope table_name c =
      let aggregates = numeric_aggregate_types d c.db_type in
      concat (
        codes "\t"
        ∷ exported unicode c.column_name
        ∷ codes ": tiqq."
        ∷ constructor_name c.nullable (is_numeric aggregates)
        ∷ codes "["
        ∷ (scope ++ (codes ", " ++ (type_text (go_type d c) ++ aggregate_arguments aggregates)))
        ∷ codes "]("
        ∷ quote table_name
        ∷ codes ", "
        ∷ quote c.column_name
        ∷ codes "),\n"
        ∷ [])

  -- An external foreign key is left out.
  unfoldable pub foreign_key_text : Table → ForeignKey → Text
  unfolding codes concat foreign_key_is_external strings_literal
  foreign_key_text t k =
      if foreign_key_is_external t k
      then []
      else concat (
          codes "{Columns: "
          ∷ strings_literal k.foreign_columns
          ∷ codes ", ReferencedTable: "
          ∷ quote k.referenced_table
          ∷ codes ", ReferencedColumns: "
          ∷ strings_literal k.referenced_columns
          ∷ codes "},"
          ∷ [])

  abbrev table_constructor : SchemaDialect → Table → Text
  table_constructor d t =
      if is_postgresql d && not (is_empty t.schema)
      then codes "tiqqSchema.TableInSchema("
        ++ (quote t.schema ++ (codes ", " ++ (quote t.table_name ++ codes ")")))
      else codes "tiqqSchema.Table(" ++ (quote t.table_name ++ codes ")")

  unfoldable pub insert_method : Text → Text → SchemaDialect → Table → Text
  unfolding codes concat strings_literal lists_literal insertable_columns required_insert_columns
      unique_columns
  insert_method type_name scope d t = concat (
      codes "func (table "
      ∷ type_name
      ∷ codes "TableDef) Insert() "
      ∷ insert_package d
      ∷ codes ".InsertQuery["
      ∷ scope
      ∷ codes "] { return "
      ∷ insert_package d
      ∷ codes ".NewInsert(tiqq.NewInsert["
      ∷ scope
      ∷ codes ", tiqq."
      ∷ insert_marker d
      ∷ codes "](table.ref, "
      ∷ strings_literal (insertable_columns t.columns)
      ∷ codes ", "
      ∷ strings_literal (required_insert_columns t.columns)
      ∷ codes ", "
      ∷ lists_literal (unique_columns t)
      ∷ codes ")) }\n"
      ∷ [])

  -- The definitions of a table's types, and the variable of the table.
  unfoldable pub write_types : Text → Text → Text → Table → SchemaDialect → Text
  unfolding codes concat field_line column_line
  write_types type_name scope nullable_type t d = concat (
      codes "type "
      ∷ scope
      ∷ codes " struct{}\n\ntype "
      ∷ type_name
      ∷ codes "TableDef struct {\n\tref tiqq.TableRef\n"
      ∷ concat (map (field_line unicode d scope false) t.columns)
      ∷ codes "}\n\ntype "
      ∷ nullable_type
      ∷ codes " struct {\n"
      ∷ concat (map (field_line unicode d scope true) t.columns)
      ∷ codes "}\n\nvar "
      ∷ type_name
      ∷ codes "Table = "
      ∷ type_name
      ∷ codes "TableDef{\n\tref: "
      ∷ table_constructor d t
      ∷ codes ",\n"
      ∷ concat (map (column_line d scope t.table_name) t.columns)
      ∷ codes "}\n\n"
      ∷ [])

  -- The method that describes the table: its columns, its nullable view and its foreign keys.
  unfoldable pub write_info : Text → Text → Text → Table → SchemaDialect → Text
  unfolding codes concat rebind_line foreign_key_text
  write_info type_name scope nullable_type t d = concat (
      codes "func (table "
      ∷ type_name
      ∷ codes "TableDef) TiqqTableInfo() tiqq.TableInfo["
      ∷ type_name
      ∷ codes "TableDef, "
      ∷ nullable_type
      ∷ codes "] {\nreturn tiqq.NewTableInfo(table.ref, table, "
      ∷ nullable_type
      ∷ codes "{\n"
      ∷ concat (map (rebind_line unicode d scope) t.columns)
      ∷ codes "}, []tiqq.ForeignKey{"
      ∷ concat (map (foreign_key_text t) t.foreign_keys)
      ∷ codes "})\n}\n\n"
      ∷ [])

  unfoldable pub write_alias : Text → Text → Table → SchemaDialect → Text
  unfolding codes concat alias_line
  write_alias type_name scope t d = concat (
      codes "func (table "
      ∷ type_name
      ∷ codes "TableDef) As(alias string) "
      ∷ type_name
      ∷ codes "TableDef {\ntable.ref = table.ref.As(alias)\n"
      ∷ concat (map (alias_line unicode d scope) t.columns)
      ∷ codes "return table\n}\n\n"
      ∷ [])

  unfoldable pub write_table : Table → SchemaDialect → Text
  unfolding codes concat exported singular write_types write_info join_methods query_methods
      insert_method write_alias
  write_table t d =
      let type_name = exported unicode (singular t.table_name) in
      let scope = type_name ++ codes "Scope" in
      let nullable_type = codes "Nullable" ++ (type_name ++ codes "TableDef") in
      concat (
        write_types type_name scope nullable_type t d
        ∷ write_info type_name scope nullable_type t d
        ∷ join_methods type_name nullable_type
        ∷ query_methods type_name scope
        ∷ insert_method type_name scope d t
        ∷ write_alias type_name scope t d
        ∷ [])
