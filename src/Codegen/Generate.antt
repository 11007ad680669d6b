-- ===== src/Codegen/Generate.antt =====
-- Generate of codegen/generate.go: its checks, the order of the tables, the imports, and the text that
-- it hands to go/format. `strconv.Quote`, by which `%q` and `%#v` print strings, and `format.Source`
-- are parameters. `sort.Slice` may put tables of one name in any order; here they keep theirs.

pub mod Order
use tiqq.Prelude.{
  ℕ, Bool, true, false, not, ◌&&◌, ◌||◌, List, [], ◌∷◌, ◌++◌, map, Text, codes, equal, is_empty,
  join, text_before, sort, if◌then◌else◌, Result, ok, err, errorf, ◌>>=◌, ◌>>◌, fail_if, prefixed,
}
use tiqq.Schema.{
  SchemaDialect, postgresql, mysql, sqlite, unset, foreign, Column, ForeignKey, Table, Schema,
}
use tiqq.Codegen.Words.{Unicode, is_identifier}
use tiqq.Codegen.Types.{type_text, go_type}
use tiqq.Codegen.Names.{concat, validate_generated_names}
use tiqq.Codegen.Keys.{validate_foreign_keys}
use tiqq.Codegen.Print.{write_table}

-- An unset dialect is PostgreSQL.
abbrev pub effective : SchemaDialect → SchemaDialect
effective unset = postgresql
effective d = d

abbrev pub unsupported : SchemaDialect → Bool
unsupported (foreign name) = true
unsupported _ = false

abbrev pub foreign_name_of : SchemaDialect → Text
foreign_name_of (foreign name) = name
foreign_name_of _ = []

unfoldable pub any_column : (Column → Bool) → List Column → Bool
any_column p [] = false
any_column p (c ∷ cs) = p c || any_column p cs

unfoldable pub schema_uses_type : List Table → SchemaDialect → Text → Bool
unfolding any_column equal go_type type_text
schema_uses_type [] d name = false
schema_uses_type (t ∷ ts) d name =
    any_column (λ c. equal (type_text (go_type d c)) name) t.columns || schema_uses_type ts d name

-- The package and the name of a dialect in generated code.
abbrev pub dialect_package : SchemaDialect → Text
dialect_package mysql = codes "mysql"
dialect_package sqlite = codes "sqlite"
dialect_package _ = codes "postgres"

abbrev dialect_name : SchemaDialect → Text
dialect_name mysql = codes "MySQL"
dialect_name sqlite = codes "SQLite"
dialect_name _ = codes "PostgreSQL"

-- A line of the imports, if some column needs it.
abbrev import_if : Bool → Text → Text
import_if used line = if used then line else []

unfoldable pub write_header : Text → SchemaDialect → List Table → Text
unfolding schema_uses_type codes concat
write_header package_name d ts = concat (
    codes "// Code generated by tiqq; DO NOT EDIT.\npackage "
    ∷ package_name
    ∷ codes "\n\nimport (\n\t\"database/sql\"\n"
    ∷ import_if (schema_uses_type ts d (codes "jsontext.Value"))
        (codes "\t\"encoding/json/jsontext\"\n")
    ∷ import_if (schema_uses_type ts d (codes "uuid.UUID")) (codes "\t\"uuid\"\n")
    ∷ import_if (schema_uses_type ts d (codes "time.Time")) (codes "\t\"time\"\n")
    ∷ codes "\n\t\"github.com/eji/tiqq\"\n\t\"github.com/eji/tiqq/"
    ∷ dialect_package d
    ∷ codes "\"\n)\n\nvar tiqqSchema = tiqq.NewSchemaInfo(tiqq."
    ∷ dialect_name d
    ∷ codes ")\n\n"
    ∷ [])

abbrev pub by_name : Table → Table → Bool
by_name t u = text_before t.table_name u.table_name

module _ (unicode : Unicode) (quote : Text → Text) (format : Text → Result (List ℕ)) where
  -- What `Generate` prints of the sorted tables.
  unfoldable pub generate_sorted : Text → SchemaDialect → List Table → Result (List ℕ)
  unfolding validate_generated_names validate_foreign_keys write_header write_table concat
  generate_sorted package_name d ts = do
    validate_generated_names unicode ts
    validate_foreign_keys ts
    prefixed (codes "codegen: format generated source: ") (
        format
          (write_header package_name d ts ++ concat (map (λ t. write_table unicode quote t d) ts)))

  unfoldable pub generate : Schema → Text → Result (List ℕ)
  unfolding generate_sorted is_identifier sort text_before
  generate s package_name = do
    fail_if (is_empty package_name) (errorf (codes "codegen: package name is required"))
    fail_if (not (is_identifier unicode package_name))
        (errorf (codes "codegen: invalid package name " ++ quote package_name))
    fail_if (unsupported (effective s.dialect))
        (errorf (codes "codegen: unsupported SQL dialect " ++ foreign_name_of s.dialect))
    generate_sorted package_name (effective s.dialect) (sort by_name s.tables)
