-- ===== src/Schema.antt =====
-- schema/ir.go: the schema that introspection reads and the generator consumes.
use tiqq.Prelude.{Bool, List, Option, Text}

-- `Dialect` is a string there; the three constants have a constructor each.
pub data SchemaDialect : Type 0 where
  postgresql mysql sqlite : SchemaDialect
  unset : SchemaDialect
  foreign : Text → SchemaDialect

pub record Key : Type 0 where
  pub key_name : Text
  pub key_columns : List Text

pub record Column : Type 0 where
  pub column_name : Text
  pub db_type : Text
  pub nullable : Bool
  pub default : Option Text
  pub generated : Bool
  pub identity : Bool
  pub unsigned : Bool

pub record ForeignKey : Type 0 where
  pub foreign_name : Text
  pub foreign_columns : List Text
  pub referenced_schema : Text
  pub referenced_table : Text
  pub referenced_columns : List Text

pub record Table : Type 0 where
  pub schema : Text
  pub table_name : Text
  pub columns : List Column
  pub primary_key : Option Key
  pub unique_keys : List Key
  pub foreign_keys : List ForeignKey

pub record Schema : Type 0 where
  pub dialect : SchemaDialect
  pub schema_name : Text
  pub tables : List Table
