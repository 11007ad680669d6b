-- ===== src/Codegen/Types.antt =====
-- The Go types of columns: goType, numericAggregateTypes, columnType and the tests of database types.
pub mod Consistent
use tiqq.Prelude.{
  Bool, true, false, ◌&&◌, ◌||◌, List, [], ◌∷◌, ◌++◌, Option, none, some, Text, codes, KeySet, has,
  equal, is_empty, if◌then◌else◌,
}
use tiqq.Schema.{SchemaDialect, postgresql, mysql, sqlite, unset, foreign, Column}
use tiqq.Codegen.Words.{to_lower, to_upper, trim_space, equal_fold, contains}

-- The Go types that generated columns have.
pub data GoType : Type 0 where
  uuid_type json_type time_type decimal_type string_type bytes_type bool_type : GoType
  int8 int16 int32 int64 uint8 uint16 uint32 uint64 float32 float64 : GoType

unfoldable pub type_text : GoType → Text
type_text uuid_type = codes "uuid.UUID"
type_text json_type = codes "jsontext.Value"
type_text time_type = codes "time.Time"
type_text decimal_type = codes "tiqq.Decimal"
type_text string_type = codes "string"
type_text bytes_type = codes "[]byte"
type_text bool_type = codes "bool"
type_text int8 = codes "int8"
type_text int16 = codes "int16"
type_text int32 = codes "int32"
type_text int64 = codes "int64"
type_text uint8 = codes "uint8"
type_text uint16 = codes "uint16"
type_text uint32 = codes "uint32"
type_text uint64 = codes "uint64"
type_text float32 = codes "float32"
type_text float64 = codes "float64"

unfoldable pub is_uuid_type : SchemaDialect → Text → Bool
is_uuid_type postgresql t = equal_fold (trim_space t) (codes "uuid")
is_uuid_type sqlite t = equal_fold (trim_space t) (codes "uuid")
is_uuid_type _ t = false

abbrev pub normalized : Text → Text
normalized t = to_lower (trim_space t)

unfoldable pub is_json_type : Text → Bool
is_json_type t = has (codes "json" ∷ codes "jsonb" ∷ []) (normalized t)

unfoldable pub is_time_type : SchemaDialect → Text → Bool
is_time_type postgresql t =
    has (codes "date" ∷ codes "timestamp" ∷ codes "timestamptz" ∷ []) (normalized t)
is_time_type mysql t = has (codes "date" ∷ codes "datetime" ∷ codes "timestamp" ∷ []) (normalized t)
is_time_type sqlite t =
    has (codes "date" ∷ codes "datetime" ∷ codes "timestamp" ∷ []) (normalized t)
is_time_type _ t = false

pub data Affinity : Type 0 where
  blob integer text real numeric : Affinity

unfoldable pub affinity_of : Text → Affinity
affinity_of n =
    if is_empty n || contains n (codes "BLOB")
    then blob
    else if contains n (codes "INT")
    then integer
    else if contains n (codes "CHAR") || contains n (codes "CLOB") || contains n (codes "TEXT")
    then text
    else if contains n (codes "REAL") || contains n (codes "FLOA") || contains n (codes "DOUB")
    then real
    else numeric

unfoldable pub sqlite_affinity : Text → Affinity
unfolding affinity_of
sqlite_affinity t = affinity_of (to_upper (trim_space t))

abbrev pub Aggregates : Type 0
Aggregates = Option (GoType × GoType)

unfoldable pub sqlite_aggregates : Affinity → Aggregates
sqlite_aggregates integer = some (int64, float64)
sqlite_aggregates real = some (float64, float64)
sqlite_aggregates numeric = some (decimal_type, decimal_type)
sqlite_aggregates _ = none

abbrev pub mysql_exact : KeySet
mysql_exact =
    codes "tinyint"
    ∷ codes "smallint"
    ∷ codes "mediumint"
    ∷ codes "int"
    ∷ codes "integer"
    ∷ codes "bigint"
    ∷ codes "decimal"
    ∷ codes "numeric"
    ∷ []

abbrev pub mysql_inexact : KeySet
mysql_inexact = codes "float" ∷ codes "double" ∷ codes "real" ∷ []

unfoldable pub mysql_aggregates : Text → Aggregates
mysql_aggregates t =
    if has mysql_exact t
    then some (decimal_type, decimal_type)
    else if has mysql_inexact t
    then some (float64, float64)
    else none

abbrev pub postgres_small : KeySet
postgres_small =
    codes "int2"
    ∷ codes "smallint"
    ∷ codes "smallserial"
    ∷ codes "int4"
    ∷ codes "integer"
    ∷ codes "serial"
    ∷ []

abbrev pub postgres_large : KeySet
postgres_large =
    codes "int8" ∷ codes "bigint" ∷ codes "bigserial" ∷ codes "numeric" ∷ codes "decimal" ∷ []

unfoldable pub postgres_aggregates : Text → Aggregates
postgres_aggregates t =
    if has postgres_small t
    then some (int64, decimal_type)
    else if has postgres_large t
    then some (decimal_type, decimal_type)
    else if has (codes "float4" ∷ codes "real" ∷ []) t
    then some (float32, float64)
    else if has (codes "float8" ∷ codes "double precision" ∷ []) t
    then some (float64, float64)
    else none

-- The switch of `numericAggregateTypes` behind its first test.
unfoldable pub dialect_aggregates : SchemaDialect → Text → Aggregates
unfolding sqlite_aggregates mysql_aggregates postgres_aggregates
dialect_aggregates sqlite t = sqlite_aggregates (sqlite_affinity t)
dialect_aggregates mysql t = mysql_aggregates t
dialect_aggregates _ t = postgres_aggregates t

-- The types of SUM and AVG, for a column of numbers.
unfoldable pub numeric_aggregate_types : SchemaDialect → Text → Aggregates
unfolding dialect_aggregates
numeric_aggregate_types d t =
    if is_uuid_type d t || is_json_type t || is_time_type d t then none else dialect_aggregates d t

unfoldable pub sqlite_type : Affinity → GoType
sqlite_type integer = int64
sqlite_type real = float64
sqlite_type blob = bytes_type
sqlite_type numeric = decimal_type
sqlite_type text = string_type

abbrev pub sized : Bool → GoType → GoType → GoType
sized unsigned u s = if unsigned then u else s

unfoldable pub mysql_type : Text → Bool → GoType
mysql_type t unsigned =
    if equal (codes "tinyint") t
    then sized unsigned uint8 int8
    else if equal (codes "smallint") t
    then sized unsigned uint16 int16
    else if has (codes "mediumint" ∷ codes "int" ∷ codes "integer" ∷ []) t
    then sized unsigned uint32 int32
    else if equal (codes "bigint") t
    then sized unsigned uint64 int64
    else if has (codes "bool" ∷ codes "boolean" ∷ []) t
    then bool_type
    else if has
        (codes "binary"
          ∷ codes "varbinary"
          ∷ codes "tinyblob"
          ∷ codes "blob"
          ∷ codes "mediumblob"
          ∷ codes "longblob"
          ∷ [])
        t
    then bytes_type
    else if equal (codes "float") t
    then float32
    else if has (codes "double" ∷ codes "real" ∷ []) t
    then float64
    else if has (codes "decimal" ∷ codes "numeric" ∷ []) t
    then decimal_type
    else string_type

unfoldable pub postgres_type : Text → GoType
postgres_type t =
    if has (codes "int8" ∷ codes "bigint" ∷ codes "bigserial" ∷ []) t
    then int64
    else if has (codes "int4" ∷ codes "integer" ∷ codes "serial" ∷ []) t
    then int32
    else if has (codes "int2" ∷ codes "smallint" ∷ codes "smallserial" ∷ []) t
    then int16
    else if has (codes "bool" ∷ codes "boolean" ∷ []) t
    then bool_type
    else if equal (codes "bytea") t
    then bytes_type
    else if has (codes "float4" ∷ codes "real" ∷ []) t
    then float32
    else if has (codes "float8" ∷ codes "double precision" ∷ []) t
    then float64
    else if has (codes "numeric" ∷ codes "decimal" ∷ []) t
    then decimal_type
    else string_type

-- The switch of `goType` behind its first tests.
unfoldable pub dialect_type : SchemaDialect → Column → GoType
unfolding sqlite_type mysql_type postgres_type
dialect_type sqlite c = sqlite_type (sqlite_affinity c.db_type)
dialect_type mysql c = mysql_type c.db_type c.unsigned
dialect_type _ c = postgres_type c.db_type

unfoldable pub go_type : SchemaDialect → Column → GoType
unfolding dialect_type
go_type d c =
    if is_uuid_type d c.db_type
    then uuid_type
    else if is_json_type c.db_type
    then json_type
    else if is_time_type d c.db_type
    then time_type
    else dialect_type d c

-- The text of a column's Go type. `outer` asks for the nullable view.
unfoldable pub column_text : Text → GoType → Aggregates → Bool → Text
unfolding type_text
column_text scope v (some (s, a)) true =
    codes "tiqq.NumericColumn["
    ++ (scope
        ++ (codes ", sql.Null["
            ++ (type_text v
                ++ (codes "], "
                    ++ (type_text v
                        ++ (codes ", "
                            ++ (type_text s ++ (codes ", " ++ (type_text a ++ codes "]")))))))))
column_text scope v (some (s, a)) false =
    codes "tiqq.NumericColumn["
    ++ (scope
        ++ (codes ", "
            ++ (type_text v
                ++ (codes ", "
                    ++ (type_text v
                        ++ (codes ", "
                            ++ (type_text s ++ (codes ", " ++ (type_text a ++ codes "]")))))))))
column_text scope v none true =
    codes "tiqq.Column["
    ++ (scope
        ++ (codes ", sql.Null[" ++ (type_text v ++ (codes "], " ++ (type_text v ++ codes "]")))))
column_text scope v none false =
    codes "tiqq.Column["
    ++ (scope ++ (codes ", " ++ (type_text v ++ (codes ", " ++ (type_text v ++ codes "]")))))

unfoldable pub column_type : SchemaDialect → Text → Column → Bool → Text
unfolding column_text go_type numeric_aggregate_types
column_type d scope c outer =
    column_text scope (go_type d c) (numeric_aggregate_types d c.db_type) (c.nullable || outer)
