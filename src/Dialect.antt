-- ===== src/Dialect.antt =====
-- dialect.go, and the table references of query.go: dialects, renderers, quoting.
pub mod Quoting
use tiqq.Prelude.{
  ℕ, [], ◌∷◌, ◌++◌, Option, none, some, Text, codes, decimal, is_empty, ◌==◌, if◌then◌else◌, Result,
  ok, err, errorf, panic,
}

-- `builtinDialect`; `unknown` is any value of that type but the three constants.
pub data Dialect : Type 0 where
  postgresql mysql sqlite : Dialect
  unknown : ℕ → Dialect

-- The implementations of `sqlRenderer`.
pub data Renderer : Type 0 where
  postgres_renderer mysql_renderer sqlite_renderer : Renderer

unfoldable pub dialect_renderer : Dialect → Result Renderer
dialect_renderer postgresql = ok postgres_renderer
dialect_renderer mysql = ok mysql_renderer
dialect_renderer sqlite = ok sqlite_renderer
dialect_renderer (unknown n) = err (panic (codes "tiqq: unknown SQL dialect"))

unfoldable pub name : Renderer → Text
name postgres_renderer = codes "postgresql"
name mysql_renderer = codes "mysql"
name sqlite_renderer = codes "sqlite"

-- The character that encloses an identifier.
abbrev pub quote_char : Renderer → ℕ
quote_char postgres_renderer = b'"'
quote_char mysql_renderer = b'`'
quote_char sqlite_renderer = b'"'

-- `strings.ReplaceAll(value, q, qq)`
unfoldable pub double : ℕ → Text → Text
double q [] = []
double q (c ∷ s) = if c == q then q ∷ q ∷ double q s else c ∷ double q s

unfoldable pub quote_identifier : Renderer → Text → Text
unfolding double
quote_identifier r value = quote_char r ∷ (double (quote_char r) value ++ quote_char r ∷ [])

unfoldable pub placeholder : Renderer → ℕ → Text
placeholder postgres_renderer index = b'$' ∷ decimal index
placeholder mysql_renderer index = codes "?"
placeholder sqlite_renderer index = codes "?"

-- One table occurrence in a query. An empty schema or alias is an absent one.
pub record TableRef : Type 0 where
  pub schema : Text
  pub table_name : Text
  pub alias : Text
  pub dialect : Option Dialect

pub record SchemaInfo : Type 0 where
  pub info_dialect : Option Dialect

unfoldable pub new_schema_info : Option Dialect → Result SchemaInfo
new_schema_info none = err (panic (codes "tiqq: schema dialect must not be nil"))
new_schema_info (some d) = ok (record { info_dialect = some d })

unfoldable pub table : SchemaInfo → Text → TableRef
table info n = record { schema = []; table_name = n; alias = []; dialect = info.info_dialect }

unfoldable pub table_in_schema : SchemaInfo → Text → Text → TableRef
table_in_schema info s n = record {
  schema = s;
  table_name = n;
  alias = [];
  dialect = info.info_dialect;
}

-- `TableRef.As`
unfoldable pub as_alias : TableRef → Text → Result TableRef
as_alias t a =
    if is_empty a
    then err (panic (codes "tiqq: table alias must not be empty"))
    else ok (record t { alias = a })

unfoldable pub qualifier : TableRef → Text
qualifier t = if is_empty t.alias then t.table_name else t.alias

unfoldable pub renderer_of : Text → Option Dialect → Result Renderer
unfolding dialect_renderer
renderer_of n none = err (errorf (codes "tiqq: table " ++ (n ++ codes " has no SQL dialect")))
renderer_of n (some d) = dialect_renderer d

unfoldable pub renderer_for : TableRef → Result Renderer
unfolding renderer_of
renderer_for t = renderer_of t.table_name t.dialect

-- `renderTable`: what it writes.
unfoldable pub render_table : Renderer → TableRef → Text
render_table r t =
    (if is_empty t.schema then [] else quote_identifier r t.schema ++ codes ".")
    ++ (quote_identifier r t.table_name
        ++ (if is_empty t.alias then [] else codes " AS " ++ quote_identifier r t.alias))
