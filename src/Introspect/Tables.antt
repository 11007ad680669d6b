-- ===== src/Introspect/Tables.antt =====
-- What introspect/postgres/postgres.go and introspect/mysql/mysql.go have in common: the tables
-- that the loops over rows fill, the map from names to their indices, and the keys with their columns.
pub mod Grouped
pub mod Visited
pub mod Keyed
pub mod Constraints
pub mod Attached
use tiqq.Prelude.{
  ℕ, zero, suc, List, [], ◌∷◌, ◌++◌, Option, none, some, Text, codes, equal, length, Result, ok,
  err, panic, ◌>>=◌, prefixed, lookup, put, value_or,
}
use tiqq.Schema.{Key, Column, ForeignKey, Table}
use tiqq.Introspect.{Rows}

-- `result.Tables` and the map `tables`.
pub record Tables : Type 0 where
  pub list : List Table
  pub index : List (Text × ℕ)

abbrev pub no_tables : Tables
no_tables = record { list = []; index = [] }

-- The index of a table, which is 0 for a missing name.
unfoldable pub index_of : List (Text × ℕ) → Text → ℕ
unfolding lookup equal
index_of m name = value_or 0 (lookup equal name m)

abbrev out_of_range {ℓ} : {A : Type ℓ} → Result A
out_of_range = err (panic (codes "runtime error: index out of range"))

-- A change of `result.Tables[i]`.
unfoldable pub update_at : ℕ → (Table → Table) → List Table → Result (List Table)
update_at i f [] = out_of_range
update_at zero f (t ∷ ts) = ok (f t ∷ ts)
update_at (suc i) f (t ∷ ts) = update_at i f ts >>= (λ (us : List Table). ok (t ∷ us))

abbrev pub empty_table : Text → Text → Table
empty_table schema_name name = record {
  schema = schema_name;
  table_name = name;
  columns = [];
  primary_key = none;
  unique_keys = [];
  foreign_keys = [];
}

-- A table that was not met before goes to the end.
unfoldable pub open_table : Text → Tables → Text → Tables
unfolding lookup put equal
open_table schema_name f name = elim (lookup equal name f.index) [
  | some i ↦ f
  | none ↦ record {
    list = f.list ++ empty_table schema_name name ∷ [];
    index = put equal name (length f.list) f.index;
  }
]

abbrev pub append_column : Column → Table → Table
append_column c t = record t { columns = t.columns ++ c ∷ [] }

-- The body of the loop over columns.
unfoldable pub add_column : Text → Tables → Text → Column → Result Tables
unfolding open_table update_at index_of
add_column schema_name f name c =
    let opened = open_table schema_name f name in
    update_at (index_of opened.index name) (append_column c) opened.list
    >>= (λ (ts : List Table). ok (record opened { list = ts }))

-- The loop over columns, which returns the first error of `Scan`.
module _ {ℓ} {A : Type ℓ} (prefix schema_name : Text) (owner : A → Text)
    (column_of : A → Column) where
  unfoldable pub collect_columns : Tables → List (Result A) → Result Tables
  unfolding add_column
  collect_columns f [] = ok f
  collect_columns f (r ∷ rs) = prefixed prefix r >>= (λ (a : A).
      add_column schema_name f (owner a) (column_of a) >>= (λ (g : Tables). collect_columns g rs))

-- The key under which the columns of a constraint are collected.
abbrev pub constraint_id : Text → Text → Text
constraint_id table_name name = table_name ++ 0 ∷ name

abbrev pub set_primary : Key → Table → Table
set_primary k t = record t { primary_key = some k }

abbrev pub append_unique : Key → Table → Table
append_unique k t = record t { unique_keys = t.unique_keys ++ k ∷ [] }

abbrev pub append_foreign : ForeignKey → Table → Table
append_foreign k t = record t { foreign_keys = t.foreign_keys ++ k ∷ [] }

-- The rows of a key column and of a foreign key's column.
pub record KeyRow : Type 0 where
  pub table_name : Text
  pub name : Text
  pub kind : Text
  pub column : Text

pub record ForeignKeyRow : Type 0 where
  pub table_name : Text
  pub name : Text
  pub column : Text
  pub referenced_schema : Text
  pub referenced_table : Text
  pub referenced_column : Text

-- What `QueryContext` answers to a query text and its argument.
pub record Database (A : Type 0) : Type 0 where
  pub column_rows : Text → Text → Result (Rows A)
  pub key_rows : Text → Text → Result (Rows KeyRow)
  pub foreign_key_rows : Text → Text → Result (Rows ForeignKeyRow)

abbrev pub add_key_column : Text → Key → Key
add_key_column c k = record k { key_columns = k.key_columns ++ c ∷ [] }

abbrev pub add_foreign_column : ForeignKeyRow → ForeignKey → ForeignKey
add_foreign_column r k = record k {
  foreign_columns = k.foreign_columns ++ r.column ∷ [];
  referenced_columns = k.referenced_columns ++ r.referenced_column ∷ [];
}

abbrev pub new_key : Text → Key
new_key name = record { key_name = name; key_columns = [] }

abbrev pub new_foreign_key : ForeignKeyRow → ForeignKey
new_foreign_key r = record {
  foreign_name = r.name;
  foreign_columns = [];
  referenced_schema = r.referenced_schema;
  referenced_table = r.referenced_table;
  referenced_columns = [];
}

abbrev pub zero_foreign_key : ForeignKey
zero_foreign_key = record {
  foreign_name = [];
  foreign_columns = [];
  referenced_schema = [];
  referenced_table = [];
  referenced_columns = [];
}

-- An entry of the maps `byName` and `owners` of readForeignKeys.
pub record ForeignEntry : Type 0 where
  pub owner : Text
  pub foreign : ForeignKey

abbrev pub zero_foreign_entry : ForeignEntry
zero_foreign_entry = record { owner = []; foreign = zero_foreign_key }

-- The body of the loop over the rows of foreign keys.
unfoldable pub collect_foreign :
    List (Text × ForeignEntry) → ForeignKeyRow → List (Text × ForeignEntry)
unfolding lookup put equal
collect_foreign m r =
    let id = constraint_id r.table_name r.name in
    let e =
      value_or (record { owner = r.table_name; foreign = new_foreign_key r }) (lookup equal id m) in
    put equal id (record e { foreign = add_foreign_column r e.foreign }) m

-- The loop `for id, foreignKey := range byName` over the ids in the order in which it visits them.
unfoldable pub attach_foreign :
    List (Text × ℕ) → List (Text × ForeignEntry) → List Text → List Table → Result (List Table)
unfolding lookup equal index_of update_at
attach_foreign index m [] ts = ok ts
attach_foreign index m (id ∷ ids) ts =
    let e = value_or zero_foreign_entry (lookup equal id m) in
    update_at (index_of index e.owner) (append_foreign e.foreign) ts
    >>= (λ (us : List Table). attach_foreign index m ids us)
