-- ===== src/Introspect/Tables/Constraints.antt =====
-- About the loop over the rows of foreign keys that introspect/postgres/postgres.go and
-- introspect/mysql/mysql.go share: rows are collected by table and constraint.
use tiqq.Prelude.{List, [], ◌∷◌, map, Option, none, some, Text, equal, if◌then◌else◌, value_or}
use tiqq.Introspect.Tables.{
  constraint_id, ForeignKeyRow, ForeignEntry, add_foreign_column, new_foreign_key,
}

abbrev id_of : ForeignKeyRow → Text
id_of r = constraint_id r.table_name r.name

-- The rows of a constraint.
abbrev pub rows_with : Text → List ForeignKeyRow → List ForeignKeyRow
rows_with id [] = []
rows_with id (r ∷ rs) = let rest = rows_with id rs in if equal (id_of r) id then r ∷ rest else rest

-- The entry that the rows of one constraint stand for: the first says to which table it belongs, what
-- it is called and which table it references, and each has a column and the column that it references.
abbrev pub entry_of : List ForeignKeyRow → Option ForeignEntry
entry_of [] = none
entry_of (r ∷ rs) = some (record {
  owner = r.table_name;
  foreign = record {
    foreign_name = r.name;
    foreign_columns = map (λ (q : ForeignKeyRow). q.column) (r ∷ rs);
    referenced_schema = r.referenced_schema;
    referenced_table = r.referenced_table;
    referenced_columns = map (λ (q : ForeignKeyRow). q.referenced_column) (r ∷ rs);
  };
})

abbrev with_row : ForeignKeyRow → Option ForeignEntry → ForeignEntry
with_row r o =
    let e = value_or (record { owner = r.table_name; foreign = new_foreign_key r }) o in
    record e { foreign = add_foreign_column r e.foreign }

-- What further rows make of an entry.
abbrev grown : Option ForeignEntry → List ForeignKeyRow → Option ForeignEntry
grown o [] = o
grown o (r ∷ rs) = grown (some (with_row r o)) rs
