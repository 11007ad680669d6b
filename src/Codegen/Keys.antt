-- ===== src/Codegen/Keys.antt =====
-- What codegen/generate.go makes of keys and columns: the check of foreign keys, and the INSERT of a table.
pub mod Accepts
use tiqq.Prelude.{
  Bool, true, false, not, ◌&&◌, List, [], ◌∷◌, ◌++◌, map, Option, none, some, Text, codes, KeySet,
  has, equal, is_empty, if◌then◌else◌, Result, ok, err, errorf, ◌>>=◌, ◌>>◌,
}
use tiqq.Dialect.{TableRef}
use tiqq.Schema.{Table, Column, Key, ForeignKey}
use tiqq.Insert

unfoldable pub foreign_key_is_external : Table → ForeignKey → Bool
foreign_key_is_external t k =
    not (is_empty t.schema)
    && (not (is_empty k.referenced_schema) && not (equal t.schema k.referenced_schema))

-- The inner loop, over the foreign keys of a table.
unfoldable pub check_keys : KeySet → Table → List ForeignKey → Result (Unit {0})
unfolding foreign_key_is_external
check_keys known t [] = ok tt
check_keys known t (k ∷ ks) =
    if foreign_key_is_external t k
    then check_keys known t ks
    else if not (has known k.referenced_table)
    then err (
        errorf (
          codes "codegen: foreign key "
          ++ (k.foreign_name ++ (codes " references unknown table " ++ k.referenced_table))))
    else check_keys known t ks

unfoldable pub check_tables : KeySet → List Table → Result (Unit {0})
unfolding check_keys
check_tables known [] = ok tt
check_tables known (t ∷ ts) = do check_keys known t t.foreign_keys; check_tables known ts

unfoldable pub validate_foreign_keys : List Table → Result (Unit {0})
unfolding check_tables
validate_foreign_keys ts = check_tables (map (λ t. t.table_name) ts) ts

unfoldable pub insertable_columns : List Column → List Text
insertable_columns [] = []
insertable_columns (c ∷ cs) =
    let rest = insertable_columns cs in
    if not c.generated && not c.identity then c.column_name ∷ rest else rest

abbrev pub is_none {ℓ} : {A : Type ℓ} → Option A → Bool
is_none none = true
is_none (some a) = false

unfoldable pub required_insert_columns : List Column → List Text
required_insert_columns [] = []
required_insert_columns (c ∷ cs) =
    let rest = required_insert_columns cs in
    if not c.nullable && (is_none c.default && (not c.generated && not c.identity))
    then c.column_name ∷ rest
    else rest

-- The columns of a primary key, if there is one, in front of the given keys.
abbrev primary_first : Option Key → List (List Text) → List (List Text)
primary_first none keys = keys
primary_first (some k) keys = k.key_columns ∷ keys

unfoldable pub unique_columns : Table → List (List Text)
unique_columns t = primary_first t.primary_key (map (λ k. k.key_columns) t.unique_keys)

-- The INSERT that the generated method `Insert` of a table returns.
unfoldable pub generated_insert : TableRef → Table → Insert.InsertQuery
unfolding insertable_columns required_insert_columns unique_columns
generated_insert ref t =
    Insert.new_insert ref (insertable_columns t.columns) (required_insert_columns t.columns)
      (unique_columns t)
