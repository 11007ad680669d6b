-- ===== src/Codegen/Keys/Accepts.antt =====
-- About the keys and the INSERT of generated tables in codegen/generate.go.
use tiqq.Prelude.{
  Bool, true, false, not, ◌&&◌, List, [], ◌∷◌, map, Text, KeySet, has, has_iff, Elem, Distinct,
  equal_iff, is_empty, All, if◌then◌else◌, Result, Error, ok, err, Succeeds, >>_iff, ◌≡◌, ◌≢◌, ◌↔◌,
  ◌⊎◌, inl, inr, refl, subst, sym, ap, arith,
}
use tiqq.Value.{Value}
use tiqq.Dialect.{Renderer, TableRef, qualifier, renderer_for}
use tiqq.Column.{InsertValue, new_column, value_of}
use tiqq.Schema.{Table, Column, ForeignKey}
use tiqq.Insert.{names, new_insert, add_row, build, InsertQuery, value_name}
use tiqq.Insert.Rows.{IsRow}
use tiqq.Insert.Builds.{insert_build_iff}
use tiqq.Codegen.Keys.{
  foreign_key_is_external, check_keys, check_tables, validate_foreign_keys, insertable_columns,
  required_insert_columns, is_none, generated_insert,
}

-- A foreign key that leaves the schema of its table, where both schemas are named.
pub record IsExternal (t : Table) (k : ForeignKey) : Type 0 where
  pub has_schema : t.schema ≢ []
  pub names_schema : k.referenced_schema ≢ []
  pub differs : t.schema ≢ k.referenced_schema

is_empty_iff : (s : Text) → (is_empty s ≡ false) ↔ (s ≢ [])
is_empty_iff [] = ((λ h. cc), λ h. absurd (h refl))
is_empty_iff (c ∷ s) = ((λ h. λ e. cc), λ h. refl)

IsExternal-iff :
    (t : Table) (k : ForeignKey) → (foreign_key_is_external t k ≡ true) ↔ IsExternal t k
unfolding foreign_key_is_external
IsExternal-iff t k = ground (
  arith,
  is_empty_iff t.schema,
  is_empty_iff k.referenced_schema,
  equal_iff t.schema k.referenced_schema,
)

-- The table that the key references is known, or in another schema.
abbrev pub IsResolved : KeySet → Table → ForeignKey → Type 0
IsResolved known t k = IsExternal t k ⊎ Elem k.referenced_table known

check_keys_iff :
    (known : KeySet) (t : Table) (ks : List ForeignKey)
    → (check_keys known t ks ≡ ok tt) ↔ All (IsResolved known t) ks
unfolding check_keys
check_keys_iff known t [] = ((λ h. tt), λ h. refl)
check_keys_iff known t (k ∷ ks) =
    guards _ (foreign_key_is_external t k) (has known k.referenced_table) _ (IsExternal-iff t k)
      (has_iff known k.referenced_table) (check_keys_iff known t ks)
  where
    guards :
        {P Q R : Type 0} (e : Error) (a b : Bool) (rest : Result (Unit {0}))
        → (a ≡ true) ↔ P
        → (b ≡ true) ↔ Q
        → (rest ≡ ok tt) ↔ R
        → ((if a then rest else if not b then err e else rest) ≡ ok tt) ↔ ((P ⊎ Q) × R)
    guards e true b rest p q r = ((λ h. (inl (p.0 refl), r.0 h)), λ h. r.1 h.1)
    guards e false true rest p q r = ((λ h. (inr (q.0 refl), r.0 h)), λ h. r.1 h.1)
    guards e false false rest p q r =
        ((λ h. cc), λ h. elim h.0 [ inl x ↦ cc (p.1 x) | inr y ↦ cc (q.1 y) ])

check_tables_iff :
    (known : KeySet) (ts : List Table)
    → (check_tables known ts ≡ ok tt) ↔ All (λ t. All (IsResolved known t) t.foreign_keys) ts
unfolding check_tables
check_tables_iff known [] = ((λ h. tt), λ h. refl)
check_tables_iff known (t ∷ ts) =
    >>_iff _ _ (check_keys_iff known t t.foreign_keys) (check_tables_iff known ts)

-- `validateForeignKeys` accepts exactly the lists of tables in which every foreign key references the
-- name of a table of the list, unless it names a schema other than the named schema of its table.
pub validate_foreign_keys_iff :
    (ts : List Table)
    → (validate_foreign_keys ts ≡ ok tt)
      ↔ All (λ t. All (IsResolved (map (λ u. u.table_name) ts) t) t.foreign_keys) ts
unfolding validate_foreign_keys
validate_foreign_keys_iff ts = check_tables_iff (map (λ t. t.table_name) ts) ts

abbrev pub column_names : List Column → List Text
column_names = map (λ c. c.column_name)

insertable_columns-Elem :
    (cs : List Column) (k : Text) → Elem k (insertable_columns cs) → Elem k (column_names cs)
unfolding insertable_columns
insertable_columns-Elem [] k m = m
insertable_columns-Elem (c ∷ cs) k m = ground (arith, insertable_columns-Elem cs k)

insertable_columns-Distinct :
    (cs : List Column) → Distinct (column_names cs) → Distinct (insertable_columns cs)
unfolding insertable_columns
insertable_columns-Distinct [] d = d
insertable_columns-Distinct (c ∷ cs) (n, d) =
    ground (arith, insertable_columns-Elem cs c.column_name, insertable_columns-Distinct cs d)

All-Elem-weaken :
    (k : Text) (ks js : List Text) → All (λ j. Elem j ks) js → All (λ j. Elem j (k ∷ ks)) js
All-Elem-weaken k ks [] h = tt
All-Elem-weaken k ks (j ∷ js) (m, h) = (inr m, All-Elem-weaken k ks js h)

All-Elem-refl : (ks : List Text) → All (λ j. Elem j ks) ks
All-Elem-refl [] = tt
All-Elem-refl (k ∷ ks) = (inl refl, All-Elem-weaken k ks ks (All-Elem-refl ks))

-- A required column is insertable.
required-insertable :
    (cs : List Column) → All (λ k. Elem k (insertable_columns cs)) (required_insert_columns cs)
unfolding insertable_columns required_insert_columns
required-insertable [] = tt
required-insertable (c ∷ cs) =
    branches c.nullable (is_none c.default) c.generated c.identity (required-insertable cs)
  where
    branches :
        (n d g i : Bool)
        → All (λ k. Elem k (insertable_columns cs)) (required_insert_columns cs)
        → All
            (λ k. Elem k (
              if not g && not i
              then c.column_name ∷ insertable_columns cs
              else insertable_columns cs))
            (if not n && (d && (not g && not i))
              then c.column_name ∷ required_insert_columns cs
              else required_insert_columns cs)
    branches true d true i h = h
    branches true d false true h = h
    branches true d false false h = All-Elem-weaken c.column_name (insertable_columns cs) _ h
    branches false false true i h = h
    branches false false false true h = h
    branches false false false false h = All-Elem-weaken c.column_name (insertable_columns cs) _ h
    branches false true true i h = h
    branches false true false true h = h
    branches false true false false h =
        (inl refl, All-Elem-weaken c.column_name (insertable_columns cs) _ h)

module _ (ref : TableRef) (value : Text → Value) where
  -- A row that gives a value for each of the columns.
  abbrev pub full_row : List Text → List InsertValue
  full_row = map (λ k. value_of (new_column (qualifier ref) k) (value k))

  names-full_row : (ks : List Text) → names (full_row ks) ≡ ks
  unfolding value_of new_column
  names-full_row [] = refl
  names-full_row (k ∷ ks) = ap (λ js. k ∷ js) (names-full_row ks)

  All-full_row :
      (P : InsertValue → Type 0) (Q : Text → Type 0) (ks : List Text)
      → ((k : Text) → Q k → P (value_of (new_column (qualifier ref) k) (value k)))
      → All Q ks
      → All P (full_row ks)
  All-full_row P Q [] f h = tt
  All-full_row P Q (k ∷ ks) f (q, h) = (f k q, All-full_row P Q ks f h)

  full_row-some : (ks : List Text) → ks ≢ [] → full_row ks ≢ []
  full_row-some [] h = absurd (h refl)
  full_row-some (k ∷ ks) h = λ e. cc

  -- The query that a generated table makes of one full row.
  abbrev pub full_insert : Table → InsertQuery
  full_insert t = add_row (generated_insert ref t) (full_row (insertable_columns t.columns))

  full_row-IsRow :
      (t : Table)
      → insertable_columns t.columns ≢ []
      → Distinct (column_names t.columns)
      → IsRow
          (full_insert t)
          (names (full_row (insertable_columns t.columns)))
          (full_row (insertable_columns t.columns))
  unfolding generated_insert new_insert add_row value_of new_column
  full_row-IsRow t some_column distinct =
      let ks = insertable_columns t.columns in
      let same = names-full_row ks in
      record {
        some_value = full_row-some ks some_column;
        insertable = All-full_row _ (λ k. Elem k ks) ks (λ k m. (refl, m)) (All-Elem-refl ks);
        once = subst Distinct (sym same) (insertable_columns-Distinct t.columns distinct);
        complete =
            subst (λ js. All (λ k. Elem k js) (required_insert_columns t.columns)) (sym same)
              (required-insertable t.columns);
        no_missing = All-Elem-refl (names (full_row ks));
        no_unexpected =
            subst (λ js. All (λ v. Elem (value_name v) js) (full_row ks)) (sym same)
              (All-full_row _ (λ k. Elem k ks) ks (λ k m. m) (All-Elem-refl ks));
      }

  -- If the table's reference has a renderer, the names of its columns are different, and one of its
  -- columns is insertable, then the generated INSERT of the table, with one row that gives a value for
  -- each insertable column, is built without an error.
  pub build-full_insert :
      (r : Renderer) (t : Table)
      → renderer_for ref ≡ ok r
      → insertable_columns t.columns ≢ []
      → Distinct (column_names t.columns)
      → Succeeds (build (full_insert t))
  unfolding generated_insert new_insert add_row
  build-full_insert r t e some_column distinct = (insert_build_iff (full_insert t)).1 (
    r,
    record {
      dialect = e;
      some_value = full_row-some (insertable_columns t.columns) some_column;
      returning = λ h. cc;
      proper_rows = (full_row-IsRow t some_column distinct, tt);
      one_clause = inl refl;
      accepts_conflict = tt;
      accepts_duplicate = tt;
    },
  )
