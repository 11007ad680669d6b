-- ===== src/Introspect/Sqlite/Ranges.antt =====
-- About the loops over Go maps in introspect/sqlite/sqlite.go, whose order the language leaves open.
use mathlib.Core.List.Permᴰ.{Permᴰ}
use mathlib.Core.Path.{fun_ext}
use tiqq.Prelude.{
  ℕ, ◌+◌, ◌==◌, Bool, true, not, if◌then◌else◌, text_before, List, ◌++◌, codes, [], ◌∷◌, map, Text,
  leb, sort, sort-Perm, keys_of, lookup, value_or, Result, ok, ◌>>=◌, prefixed, ◌≡◌, refl, sym, ap,
  ◌∙◌,
}
use tiqq.Schema.{ForeignKey, Key, Table}
use tiqq.Introspect.{Rows, each_row}
use tiqq.Introspect.Sqlite.{
  ColumnRow, Found, no_columns, read_column, identify, primary, schema_main, IndexRow,
  IndexColumnRow, ForeignKeyRow, collect_index, collect_column, pragma, collect_key, Database,
  Place, primary_place, index_place, foreign_place, zero_key, ordered_columns, read_index_columns,
  index_keys, read_unique_keys, read_foreign_keys, read_table, read_tables, introspect,
}

-- A range over the keys of a map visits each key once, in an order of its own at each place.
abbrev pub IsRange : (Place → List ℕ → List ℕ) → Type 0
IsRange visited = (place : Place) (is : List ℕ) → Permᴰ (visited place is) is

module _ (v w : Place → List ℕ → List ℕ) (db : Database) (hv : IsRange v) (hw : IsRange w) where
  sort-IsRange : (place : Place) (is : List ℕ) → sort leb (v place is) ≡ sort leb (w place is)
  sort-IsRange place is = sort-Perm (hv place is) ∙ sym (sort-Perm (hw place is))

  ordered_columns_same :
      (place : Place) (m : List (ℕ × Text)) → ordered_columns v place m ≡ ordered_columns w place m
  unfolding ordered_columns
  ordered_columns_same place m = ap (map _) (sort-IsRange place (keys_of m))

  read_index_columns_same :
      (place : Place) (table index : Text)
      → read_index_columns v place db table index ≡ read_index_columns w place db table index
  unfolding read_index_columns
  read_index_columns_same place table index =
      let at = index ++ (codes " for " ++ (table ++ codes ": ")) in
      ap
        (λ (order : List (ℕ × Text) → List Text).
          prefixed (codes "introspect SQLite index " ++ at)
            (db.index_column_rows (pragma (codes "index_info") index))
          >>= (λ (rows : Rows IndexColumnRow).
              each_row (codes "scan SQLite index " ++ at) collect_column (true, []) rows.scans
              >>= (λ (found : Bool × List (ℕ × Text)).
                  prefixed (codes "iterate SQLite index " ++ at) rows.iteration
                  >>= (λ (done : Unit {0}). ok (if not found.0 then [] else order found.1)))))
        (fun_ext (ordered_columns_same place))

  index_keys_same :
      (n k : ℕ) (name : Text) (is : List Text)
      → index_keys v n k db name is ≡ index_keys w n k db name is
  unfolding index_keys
  index_keys_same n k name [] = refl
  index_keys_same n k name (i ∷ is) =
      rw (read_index_columns_same (index_place n k) name i, index_keys_same n (k + 1) name is) refl

  read_unique_keys_same :
      (n : ℕ) (name : Text) → read_unique_keys v n db name ≡ read_unique_keys w n db name
  unfolding read_unique_keys
  read_unique_keys_same n name =
      ap
        (λ (keys : List Text → Result (List Key)).
          prefixed (codes "introspect SQLite indexes for " ++ (name ++ codes ": "))
            (db.index_rows (pragma (codes "index_list") name))
          >>= (λ (rows : Rows IndexRow).
              each_row (codes "scan SQLite index for " ++ (name ++ codes ": ")) collect_index []
                rows.scans
              >>= (λ (indexes : List Text).
                  prefixed (codes "close SQLite indexes for " ++ (name ++ codes ": ")) rows.closing
                  >>= (λ (closed : Unit {0}).
                      prefixed (codes "iterate SQLite indexes for " ++ (name ++ codes ": "))
                        rows.iteration
                      >>= (λ (done : Unit {0}). keys (sort text_before indexes))))))
        (fun_ext (index_keys_same n 0 name))

  abbrev sorted_keys : (Place → List ℕ → List ℕ) → Place → List (ℕ × ForeignKey) → List ℕ
  sorted_keys u place m = sort leb (u place (keys_of m))

  sorted_keys_same : (place : Place) → sorted_keys v place ≡ sorted_keys w place
  sorted_keys_same place = fun_ext (λ m. sort-IsRange place (keys_of m))

  read_foreign_keys_same :
      (n : ℕ) (name : Text) → read_foreign_keys v n db name ≡ read_foreign_keys w n db name
  unfolding read_foreign_keys
  read_foreign_keys_same n name =
      ap
        (λ (order : List (ℕ × ForeignKey) → List ℕ).
          prefixed (codes "introspect SQLite foreign keys for " ++ (name ++ codes ": "))
            (db.foreign_key_rows (pragma (codes "foreign_key_list") name))
          >>= (λ (rows : Rows ForeignKeyRow).
              each_row (codes "scan SQLite foreign key for " ++ (name ++ codes ": "))
                (collect_key name) [] rows.scans
              >>= (λ (keys : List (ℕ × ForeignKey)).
                  prefixed (codes "iterate SQLite foreign keys for " ++ (name ++ codes ": "))
                    rows.iteration
                  >>= (λ (done : Unit {0}). ok (
                      map (λ (i : ℕ). value_or zero_key (lookup (λ i j. i == j) i keys))
                        (order keys))))))
        (sorted_keys_same (foreign_place n))

  abbrev table_of :
      Text → (List (ℕ × Text) → List Text) → Found → List Key → List ForeignKey → Table
  table_of name order found unique foreign = record {
    schema = schema_main;
    table_name = name;
    columns = map (identify (order found.primary_columns)) found.found_columns;
    primary_key = primary (name ++ codes "_pkey") (order found.primary_columns);
    unique_keys = unique;
    foreign_keys = foreign;
  }

  read_table_same : (n : ℕ) (name : Text) → read_table v n db name ≡ read_table w n db name
  unfolding read_table
  read_table_same n name =
      rw (read_unique_keys_same n name, read_foreign_keys_same n name)
        (ap
          (λ (order : List (ℕ × Text) → List Text).
            prefixed (codes "introspect SQLite columns for " ++ (name ++ codes ": "))
              (db.column_rows (pragma (codes "table_xinfo") name))
            >>= (λ (rows : Rows ColumnRow).
                each_row (codes "scan SQLite column for " ++ (name ++ codes ": ")) read_column
                  no_columns rows.scans
                >>= (λ (found : Found).
                    prefixed (codes "close SQLite columns for " ++ (name ++ codes ": "))
                      rows.closing
                    >>= (λ (closed : Unit {0}).
                        prefixed (codes "iterate SQLite columns for " ++ (name ++ codes ": "))
                          rows.iteration
                        >>= (λ (done : Unit {0}).
                            read_unique_keys w n db name >>= (λ (unique : List Key).
                              read_foreign_keys w n db name >>= (λ (foreign : List ForeignKey).
                                ok (table_of name order found unique foreign))))))))
          (fun_ext (ordered_columns_same (primary_place n))))

  read_tables_same :
      (n : ℕ) (names : List Text) → read_tables v n db names ≡ read_tables w n db names
  unfolding read_tables
  read_tables_same n [] = refl
  read_tables_same n (name ∷ names) =
      rw (read_table_same n name, read_tables_same (n + 1) names) refl

-- Two introspections of a database end alike, with the same schema or the same error, in whatever
-- orders Go visits the keys of its maps, at each range anew.
pub introspect-IsRange :
    (visited visited' : Place → List ℕ → List ℕ) (db : Database)
    → IsRange visited
    → IsRange visited'
    → introspect visited db ≡ introspect visited' db
unfolding introspect
introspect-IsRange visited visited' db h h' =
    let e : read_tables visited 0 db ≡ read_tables visited' 0 db =
      fun_ext (read_tables_same visited visited' db h h' 0) in
    rw e refl
