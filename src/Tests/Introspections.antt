-- ===== src/Tests/Introspections.antt =====
-- Introspection and the commands that use it on concrete catalogues.
use mathlib.Core.List.Permᴰ.{swap}
use mathlib.Core.List.Permᴰ
use tiqq.Prelude.{
  arith, lookup, ◌++◌, ℕ, false, List, [], ◌∷◌, map, Option, none, some, Text, codes, Result, ok,
  err, errorf, equal, if◌then◌else◌, Distinct, ◌≡◌, ◌↔◌, refl,
}
use tiqq.Schema.{Key, Column, ForeignKey, Table}
use tiqq.Introspect.{Rows, Pairs}
use tiqq.Introspect.Sqlite
use tiqq.Introspect.Postgres
use tiqq.Introspect.Postgres.Keys.{placed, attach_keys-Perm}
use tiqq.Introspect.Tables.Keyed.{SameUnique}
use tiqq.Introspect.Tables.Visited.{HasPlaces, OnePrimary, with_keys}
use tiqq.Introspect.Sqlite.{Place, Database, introspect, resolve_referenced_columns}
use tiqq.Introspect.Sqlite.Ranges.{IsRange, introspect-IsRange}
use tiqq.Introspect.Sqlite.Resolve.{ResolvedTable, resolve_referenced_columns_iff}
use tiqq.Introspect.Tables.{ForeignKeyRow, ForeignEntry, zero_foreign_key, attach_foreign, index_of}
use tiqq.Introspect.Tables.Attached.{extended, owned, HasOwners, SameKeys, attach_foreign-Perm}
use tiqq.Introspect.Tables.{no_tables, collect_columns}
use tiqq.Introspect.Tables.Grouped.{first_met, grouped, collect_columns-grouped}
use tiqq.Command.Run.{
  Parse, Session, Dependencies, sqlite_flags, mysql_flags, postgres_flags, open_sqlite, open_mysql,
  open_postgres, run_sqlite, run_mysql, run_postgres,
}
use tiqq.Command.Run.Outcome.{Ends, run-Ends}

abbrev rows_of {ℓ} : {A : Type ℓ} → List A → Result (Rows A)
rows_of xs = ok (record { scans = map ok xs; closing = ok tt; iteration = ok tt })

abbrev key_column : ℕ → Text → Sqlite.ColumnRow
key_column position name = record {
  cid = 0;
  column_name = name;
  db_type = codes "INTEGER";
  not_null = 1;
  default_value = none;
  primary_position = position;
  hidden = 0;
}

-- A table whose primary key has the second column in front of the first.
abbrev one_table : Database
one_table = record {
  table_rows = λ q. rows_of (codes "t" ∷ []);
  column_rows = λ q. rows_of (key_column 2 (codes "a") ∷ key_column 1 (codes "b") ∷ []);
  index_rows = λ q. rows_of [];
  index_column_rows = λ q. rows_of [];
  foreign_key_rows = λ q. rows_of [];
}

abbrev swapped : Place → List ℕ → List ℕ
swapped p (a ∷ b ∷ is) = b ∷ a ∷ is
swapped p is = is

swapped-IsRange : IsRange swapped
swapped-IsRange p (a ∷ b ∷ is) = swap refl refl
swapped-IsRange p (a ∷ []) = Permᴰ.refl (a ∷ [])
swapped-IsRange p [] = Permᴰ.refl []

introspect-IsRange_example : introspect swapped one_table ≡ introspect (λ p is. is) one_table
introspect-IsRange_example =
    introspect-IsRange swapped (λ p is. is) one_table swapped-IsRange (λ p is. Permᴰ.refl is)

abbrev table_with : Text → Option Key → List ForeignKey → Table
table_with name key keys = record {
  schema = codes "main";
  table_name = name;
  columns = [];
  primary_key = key;
  unique_keys = [];
  foreign_keys = keys;
}

abbrev omitted : List Text → ForeignKey
omitted cs = record {
  foreign_name = codes "k";
  foreign_columns = codes "user" ∷ [];
  referenced_schema = codes "main";
  referenced_table = codes "users";
  referenced_columns = cs;
}

abbrev user_tables : List Text → List Table
user_tables cs =
    table_with (codes "orders") none (omitted cs ∷ [])
    ∷ table_with (codes "users")
        (some (record { key_name = codes "users_pkey"; key_columns = codes "id" ∷ [] })) []
    ∷ []

resolve_referenced_columns_iff_example :
    (resolve_referenced_columns (user_tables ([] ∷ [])) ≡ ok (user_tables (codes "id" ∷ [])))
    ↔ Pairs
        (ResolvedTable (user_tables ([] ∷ [])))
        (user_tables ([] ∷ []))
        (user_tables (codes "id" ∷ []))
resolve_referenced_columns_iff_example =
    resolve_referenced_columns_iff (user_tables ([] ∷ [])) (user_tables (codes "id" ∷ []))

abbrev plain_column : Text → Column
plain_column name = record {
  column_name = name;
  db_type = codes "int4";
  nullable = false;
  default = none;
  generated = false;
  identity = false;
  unsigned = false;
}

abbrev two_tables : List (Text × Text)
two_tables = (codes "t", codes "a") ∷ (codes "u", codes "b") ∷ (codes "t", codes "c") ∷ []

collect_columns-grouped_example :
    (collect_columns
        (codes "scan column: ")
        (codes "public")
        (λ (r : Text × Text). r.0)
        (λ r. plain_column r.1)
        no_tables
        (map ok two_tables)
      ≡ ok (grouped (codes "public") (λ (r : Text × Text). r.0) (λ r. plain_column r.1) two_tables))
    × Distinct (first_met (λ (r : Text × Text). r.0) [] two_tables)
collect_columns-grouped_example =
    collect_columns-grouped (codes "public") (λ (r : Text × Text). r.0) (λ r. plain_column r.1)
      (codes "scan column: ") two_tables

abbrev key_row : Text → Text → Text → ForeignKeyRow
key_row name column referenced = record {
  table_name = codes "orders";
  name = name;
  column = column;
  referenced_schema = codes "public";
  referenced_table = codes "users";
  referenced_column = referenced;
}

abbrev key_rows : List ForeignKeyRow
key_rows =
    key_row (codes "k") (codes "a") (codes "x")
    ∷ key_row (codes "l") (codes "c") (codes "x")
    ∷ key_row (codes "k") (codes "b") (codes "y")
    ∷ []

abbrev first_id : Text
first_id = codes "t" ++ 0 ∷ codes "k"

abbrev second_id : Text
second_id = codes "t" ++ 0 ∷ codes "l"

abbrev two_keys : List (Text × ForeignEntry)
two_keys =
    (first_id, record { owner = codes "t"; foreign = zero_foreign_key })
    ∷ (
      second_id,
      record { owner = codes "t"; foreign = record zero_foreign_key { foreign_name = codes "l" } },
    )
    ∷ []

abbrev place : List (Text × ℕ)
place = (codes "t", 0) ∷ []

abbrev one_place : List Table
one_place = table_with (codes "t") none [] ∷ []

owners : HasOwners place two_keys one_place (first_id ∷ second_id ∷ [])
unfolding codes equal lookup index_of
owners = (omega arith, (omega arith, tt))

attach_foreign-Perm_example :
    (attach_foreign place two_keys (first_id ∷ second_id ∷ []) one_place
      ≡ ok (extended (owned place two_keys (first_id ∷ second_id ∷ [])) 0 one_place))
    × (us : List Table) × (attach_foreign place two_keys (second_id ∷ first_id ∷ []) one_place
        ≡ ok us)
    × Pairs SameKeys (extended (owned place two_keys (first_id ∷ second_id ∷ [])) 0 one_place) us
attach_foreign-Perm_example =
    attach_foreign-Perm place two_keys (first_id ∷ second_id ∷ []) (second_id ∷ first_id ∷ [])
      one_place (swap refl refl) owners

abbrev key_entry : Text → Text → Postgres.KeyEntry
key_entry kind name = record { kind = kind; key = record { key_name = name; key_columns = [] } }

abbrev key_entries : List (Text × Postgres.KeyEntry)
key_entries =
    (first_id, key_entry (codes "PRIMARY KEY") (codes "k"))
    ∷ (second_id, key_entry (codes "UNIQUE") (codes "l"))
    ∷ []

key_owners : HasPlaces (placed place key_entries) one_place (first_id ∷ second_id ∷ [])
unfolding codes equal lookup index_of Postgres.owner_of
key_owners = (omega arith, (omega arith, tt))

one_primary : OnePrimary (placed place key_entries) (first_id ∷ second_id ∷ [])
unfolding codes equal lookup index_of Postgres.owner_of
one_primary j = ground arith

attach_keys-Perm_example :
    (Postgres.attach_keys place key_entries (first_id ∷ second_id ∷ []) one_place
      ≡ ok (with_keys (placed place key_entries) (first_id ∷ second_id ∷ []) one_place))
    × (us : List Table) × (Postgres.attach_keys place key_entries
          (second_id ∷ first_id ∷ [])
          one_place
        ≡ ok us)
    × Pairs SameUnique
        (with_keys (placed place key_entries) (first_id ∷ second_id ∷ []) one_place)
        us
attach_keys-Perm_example =
    attach_keys-Perm place key_entries (first_id ∷ second_id ∷ []) (second_id ∷ first_id ∷ [])
      one_place (swap refl refl) key_owners one_primary

abbrev default_of : Text → List (Text × Text) → Text
default_of name [] = []
default_of name ((n, v) ∷ fs) = let rest = default_of name fs in if equal n name then v else rest

-- Every flag has its default.
abbrev defaults : Parse
defaults flags arguments = ok (λ name. default_of name flags)

-- A database that does not answer.
abbrev silent : Dependencies ℕ
silent = record {
  lookup_env = λ v. some (codes "dsn");
  open_database = λ d. ok 7;
  ping = λ d. err (errorf (codes "timeout"));
  introspect = λ d name. err (errorf (codes "not reached"));
  generate = λ s package_name. ok [];
  write = λ path b w. (ok tt, w);
}

abbrev start : Session ℕ
start = record { world = record { files = λ p. none; printed = [] }; events = [] }

run-Ends_example :
    Ends silent
      (defaults sqlite_flags [])
      (open_sqlite silent)
      (codes "connect to SQLite: ")
      (λ flags. [])
      start
      (run_sqlite defaults [] silent start)
    × Ends silent
        (defaults mysql_flags [])
        (open_mysql silent)
        (codes "connect to MySQL: ")
        (λ flags. flags (codes "database"))
        start
        (run_mysql defaults [] silent start)
    × Ends silent
        (defaults postgres_flags [])
        (open_postgres silent)
        (codes "connect to PostgreSQL: ")
        (λ flags. flags (codes "schema"))
        start
        (run_postgres defaults [] silent start)
run-Ends_example = run-Ends defaults [] silent start
