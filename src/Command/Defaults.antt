-- ===== src/Command/Defaults.antt =====
-- The default dependencies of the commands of cmd/tiqq-gen/main.go, and what `main` makes of an error.
pub mod Output
use tiqq.Prelude.{
  ℕ, Bool, List, [], ◌++◌, Option, none, Text, codes, Result, ok, err, Error, errorf, panic, ◌>>=◌,
  prefixed,
}
use tiqq.Schema.{Schema}
use tiqq.Introspect.Sqlite
use tiqq.Introspect.Postgres
use tiqq.Introspect.Mysql
use tiqq.Introspect.Tables.{Database}
use tiqq.Codegen.Words.{Unicode}
use tiqq.Codegen.Generate.{generate}
use tiqq.Command.Write.{Answers, write_generated}
use tiqq.Command.Run.{Dependencies}

-- The functions of the standard library that the default dependencies rest on: the environment, the
-- answers of the operating system, package unicode outside ASCII, `strconv.Quote` and `format.Source`.
pub record System : Type 0 where
  pub environment : Text → Option Text
  pub answers : Answers
  pub unicode : Unicode
  pub quote : Text → Text
  pub format : Text → Result (List ℕ)

-- A parser of data source names, whose error is replaced by a fixed one, lest it show a password.
abbrev hidden {ℓ} : {A : Type ℓ} → Text → Result A → Result A
hidden message (ok a) = ok a
hidden message (err e) = err (errorf message)

module _ (system : System) where
  -- `connect` is `Open` of database/sql with the driver; `visited` is the order in which Go visits a
  -- map at each place.
  unfoldable pub default_sqlite :
      (Text → Result Sqlite.Database)
      → (Sqlite.Database → Result (Unit {0}))
      → (Sqlite.Place → List ℕ → List ℕ)
      → Dependencies Sqlite.Database
  unfolding Sqlite.introspect generate write_generated
  default_sqlite connect answer visited = record {
    lookup_env = λ v. none;
    open_database = connect;
    ping = answer;
    introspect = λ db name. Sqlite.introspect visited db;
    generate = generate system.unicode system.quote system.format;
    write = write_generated system.answers;
  }

  module _ {C : Type 0} where
    unfoldable pub default_mysql :
        (Text → Result C)
        → (C → Result (Database Mysql.ColumnRow))
        → (Database Mysql.ColumnRow → Result (Unit {0}))
        → (List Text → List Text)
        → (List Text → List Text)
        → Dependencies (Database Mysql.ColumnRow)
    unfolding Mysql.introspect generate write_generated
    default_mysql parse_dsn connector answer visited_keys visited_foreign = record {
      lookup_env = system.environment;
      open_database = λ dsn. do
        configuration ← hidden (codes "invalid MySQL DSN") (parse_dsn dsn)
        prefixed (codes "configure MySQL driver: ") (connector configuration);
      ping = answer;
      introspect = Mysql.introspect visited_keys visited_foreign;
      generate = generate system.unicode system.quote system.format;
      write = write_generated system.answers;
    }

    unfoldable pub default_postgres :
        (Text → Result C)
        → (C → Database Postgres.ColumnRow)
        → (Database Postgres.ColumnRow → Result (Unit {0}))
        → (List Text → List Text)
        → (List Text → List Text)
        → Dependencies (Database Postgres.ColumnRow)
    unfolding Postgres.introspect generate write_generated
    default_postgres parse_config connect answer visited_keys visited_foreign = record {
      lookup_env = system.environment;
      open_database = λ dsn. do
        configuration ← hidden (codes "invalid PostgreSQL DSN") (parse_config dsn)
        ok (connect configuration);
      ping = answer;
      introspect = Postgres.introspect visited_keys visited_foreign;
      generate = generate system.unicode system.quote system.format;
      write = write_generated system.answers;
    }

abbrev message : Error → Text
message (errorf e) = e
message (panic e) = e

-- `main`: the exit code, and what is printed on standard error.
unfoldable pub exit : Result (Unit {0}) → ℕ × Text
exit (ok done) = (0, [])
exit (err e) = (1, codes "tiqq-gen: " ++ (message e ++ codes "\n"))
