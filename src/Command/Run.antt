-- ===== src/Command/Run.antt =====
-- The commands of cmd/tiqq-gen/main.go: their flags, the databases that they open, the order of their
-- calls, and `dispatch`. Package flag, the drivers and the JSON decoder are parameters, and so is `D`,
-- the type of open databases.
pub mod Outcome
use tiqq.Prelude.{
  ℕ, Bool, true, false, not, ◌&&◌, ◌||◌, List, [], ◌∷◌, ◌++◌, Option, none, some, Text, codes,
  equal, is_empty, if◌then◌else◌, Result, ok, err, errorf, Error, ◌>>=◌, ◌>>◌, prefixed, fail_if,
}
use tiqq.Schema.{Schema}
use tiqq.Command.Write.{World}

-- The flags of a command with their defaults, and the values that they have after `Parse`.
abbrev pub FlagSet : Type 0
FlagSet = List (Text × Text)

abbrev pub Parse : Type 0
Parse = FlagSet → List Text → Result (Text → Text)

abbrev pub common_flags : FlagSet
common_flags =
    (codes "package", codes "schema")
    ∷ (codes "output", codes "schema_gen.go")
    ∷ (codes "timeout", codes "10s")
    ∷ []

abbrev pub sqlite_flags : FlagSet
sqlite_flags = (codes "database", []) ∷ common_flags

abbrev pub mysql_flags : FlagSet
mysql_flags = (codes "dsn-env", codes "MYSQL_DATABASE_URL") ∷ (codes "database", []) ∷ common_flags

abbrev pub postgres_flags : FlagSet
postgres_flags =
    (codes "dsn-env", codes "DATABASE_URL") ∷ (codes "schema", codes "public") ∷ common_flags

abbrev pub file_flags : FlagSet
file_flags =
    (codes "package", codes "schema")
    ∷ (codes "schema", codes "-")
    ∷ (codes "output", codes "schema_gen.go")
    ∷ []

-- What happens to a connection, in the order in which it happens.
pub data Event (D : Type 0) : Type 0 where
  opened : D → Event D
  written : Text → Event D
  closed : D → Event D

pub record Session (D : Type 0) : Type 0 where
  pub world : World
  pub events : List (Event D)

-- The records of dependencies. SQLite has no environment variable, and no name of a schema: its
-- `introspect` does not use the text.
pub record Dependencies (D : Type 0) : Type 0 where
  pub lookup_env : Text → Option Text
  pub open_database : Text → Result D
  pub ping : D → Result (Unit {0})
  pub introspect : D → Text → Result Schema
  pub generate : Schema → Text → Result (List ℕ)
  pub write : Text → List ℕ → World → Result (Unit {0}) × World

-- The value of the environment variable; an empty one counts as none.
abbrev set_value : Option Text → Option Text
set_value none = none
set_value (some v) = if is_empty v then none else some v

module _ {D : Type 0} where
  abbrev pub log : Event D → Session D → Session D
  log e s = record s { events = s.events ++ e ∷ [] }

  -- The call of `write`.
  unfoldable pub written_to :
      Dependencies D → Text → List ℕ → Session D → Result (Unit {0}) × Session D
  written_to deps path b s =
      let (r, w) = deps.write path b s.world in
      (r, record { world = w; events = s.events ++ written path ∷ [] })

  -- What is asked of an open database: the text to write.
  unfoldable pub generated : Text → Dependencies D → D → Text → Text → Result (List ℕ)
  generated connect deps d name package_name = do
    prefixed connect (deps.ping d)
    found ← deps.introspect d name
    deps.generate found package_name

  -- From the open database to the end; the deferred `Close` comes last on every path.
  unfoldable pub with_database :
      Text → Dependencies D → D → Text → Text → Text → Session D → Result (Unit {0}) × Session D
  unfolding written_to generated
  with_database connect deps d name package_name path s =
      elim (generated connect deps d name package_name) [
        | err e ↦ (err e, log (closed d) (log (opened d) s))
        | ok b ↦ let (r, s') = written_to deps path b (log (opened d) s) in (r, log (closed d) s')
      ]

  unfoldable pub opened_with :
      Text
      → Dependencies D
      → Result D
      → Text
      → Text
      → Text
      → Session D
      → Result (Unit {0}) × Session D
  unfolding with_database
  opened_with connect deps (err e) name package_name path s = (err e, s)
  opened_with connect deps (ok d) name package_name path s =
      with_database connect deps d name package_name path s

  -- `runSQLiteCLI` up to `open`
  unfoldable pub open_sqlite : Dependencies D → (Text → Text) → Result D
  unfolding codes
  open_sqlite deps flags = do
    fail_if (is_empty (flags (codes "database")))
        (errorf (codes "SQLite database path is required"))
    prefixed (codes "open SQLite database: ") (deps.open_database (flags (codes "database")))

  abbrev pub open_from_env : Text → Dependencies D → Text → Result D
  open_from_env name deps variable = elim (set_value (deps.lookup_env variable)) [
    | none ↦
        err (
          errorf
            (name ++ (codes " DSN environment variable " ++ (variable ++ codes " is not set"))))
    | some dsn ↦ deps.open_database dsn
  ]

  unfoldable pub open_mysql : Dependencies D → (Text → Text) → Result D
  unfolding codes
  open_mysql deps flags = do
    fail_if (is_empty (flags (codes "database"))) (errorf (codes "MySQL database name is required"))
    open_from_env (codes "MySQL") deps (flags (codes "dsn-env"))

  unfoldable pub open_postgres : Dependencies D → (Text → Text) → Result D
  unfolding codes
  open_postgres deps flags = open_from_env (codes "PostgreSQL") deps (flags (codes "dsn-env"))

  -- What the three functions do with the parsed flags.
  unfoldable pub run_database :
      Text
      → Dependencies D
      → Result (Text → Text)
      → ((Text → Text) → Result D)
      → ((Text → Text) → Text)
      → Session D
      → Result (Unit {0}) × Session D
  unfolding opened_with codes
  run_database connect deps (err e) opening name s = (err e, s)
  run_database connect deps (ok flags) opening name s =
      opened_with connect deps (opening flags) (name flags) (flags (codes "package"))
        (flags (codes "output")) s

  unfoldable pub run_sqlite :
      Parse → List Text → Dependencies D → Session D → Result (Unit {0}) × Session D
  unfolding open_sqlite run_database codes
  run_sqlite parse arguments deps s =
      run_database (codes "connect to SQLite: ") deps (parse sqlite_flags arguments)
        (open_sqlite deps) (λ flags. []) s

  unfoldable pub run_mysql :
      Parse → List Text → Dependencies D → Session D → Result (Unit {0}) × Session D
  unfolding open_mysql run_database codes
  run_mysql parse arguments deps s =
      run_database (codes "connect to MySQL: ") deps (parse mysql_flags arguments) (open_mysql deps)
        (λ flags. flags (codes "database")) s

  unfoldable pub run_postgres :
      Parse → List Text → Dependencies D → Session D → Result (Unit {0}) × Session D
  unfolding open_postgres run_database codes
  run_postgres parse arguments deps s =
      run_database (codes "connect to PostgreSQL: ") deps (parse postgres_flags arguments)
        (open_postgres deps) (λ flags. flags (codes "schema")) s

-- The files that `run` reads: standard input, and what `os.Open` gives for a path.
pub record Inputs : Type 0 where
  pub stdin : List ℕ
  pub open_file : Text → Result (List ℕ)
  pub decode : List ℕ → Result Schema

unfoldable pub open_input : Inputs → Text → Result (List ℕ)
unfolding equal codes
open_input i path =
    if equal path (codes "-")
    then ok i.stdin
    else prefixed (codes "open schema IR: ") (i.open_file path)

-- `run` up to the text that it writes.
unfoldable pub text_of_input :
    Inputs → (Schema → Text → Result (List ℕ)) → Text → Text → Result (List ℕ)
unfolding open_input
text_of_input i generate package_name path = do
  input ← open_input i path
  found ← prefixed (codes "decode schema IR: ") (i.decode input)
  generate found package_name

module _ {D : Type 0} where
  unfoldable pub run :
      Inputs → Dependencies D → Text → Text → Text → Session D → Result (Unit {0}) × Session D
  unfolding text_of_input written_to
  run i deps package_name input output s = elim (text_of_input i deps.generate package_name input) [
    | err e ↦ (err e, s)
    | ok b ↦ written_to deps output b s
  ]

  abbrev run_file :
      Parse → Inputs → List Text → Dependencies D → Session D → Result (Unit {0}) × Session D
  run_file parse i arguments deps s = elim (parse file_flags arguments) [
    | err e ↦ (err e, s)
    | ok flags ↦
        run i deps (flags (codes "package")) (flags (codes "schema")) (flags (codes "output")) s
  ]

  -- `dispatch`: the dependencies are those for PostgreSQL, MySQL and SQLite, and the functions that
  -- `run` calls.
  unfoldable pub dispatch :
      Parse
      → Inputs
      → Dependencies D
      → Dependencies D
      → Dependencies D
      → Dependencies D
      → List Text
      → Session D
      → Result (Unit {0}) × Session D
  unfolding equal codes run_postgres run_mysql run_sqlite run
  dispatch parse i postgres mysql sqlite direct [] s = run_file parse i [] direct s
  dispatch parse i postgres mysql sqlite direct (a ∷ rest) s =
      if equal a (codes "postgres")
      then run_postgres parse rest postgres s
      else if equal a (codes "mysql")
      then run_mysql parse rest mysql s
      else if equal a (codes "sqlite")
      then run_sqlite parse rest sqlite s
      else run_file parse i (a ∷ rest) direct s
