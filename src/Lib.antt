-- ===== src/Lib.antt =====
-- tiqq, a typed SQL query builder for Go with a generator of table definitions.
--
-- The program. A user's code builds a query by value: tables, columns, predicates and orders
-- (dialect.go, column.go, aggregate.go, order.go, expression.go) go into a SELECT, INSERT,
-- UPDATE or DELETE (query.go, insert.go, update.go, delete.go), whose `Build` checks it and
-- writes the SQL text of one dialect with its arguments: a statement (statement.go), by which
-- scanned rows are read, and their values converted (decimal.go too). The generator
-- (codegen/generate.go) makes Go types and names of a database schema (schema/ir.go), which the
-- packages under introspect/ read from a database, and which the command cmd/tiqq-gen asks for,
-- and whose text it writes to a file.
--
-- The files. Prelude: Go's strings, errors and sets. Value: values of type `any`. Dialect:
-- dialect.go and the table references of query.go. Column: column.go, aggregate.go, order.go.
-- Predicate: expression.go. Validate: the checks that the builders share, and returning.go.
-- Statement: statement.go. Source, Join, Grouping and Select: query.go. Delete: delete.go.
-- Update: update.go. Insert and Insert/Conflict: insert.go. Postgres, Sqlite, Mysql: insert.go
-- of the packages postgres, sqlite and mysql. Schema: schema/ir.go. Codegen:
-- codegen/generate.go. Statement/Convert: `Args` and `Row.Get` of statement.go. Decimal:
-- decimal.go. Introspect: the packages under introspect/, with Introspect/Tables for what the
-- two that read an information schema have in common. Command: cmd/tiqq-gen/main.go, Write for
-- writeGenerated, Defaults for `main` and the default dependencies, and Run for the rest. Scan
-- is the specification of placeholders, an SQL lexer that skips quoted identifiers; a word is
-- plain there if it has no quote character, `$` or `?` and does not start with a digit. The
-- children of a module hold its theorems; Tests holds concrete queries.
--
-- How the code is read. A Go string is the list of its bytes where it is a value of a database,
-- and of its code points in the generator; the literals are ASCII, for which both agree. A pair
-- of a value and an error is a `Result`; an error has its formatted text, and a panic is the
-- error `panic`. A method that copies its receiver and appends by `appendCopy` is a function
-- from query to query, and so no two queries share a slice. A map from strings to booleans is
-- the list of its keys, and any other map an association list, ranged over in an order that is
-- a parameter. A loop is a function by recursion on the list that it ranges over; `Build` is
-- the chain of its checks in the order of the code, followed by `render`, which is everything
-- that it writes. Numbers of placeholders are natural numbers; a negative LIMIT is an integer.
-- `decimal` prints a number by recursion on fuel, one more than the number, which is enough
-- since each step divides the number by ten. A Go name in use in antt has another spelling:
-- `Where` is `where_all`, `In` is `in_list`.
--
-- Parameters: what a database driver leaves in the destinations of `Scan`, and what it answers
-- to the queries of an introspection, whose numbers are natural numbers; the order in which Go
-- visits the keys of a map, at each range of a run; uuid.Parse, `UUID.String`, jsontext, the
-- rounding of an integer to a float, and what package reflect makes of a value whose type
-- `Value` does not name (Externals of Statement/Convert); the parsing of flags, the opening of
-- databases and the decoding of JSON; `strconv.Quote` and `format.Source` in the generator; the
-- errors of the operating system's calls (Answers of Command/Write), while what these calls do
-- to files is written out; what package unicode says of the characters outside ASCII in the
-- names of the generator: the letters, the digits, and the upper case (Unicode of
-- Codegen/Words). Database types are ASCII, and so is their case conversion; `%q` in the
-- generator's messages is the name in plain quotes.
--
-- Not modelled: that another process may touch the files between two calls. A partial result
-- that comes with an error is left out. example/schema/schema.go is generated code, and
-- integration/ holds tests against databases.
pub mod Prelude
pub mod Value
pub mod Dialect
pub mod Column
pub mod Predicate
pub mod Scan
pub mod Validate
pub mod Statement
pub mod Source
pub mod Delete
pub mod Update
pub mod Grouping
pub mod Join
pub mod Select
pub mod Insert
pub mod Postgres
pub mod Sqlite
pub mod Mysql
pub mod Schema
pub mod Codegen
pub mod Introspect
pub mod Decimal
pub mod Command
pub mod Tests
