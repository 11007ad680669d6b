-- ===== src/Tests/Commands.antt =====
-- The commands on concrete files.
use tiqq.Prelude.{
  err, errorf, ok, true, [], none, some, codes, equal, equal_iff, if◌then◌else◌, ◌≡◌, ◌≢◌, refl,
}
use tiqq.Introspect.Sqlite
use tiqq.Tests.Generator.{latin}
use tiqq.Command.Run.{Session, run_sqlite}
use tiqq.Command.Defaults.{System, default_sqlite}
use tiqq.Command.Defaults.Output.{Written, IsText, run_sqlite-Written}
use tiqq.Command.Write.{World, Answers, write_generated}
use tiqq.Command.Write.Atomic.{Replaces, write_generated-Replaces}

abbrev one_file : World
one_file = record {
  files = λ p. if equal p (codes "s") then some (codes "old") else none;
  printed = [];
}

-- The disk is full: one byte is written.
abbrev full_disk : Answers
full_disk = record {
  temporary = codes "t";
  create_error = none;
  chmod_error = none;
  write_error = some (codes "no space");
  partial = codes "n";
  sync_error = none;
  close_error = none;
  rename_error = none;
  removed = true;
}

not_stdout : codes "s" ≢ codes "-"
unfolding codes
not_stdout e = cc e

not_target : codes "t" ≢ codes "s"
unfolding codes equal
not_target e = cc ((equal_iff (codes "t") (codes "s")).1 e)

no_temporary : one_file.files (codes "t") ≡ none
unfolding codes equal
no_temporary = refl

write_generated-Replaces_example :
    Replaces full_disk
      (codes "s")
      (codes "new")
      one_file
      (write_generated full_disk (codes "s") (codes "new") one_file)
write_generated-Replaces_example =
    write_generated-Replaces full_disk (codes "s") (codes "new") one_file not_stdout no_temporary
      not_target

abbrev computer : System
computer = record {
  environment = λ v. none;
  answers = record full_disk { write_error = none };
  unicode = latin;
  quote = λ t. t;
  format = λ t. ok t;
}

-- A database without tables.
abbrev empty_database : Sqlite.Database
empty_database = record {
  table_rows = λ q. ok (record { scans = []; closing = ok tt; iteration = ok tt });
  column_rows = λ q. err (errorf []);
  index_rows = λ q. err (errorf []);
  index_column_rows = λ q. err (errorf []);
  foreign_key_rows = λ q. err (errorf []);
}

abbrev session : Session Sqlite.Database
session = record { world = one_file; events = [] }

-- Every flag has the value `s`.
run_sqlite-Written_example :
    Written
      (codes "s")
      (IsText computer (λ p. ok empty_database) (λ d. ok tt) (λ p is. is) (λ n. codes "s"))
      session
      (run_sqlite
        (λ fs arguments. ok (λ n. codes "s"))
        []
        (default_sqlite computer (λ p. ok empty_database) (λ d. ok tt) (λ p is. is))
        session)
run_sqlite-Written_example =
    run_sqlite-Written computer (λ p. ok empty_database) (λ d. ok tt) (λ p is. is)
      (λ fs arguments. ok (λ n. codes "s")) [] (λ n. codes "s") session refl not_stdout no_temporary
      not_target
