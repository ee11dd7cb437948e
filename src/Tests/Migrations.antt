-- ===== src/Tests/Migrations.antt =====
-- Two migrations, of which the second has two statements.
use aelora.Prelude.{
  ◌≡◌, refl, String, ◌==◌, false, List, [], ◌∷◌, ◌++◌, some, none, trim_space, if◌then◌else◌,
}
use aelora.Domain.{ok, other}
use aelora.Call.{lift}
use aelora.Call.Post.{Post}
use aelora.Postgres.{Instance, exec, transaction}
use aelora.Migrations.{Files, Database, run_postgres}
use aelora.Migrations.Prefix.{Ran, run_postgres-Ran}
use aelora.Migrations.Again.{run_again}

abbrev files : Files
files = record {
  read_dir = ok (
      record { name = "002_b.sql"; is_dir = false }
      ∷ record { name = "readme.md"; is_dir = false }
      ∷ record { name = "001_a.sql"; is_dir = false }
      ∷ []);
  read_file = λ name. if name == "001_a.sql" then ok "-- a\nA;" else ok " B1 ;\nB2;\n";
  open_pool = λ dsn. ok tt;
}

-- The schema is the list of the statements that changed it.
abbrev log : String → List String → List String
log stmt schema = schema ++ stmt ∷ []

abbrev fresh : Instance (Database (List String))
fresh = record {
  db = record { tables = record { schema = []; versions = [] }; locked = false };
  faults = [];
  server_now = 0;
  app_now = 0;
}

abbrev migrated : Instance (Database (List String))
migrated = record fresh {
  db = record {
    tables = record { schema = "A" ∷ "B1" ∷ "B2" ∷ []; versions = "001_a.sql" ∷ "002_b.sql" ∷ [] };
    locked = false;
  };
}

first_run : run_postgres files log "dsn" fresh ≡ (ok tt, migrated)
unfolding run_postgres exec transaction trim_space lift
first_run = refl

second_run : run_postgres files log "dsn" migrated ≡ (ok tt, migrated)
unfolding run_postgres exec transaction trim_space lift
second_run = refl

-- The second file's second statement fails.
abbrev failing : Instance (Database (List String))
failing = record fresh {
  faults =
      none
      ∷ none
      ∷ none
      ∷ none
      ∷ none
      ∷ none
      ∷ none
      ∷ none
      ∷ none
      ∷ none
      ∷ none
      ∷ some (other "down")
      ∷ [];
}

failed_run : (run_postgres files log "dsn" failing).1.db.tables.versions ≡ "001_a.sql" ∷ []
unfolding run_postgres exec transaction trim_space lift
failed_run = refl

run_postgres-Ran_example : Post (Ran files log failing.db) (run_postgres files log "dsn") failing
run_postgres-Ran_example = run_postgres-Ran files log "dsn" failing

-- The same run twice.
rerun : migrated.db ≡ migrated.db
rerun = run_again files log "dsn" "dsn" fresh migrated migrated migrated first_run refl second_run
