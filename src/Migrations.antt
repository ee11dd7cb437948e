-- ===== src/Migrations.antt =====
-- internal/platform/migrations/runner.go over a PostgreSQL server as in Postgres: which of the
-- statements fail is its schedule. The directory and the driver's parser of the DSN are parameters.
-- A file is named by its name in the directory, and an error is passed on without the text that is
-- wrapped around it.
pub mod OneFile
pub mod Prefix
pub mod Again
use Prim.Native.Char.{Char, code}
use aelora.Prelude.{
  String, ◌==◌, Bool, true, false, not, ◌||◌, List, [], ◌∷◌, ◌++◌, contains, eqb, trim_space,
  has_prefix, split, join, sort_texts, if◌then◌else◌,
}
use aelora.Domain.{Error, other, Result, ok, err}
use aelora.Call.{Call, pure, fail, lift, modify, handle, ◌>>=◌, ◌>>◌}
use aelora.Postgres.{Instance, exec, transaction}

pub record Config : Type 0 where
  pub enabled : Bool
  pub postgres_dsn : String

pub record Entry : Type 0 where
  pub name : String
  pub is_dir : Bool

-- `read_dir` and `read_file` are package os on the directory of migrations; `open_pool` is
-- `pgxpool.New`, which parses the DSN.
pub record Files : Type 0 where
  pub read_dir : Result (List Entry)
  pub read_file : String → Result String
  pub open_pool : String → Result (Unit {0})

-- `schema` is all that the migrations change, and `versions` the rows of schema_migrations.
pub record Tables (D : Type 0) : Type 0 where
  pub schema : D
  pub versions : List String

-- `locked` says whether a session holds the advisory lock.
pub record Database (D : Type 0) : Type 0 where
  pub tables : Tables D
  pub locked : Bool

-- `filepath.Ext` of a name: from its last dot on.
unfoldable pub ext : String → String
ext String.[] = ""
ext (String.◌∷◌ c s) =
    let rest = ext s in
    if not (rest == "") then rest else if eqb (code c) (code ".") then String.◌∷◌ c s else ""

-- The loop over the entries.
sql_files : List Entry → List String
unfolding ext
sql_files [] = []
sql_files (entry ∷ rest) =
    let others = sql_files rest in
    if entry.is_dir || not (ext entry.name == ".sql") then others else entry.name ∷ others

files_of : Result (List Entry) → Result (List String)
unfolding sql_files
files_of (err e) = err e
files_of (ok entries) = ok (sort_texts (sql_files entries))

unfoldable pub migration_files : Files → Result (List String)
unfolding files_of
migration_files p = files_of p.read_dir

-- The lines that are no comments.
cleaned : List String → List String
cleaned [] = []
cleaned (line ∷ rest) =
    let others = cleaned rest in if has_prefix (trim_space line) "--" then others else line ∷ others

-- The pieces that are not blank.
trimmed : List String → List String
trimmed [] = []
trimmed (stmt ∷ rest) =
    let others = trimmed rest in if trim_space stmt == "" then others else trim_space stmt ∷ others

unfoldable pub statements_of : String → List String
unfolding cleaned trimmed
statements_of content = trimmed (split ";" (join "\n" (cleaned (split "\n" content))))

loaded : Result String → Result (List String)
unfolding statements_of
loaded (err e) = err e
loaded (ok content) = ok (statements_of content)

unfoldable pub load_statements : Files → String → Result (List String)
unfolding loaded
load_statements p file = loaded (p.read_file file)

-- `sql` is what a statement of a migration does to the schema.
module _ {D : Type 0} (p : Files) (sql : String → D → D) where
  abbrev run_statement : String → Database D → Unit {0} × Database D
  run_statement stmt db =
      (tt, record db { tables = record db.tables { schema = sql stmt db.tables.schema } })

  abbrev record_version : String → Database D → Unit {0} × Database D
  record_version version db = (
    tt,
    record db { tables = record db.tables { versions = db.tables.versions ++ version ∷ [] } },
  )

  -- The loop over the statements.
  unfoldable pub exec_all : List String → Call (Instance (Database D)) (Unit {0})
  exec_all [] = pure tt
  exec_all (stmt ∷ rest) = exec (run_statement stmt) >> exec_all rest

  -- The body of the loop over the files.
  unfoldable pub migrate_file : String → Call (Instance (Database D)) (Unit {0})
  unfolding exec_all load_statements
  migrate_file file = do
    exists ← exec (λ db. (contains file db.tables.versions, db))
    if exists then pure tt else do
      statements ← lift (load_statements p file)
      transaction (exec_all statements >> exec (record_version file))

  unfoldable pub migrate_files : List String → Call (Instance (Database D)) (Unit {0})
  unfolding migrate_file
  migrate_files [] = pure tt
  migrate_files (file ∷ rest) = migrate_file file >> migrate_files rest

  -- The part that the advisory lock protects.
  unfoldable pub migrate : Call (Instance (Database D)) (Unit {0})
  unfolding migrate_files migration_files
  migrate = do exec (λ db. (tt, db)); files ← lift (migration_files p); migrate_files files

  unlock : Instance (Database D) → Instance (Database D)
  unlock s = record s { db = record s.db { locked = false } }

  -- Unlocking and closing the pool, whatever `m` ends in: closing ends the session that holds the
  -- lock also where the unlock fails.
  abbrev unlocked :
      Call (Instance (Database D)) (Unit {0}) → Call (Instance (Database D)) (Unit {0})
  unlocked m s = let (r, s') = m s in (r, unlock (exec {D = Database D} (λ db. (tt {0}, db)) s').1)

  try_lock : Database D → Bool × Database D
  try_lock db = (not db.locked, record db { locked = true })

  unfoldable pub run_postgres : String → Call (Instance (Database D)) (Unit {0})
  unfolding migrate unlock try_lock
  run_postgres dsn =
      if trim_space dsn == "" then fail (other "postgres migration failed: empty dsn") else do
        lift (p.open_pool dsn)
        exec (λ db. (tt {0}, db))
        acquired ← exec try_lock
        if not acquired
            then fail (other "postgres migration lock is already held")
            else unlocked migrate

  unfoldable pub run : Config → Call (Instance (Database D)) (Unit {0})
  unfolding run_postgres
  run cfg = if not cfg.enabled then pure tt else run_postgres cfg.postgres_dsn
