-- ===== src/Migrations/OneFile.antt =====
-- runner.go: one file is applied whole or not at all.
use aelora.Prelude.{
  ◌≡◌, refl, sym, ap, ◌∙◌, ◌⊎◌, inl, inr, String, Bool, true, false, List, [], ◌∷◌, ◌++◌, contains,
  if◌then◌else◌,
}
use mathlib.Core.Path.{subst}
use aelora.Domain.{Result, ok, err}
use aelora.Call.{pure, lift, ◌>>=◌, ◌>>◌}
use aelora.Call.Post.{Post, Post-pure, Post-lift, Post-then, Post-weaken, Post-at}
use aelora.Postgres.{Instance, exec, transaction}
use aelora.Postgres.Statement.{Answered, exec-Post, Committed, transaction-Post}
use aelora.Migrations.{
  Files, Tables, Database, load_statements, run_statement, record_version, exec_all, migrate_file,
}

module _ {D : Type 0} (p : Files) (sql : String → D → D) where
  -- The statements of a file, one behind the other.
  abbrev pub apply_all : List String → D → D
  apply_all [] schema = schema
  apply_all (stmt ∷ rest) schema = apply_all rest (sql stmt schema)

  -- A file is applied whole, and recorded.
  abbrev pub applied : String → List String → Tables D → Tables D
  applied file statements t = record {
    schema = apply_all statements t.schema;
    versions = t.versions ++ file ∷ [];
  }

  -- What one file may do.
  unfoldable pub Step : String → Tables D → Tables D → Type 0
  Step file t t' =
      (contains file t.versions ≡ true) × (t' ≡ t)
      ⊎ ((statements : List String) × (contains file t.versions ≡ false)
          × (load_statements p file ≡ ok statements)
          × (t' ≡ applied file statements t))

  with_schema : List String → Database D → Database D
  with_schema statements db = record db {
    tables = record db.tables { schema = apply_all statements db.tables.schema };
  }

  Executed : List String → Database D → Result (Unit {0}) → Instance (Database D) → Type 0
  unfolding with_schema
  Executed statements db (ok u) s = s.db ≡ with_schema statements db
  Executed statements db (err e) s = Unit

  executed :
      (stmt : String) (rest : List String) (db db1 : Database D)
      → (run_statement p sql stmt db).1 ≡ db1
      → (r : Result (Unit {0})) (s : Instance (Database D)) → Executed rest db1 r s
      → Executed (stmt ∷ rest) db r s
  unfolding Executed with_schema
  executed stmt rest db db1 e (ok u) s h = h ∙ ap (with_schema rest) (sym e)
  executed stmt rest db db1 e (err x) s h = tt

  exec_all-Post :
      (statements : List String) (s : Instance (Database D))
      → Post (Executed statements s.db) (exec_all p sql statements) s
  unfolding exec_all Executed with_schema
  exec_all-Post [] s = Post-pure refl
  exec_all-Post (stmt ∷ rest) s =
      Post-then (exec-Post (run_statement p sql stmt) s) (λ e s1 q. tt)
        λ u s1 h q.
          Post-weaken (executed stmt rest s.db s1.db (ap (λ x. x.1) q)) (exec_all-Post rest s1)

  with_file : String → List String → Database D → Database D
  with_file file statements db = record db { tables = applied file statements db.tables }

  Applied : String → List String → Database D → Result (Unit {0}) → Instance (Database D) → Type 0
  Applied file statements db (ok u) s = s.db ≡ with_file file statements db
  Applied file statements db (err e) s = Unit

  recorded :
      (file : String) (statements : List String) (db : Database D) (s : Instance (Database D))
      → s.db ≡ with_schema statements db
      → (r : Result (Unit {0})) (s' : Instance (Database D))
      → Answered (record_version p sql file) s.db r s'
      → Applied file statements db r s'
  unfolding Applied with_schema with_file
  recorded file statements db s e (ok u) s' a =
      sym (ap (λ x. x.1) a) ∙ ap (λ d. (record_version p sql file d).1) e
  recorded file statements db s e (err x) s' a = tt

  body-Post :
      (file : String) (statements : List String) (s : Instance (Database D))
      → Post
          (Applied file statements s.db)
          (exec_all p sql statements >> exec (record_version p sql file))
          s
  unfolding Executed Applied
  body-Post file statements s =
      Post-then (exec_all-Post statements s) (λ e s1 q. tt)
        λ u s1 h q.
          Post-weaken (recorded file statements s.db s1 q)
            (exec-Post (record_version p sql file) s1)

  Kept : String → List String → Database D → Result (Unit {0}) → Instance (Database D) → Type 0
  Kept file statements db (ok u) s = s.db ≡ with_file file statements db
  Kept file statements db (err e) s = s.db ≡ db

  kept :
      (file : String) (statements : List String) (db : Database D)
      → (r : Result (Unit {0})) (s' : Instance (Database D))
      → Committed (exec_all p sql statements >> exec (record_version p sql file)) db r s'
      → Kept file statements db r s'
  unfolding Kept Applied
  kept file statements db (ok u) s' (b, c, start, ran, e) =
      e
      ∙ Post-at {Q = Applied file statements b.db} (ok u) c (body-Post file statements b) ran
      ∙ ap (with_file file statements) start
  kept file statements db (err x) s' e = e

  -- One file: its step, or no change. The lock is as it was.
  unfoldable pub Stepped : String → Database D → Result (Unit {0}) → Instance (Database D) → Type 0
  Stepped file db (ok u) s = Step file db.tables s.db.tables × (s.db.locked ≡ db.locked)
  Stepped file db (err e) s = s.db ≡ db

  stepped :
      (file : String) (statements : List String) (db : Database D)
      → contains file db.tables.versions ≡ false
      → load_statements p file ≡ ok statements
      → (r : Result (Unit {0})) (s : Instance (Database D)) → Kept file statements db r s
      → Stepped file db r s
  unfolding Kept Stepped Step with_file
  stepped file statements db c l (ok u) s k =
      (inr (statements, c, l, ap (λ d. d.tables) k), ap (λ d. d.locked) k)
  stepped file statements db c l (err e) s k = k

  pending-Post :
      (file : String) (exists : Bool) (s : Instance (Database D))
      → contains file s.db.tables.versions ≡ exists
      → Post
          (Stepped file s.db)
          (if exists then pure tt else do
            statements ← lift (load_statements p file)
            transaction (exec_all p sql statements >> exec (record_version p sql file)))
          s
  unfolding Stepped Step
  pending-Post file true s c = Post-pure (inl (c, refl), refl)
  pending-Post file false s c =
      Post-lift (load_statements p file) (λ e l. refl)
        λ statements l.
          Post-weaken
            (λ r s' k. stepped file statements s.db c l r s' (kept file statements s.db r s' k))
            (transaction-Post (exec_all p sql statements >> exec (record_version p sql file)) s)

  -- One file is passed over because it is recorded, or applied whole and recorded, or nothing
  -- changes.
  pub migrate_file-Post :
      (file : String) (s : Instance (Database D))
      → Post (Stepped file s.db) (migrate_file p sql file) s
  unfolding migrate_file Stepped
  migrate_file-Post file s =
      Post-then (exec-Post (λ db. (contains file db.tables.versions, db)) s) (λ e s1 q. q)
        λ exists s1 h q.
          let same = ap (λ x. x.1) q in
          Post-weaken (λ r s2. subst (λ d. Stepped file d r s2) (sym same))
            (pending-Post file exists s1
              (ap (λ d. contains file d.tables.versions) (sym same) ∙ ap (λ x. x.0) q))
