-- ===== src/Migrations/Prefix.antt =====
-- runner.go: what a run leaves is what a prefix of the files does, each pending file whole.
use aelora.Prelude.{
  ◌≡◌, refl, sym, ap, ◌∙◌, ◌⊎◌, inl, inr, String, Bool, not, true, false, List, [], ◌∷◌, ◌++◌,
  contains, trim_space, ◌==◌, arith, if◌then◌else◌,
}
use mathlib.Core.Path.{subst}
use aelora.Domain.{Error, other, Result, ok, err}
use aelora.Call.{fail}
use aelora.Call.Post.{Post, Post-pure, Post-fail, Post-if, Post-lift, Post-then, Post-weaken}
use aelora.Postgres.{Instance, exec}
use aelora.Postgres.Statement.{Answered, exec-Post}
use aelora.Migrations.OneFile.{applied, Step, Stepped, migrate_file-Post}
use aelora.Migrations.{
  Files, Tables, Database, migration_files, load_statements, unlock, unlocked, try_lock,
  migrate_files, migrate, run_postgres,
}

module _ {D : Type 0} (p : Files) (sql : String → D → D) where
  -- Files in their order: each that is recorded is passed over, each other is applied.
  pub data Migrated : List String → Tables D → Tables D → Type 0 where
    done : {t : Tables D} → Migrated [] t t
    skip :
        {file : String} {rest : List String} {t t' : Tables D}
        → contains file t.versions ≡ true
        → Migrated rest t t'
        → Migrated (file ∷ rest) t t'
    apply :
        {file : String} {rest statements : List String} {t t' : Tables D}
        → contains file t.versions ≡ false
        → load_statements p file ≡ ok statements
        → Migrated rest (applied p sql file statements t) t'
        → Migrated (file ∷ rest) t t'

  step :
      {file : String} {rest : List String} {t t1 t2 : Tables D}
      → Step p sql file t t1
      → Migrated rest t1 t2
      → Migrated (file ∷ rest) t t2
  unfolding Step
  step {rest = rest} {t2 = t2} (inl (c, e)) m = skip c (subst (λ x. Migrated rest x t2) e m)
  step {rest = rest} {t2 = t2} (inr (statements, c, l, e)) m =
      apply c l (subst (λ x. Migrated rest x t2) e m)

  -- All of the files, or the first of them; the lock is as it was.
  pub Migration : List String → Database D → Result (Unit {0}) → Instance (Database D) → Type 0
  Migration files db (ok u) s = Migrated files db.tables s.db.tables × (s.db.locked ≡ db.locked)
  Migration files db (err e) s =
      (first : List String) × (rest : List String) × (first ++ rest ≡ files)
      × Migrated first db.tables s.db.tables
      × (s.db.locked ≡ db.locked)

  one_more :
      (file : String) (rest : List String) (db : Database D) (s : Instance (Database D))
      → Stepped p sql file db (ok tt) s
      → (r : Result (Unit {0})) (s' : Instance (Database D)) → Migration rest s.db r s'
      → Migration (file ∷ rest) db r s'
  unfolding Stepped Migration
  one_more file rest db s (st, l) (ok u) s' (m, l') = (step st m, l' ∙ l)
  one_more file rest db s (st, l) (err e) s' (first, last, eq, m, l') =
      (file ∷ first, last, ap (λ x. file ∷ x) eq, step st m, l' ∙ l)

  pub migrate_files-Post :
      (files : List String) (s : Instance (Database D))
      → Post (Migration files s.db) (migrate_files p sql files) s
  unfolding migrate_files Migration Stepped
  migrate_files-Post [] s = Post-pure (done, refl)
  migrate_files-Post (file ∷ rest) s =
      Post-then (migrate_file-Post p sql file s)
        (λ e s1 q. (
          [],
          file ∷ rest,
          refl,
          subst (λ d. Migrated [] s.db.tables d.tables) (sym q) done,
          ap (λ d. d.locked) q,
        ))
        λ u s1 h q. Post-weaken (one_more file rest s.db s1 q) (migrate_files-Post rest s1)

  -- A run: all of the files of the directory, or the first of them.
  unfoldable pub Ran : Database D → Result (Unit {0}) → Instance (Database D) → Type 0
  Ran db (ok u) s =
      (files : List String) × (migration_files p ≡ ok files)
      × Migrated files db.tables s.db.tables
      × (s.db.locked ≡ db.locked)
  Ran db (err e) s =
      (first : List String) × (rest : List String) × ((first ≡ [])
        ⊎ (migration_files p ≡ ok (first ++ rest)))
      × Migrated first db.tables s.db.tables
      × (s.db.locked ≡ db.locked)

  unchanged :
      (db : Database D) (e : Error) (s : Instance (Database D)) → s.db ≡ db → Ran db (err e) s
  unfolding Ran
  unchanged db e s q = (
    [],
    [],
    inl refl,
    subst (λ d. Migrated [] db.tables d.tables) (sym q) done,
    ap (λ d. d.locked) q,
  )

  ran :
      (files : List String) (db : Database D)
      → migration_files p ≡ ok files
      → (r : Result (Unit {0})) (s : Instance (Database D)) → Migration files db r s
      → Ran db r s
  unfolding Ran Migration
  ran files db f (ok u) s (m, l) = (files, f, m, l)
  ran files db f (err e) s (first, rest, eq, m, l) = (first, rest, inr (f ∙ ap ok (sym eq)), m, l)

  nothing : Database D → Unit {0} × Database D
  nothing db = (tt, db)

  migrate-Post : (s : Instance (Database D)) → Post (Ran s.db) (migrate p sql) s
  unfolding migrate nothing
  migrate-Post s =
      Post-then (exec-Post nothing s) (λ e s1 q. unchanged s.db e s1 q)
        λ u s1 h q.
          Post-weaken (λ r s2. subst (λ d. Ran d r s2) (sym (ap (λ x. x.1) q)))
            (Post-lift (migration_files p) (λ e f. unchanged s1.db e s1 refl)
              λ files f. Post-weaken (ran files s1.db f) (migrate_files-Post files s1))

  released :
      (db : Database D) (r : Result (Unit {0})) (s s' : Instance (Database D))
      → db.locked ≡ false
      → s'.db ≡ s.db
      → Ran (record db { locked = true }) r s
      → Ran db r (unlock p sql s')
  unfolding Ran unlock
  released db (ok u) s s' free same (files, f, m, l) =
      (files, f, subst (λ d. Migrated files db.tables d.tables) (sym same) m, sym free)
  released db (err e) s s' free same (first, rest, w, m, l) =
      (first, rest, w, subst (λ d. Migrated first db.tables d.tables) (sym same) m, sym free)

  settled :
      (r : Result (Unit {0})) (db : Database D) (s : Instance (Database D))
      → Answered nothing db r s
      → s.db ≡ db
  unfolding nothing
  settled (ok u) db s a = sym (ap (λ x. x.1) a)
  settled (err e) db s a = a

  unlocked-Post :
      (db : Database D) (s : Instance (Database D))
      → db.locked ≡ false
      → s.db ≡ record db { locked = true }
      → Post (Ran db) (unlocked p sql (migrate p sql)) s
  unfolding nothing
  unlocked-Post db s free e =
      let (r, s') = migrate p sql s in
      record {
        holds =
            released db r s' (exec nothing s').1 free
              (settled (exec nothing s').0 s'.db (exec nothing s').1 (exec-Post nothing s').holds)
              (subst (λ d. Ran d r s') e (migrate-Post s).holds);
      }

  locked-Post :
      (s1 : Instance (Database D)) (acquired : Bool) (s2 : Instance (Database D))
      → Answered (try_lock p sql) s1.db (ok acquired) s2
      → Post
          (Ran s1.db)
          (if not acquired
            then fail (other "postgres migration lock is already held")
            else unlocked p sql (migrate p sql))
          s2
  unfolding try_lock
  locked-Post s1 true s2 q =
      let free = ap (λ x. x.0) q in unlocked-Post s1.db s2 (ground arith) (sym (ap (λ x. x.1) q))
  locked-Post s1 false s2 q =
      let held = ap (λ x. x.0) q in
      let before =
        ap {A = Bool} (λ b. record s1.db { locked = b }) {x = true} {y = s1.db.locked}
          (ground arith) in
      Post-fail (unchanged s1.db _ s2 (sym (ap (λ x. x.1) q) ∙ before))

  -- However a run ends, the tables are what the first of the directory's files make of them, in
  -- their order, each that was not recorded applied whole and recorded; where it succeeds these are
  -- all of the files, and the lock is as it was.
  pub run_postgres-Ran :
      (dsn : String) (s : Instance (Database D)) → Post (Ran s.db) (run_postgres p sql dsn) s
  unfolding run_postgres nothing
  run_postgres-Ran dsn s =
      Post-if (trim_space dsn == "") (λ b. Post-fail (unchanged s.db _ s refl))
        λ b.
          Post-lift (p.open_pool dsn) (λ e h. unchanged s.db e s refl)
            λ u h.
              Post-then (exec-Post nothing s) (λ e s1 q. unchanged s.db e s1 q)
                λ u s1 h q.
                  Post-weaken (λ r s2. subst (λ d. Ran d r s2) (sym (ap (λ x. x.1) q)))
                    (Post-then (exec-Post (try_lock p sql) s1) (λ e s2 q2. unchanged s1.db e s2 q2)
                      λ acquired s2 h2 q2. locked-Post s1 acquired s2 q2)
