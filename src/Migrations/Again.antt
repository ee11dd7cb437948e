-- ===== src/Migrations/Again.antt =====
-- runner.go: a run behind a run that succeeded has nothing left to do.
use aelora.Prelude.{
  ◌≡◌, refl, sym, ◌∙◌, String, ◌==◌, true, List, [], ◌∷◌, contains, contains-append, eq_iff,
  eq_refl, arith, Bool-cases, inl, inr,
}
use mathlib.Core.Path.{subst}
use mathlib.Core.Bool.{false≢true}
use aelora.Domain.{ok}
use aelora.Call.Post.{Post-at}
use aelora.Postgres.{Instance}
use aelora.Migrations.{Files, Tables, Database, run_postgres}
use aelora.Migrations.Prefix.{Migrated, done, skip, apply, Ran, run_postgres-Ran}

module _ {D : Type 0} (p : Files) (sql : String → D → D) where
  -- What is recorded stays recorded.
  recorded_stays :
      {files : List String} {t t' : Tables D}
      → Migrated p sql files t t'
      → (file : String) → contains file t.versions ≡ true
      → contains file t'.versions ≡ true
  recorded_stays done file c = c
  recorded_stays (skip s m) file c = recorded_stays m file c
  recorded_stays {t = t} (apply {file = f} n l m) file c =
      recorded_stays m file (ground (arith, contains-append file t.versions (f ∷ [])))

  -- Every file that was passed is recorded.
  file_recorded :
      {files : List String} {t t' : Tables D}
      → Migrated p sql files t t'
      → (file : String) → contains file files ≡ true
      → contains file t'.versions ≡ true
  file_recorded done file c = cc
  file_recorded {t = t} (skip {file = f} {rest = rest} s m) file c = elim (Bool-cases (f == file)) [
    | inl b ↦
        recorded_stays m file (subst (λ x. contains x t.versions ≡ true) ((eq_iff f file).0 b) s)
    | inr b ↦ file_recorded m file (ground arith)
  ]
  file_recorded {t = t} (apply {file = f} {rest = rest} n l m) file c =
      elim (Bool-cases (f == file)) [
        | inl b ↦ recorded_stays m file (ground (arith, contains-append file t.versions (f ∷ [])))
        | inr b ↦ file_recorded m file (ground arith)
      ]

  -- Where each file is recorded, nothing changes.
  all_recorded :
      (files : List String) {t t' : Tables D}
      → ((file : String) → contains file files ≡ true → contains file t.versions ≡ true)
      → Migrated p sql files t t'
      → t' ≡ t
  all_recorded [] c done = refl
  all_recorded (f ∷ rest) c (skip s m) = all_recorded rest (λ file h. c file (ground arith)) m
  all_recorded (f ∷ rest) c (apply n l m) =
      elim (false≢true (sym n ∙ c f (ground (arith, eq_refl f)))) [ ]

  same_db : (a b : Database D) → a.tables ≡ b.tables → a.locked ≡ b.locked → a ≡ b
  same_db a b tables locked = λ i. record { tables = tables i; locked = locked i }

  -- A run that succeeds behind a run that succeeded leaves the tables as they were, whatever the two
  -- servers' schedules were.
  pub run_again :
      (dsn dsn' : String) (s s1 s2 s3 : Instance (Database D))
      → run_postgres p sql dsn s ≡ (ok tt, s1)
      → s2.db ≡ s1.db
      → run_postgres p sql dsn' s2 ≡ (ok tt, s3)
      → s3.db ≡ s1.db
  unfolding Ran
  run_again dsn dsn' s s1 s2 s3 first same second =
      let (files, f, m, l) =
        Post-at {Q = Ran p sql s.db} (ok tt) s1 (run_postgres-Ran p sql dsn s) first in
      let (files', f', m', l') =
        Post-at {Q = Ran p sql s2.db} (ok tt) s3 (run_postgres-Ran p sql dsn' s2) second in
      let eq : files' ≡ files = cc in
      let tables =
        all_recorded files'
          (λ file c.
            subst (λ d. contains file d.tables.versions ≡ true) (sym same)
              (file_recorded m file (subst (λ x. contains file x ≡ true) eq c)))
          m' in
      same_db s3.db s2.db tables l' ∙ same
