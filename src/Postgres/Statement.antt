-- ===== src/Postgres/Statement.antt =====
-- What one statement, and a transaction, does to the tables.
use aelora.Prelude.{◌≡◌, refl, Option, none, some}
use aelora.Domain.{Error, Result, ok, err}
use aelora.Call.{Call}
use aelora.Call.Post.{Post}
use aelora.Postgres.{
  Instance, next_fault, later_faults, answer, exec, settle, rollback, after_begin, transaction,
}

-- An answered statement did what it says; one that failed left the tables as they were.
abbrev pub Answered : {D A : Type 0} → (D → A × D) → D → Result A → Instance D → Type 0
Answered f db (ok a) s = f db ≡ (a, s.db)
Answered f db (err e) s = s.db ≡ db

answered :
    {D A : Type 0} (f : D → A × D) (fault : Option Error) (s : Instance D)
    → Post (Answered f s.db) (answer fault f) s
answered f none s = record { holds = refl }
answered f (some e) s = record { holds = refl }

pub exec-Post : {D A : Type 0} (f : D → A × D) (s : Instance D) → Post (Answered f s.db) (exec f) s
unfolding exec
exec-Post f s = record {
  holds = (answered f (next_fault s.faults) (record s { faults = later_faults s.faults })).holds;
}

-- A transaction: what its statements did, once they were committed; after a failure, where a COMMIT that
-- fails was not carried out, nothing.
abbrev pub Committed : {D A : Type 0} → Call (Instance D) A → D → Result A → Instance D → Type 0
Committed {D = D} body db (ok a) s =
    (b : Instance D) × (c : Instance D) × (b.db ≡ db) × (body b ≡ (ok a, c)) × (s.db ≡ c.db)
Committed body db (err e) s = s.db ≡ db

module _ {D A : Type 0} (body : Call (Instance D) A) (before : D) (b : Instance D)
    (start : b.db ≡ before) where
  commit_by :
      (a : A) (c : Instance D)
      → body b ≡ (ok a, c)
      → (fault : Option Error)
      → let (r, s) =
          rollback before
            (answer fault (λ db. (a, db)) (record c { faults = later_faults c.faults })) in
        Committed body before r s
  commit_by a c p none = (b, c, start, p, refl)
  commit_by a c p (some e) = refl

  settle_by :
      (r : Result A) (c : Instance D)
      → body b ≡ (r, c)
      → let (r', s) = rollback before (settle before (r, c)) in Committed body before r' s
  unfolding exec
  settle_by (ok a) c p = commit_by a c p (next_fault c.faults)
  settle_by (err e) c p = refl

begin_by :
    {D A : Type 0} (body : Call (Instance D) A) (before : D) (fault : Option Error) (s : Instance D)
    → s.db ≡ before
    → let (r, s') = after_begin body before (answer fault (λ db. (tt, db)) s) in
      Committed body before r s'
begin_by body before none s e = settle_by body before s e (body s).0 (body s).1 refl
begin_by body before (some x) s e = e

pub transaction-Post :
    {D A : Type 0} (body : Call (Instance D) A) (s : Instance D)
    → Post (Committed body s.db) (transaction body) s
unfolding transaction exec
transaction-Post body s = record {
  holds =
      begin_by body s.db (next_fault s.faults) (record s { faults = later_faults s.faults }) refl;
}
