-- ===== src/Postgres.antt =====
-- internal/adapters/outbound/postgres over the tables of migrations/postgres/001_room_metadata.sql.
-- The server is not part of the program: whether it answers a statement is the schedule `faults`,
-- which is arbitrary; what an answered statement does to the tables is read off its SQL text.
pub mod Statement
pub mod Rooms
pub mod Messages
pub mod Outbox
pub mod Connect
use aelora.Prelude.{ℕ, ◌≡◌, String, Bool, Option, none, some, List, [], ◌∷◌}
use aelora.Domain.{Message, Error, Result, ok, err}
use aelora.Call.{Call}

pub record MemberRow : Type 0 where
  pub room_id : String
  pub user_id : String
  pub role : String

pub record DedupRow : Type 0 where
  pub client_msg_id : String
  pub room_id : String
  pub message_id : String

pub record OutboxRow : Type 0 where
  pub message_id : String
  pub created_at : ℕ
  pub payload : String
  pub dispatched : Bool
  pub claimed_by : Option String
  pub claimed_until : Option ℕ

-- A row of `messages` is the message that it stores: `reply_to_message_id` is NULL where the message
-- answers none, which the queries read back as ''.
pub record Db : Type 0 where
  pub rooms : List String
  pub room_members : List MemberRow
  pub messages : List Message
  pub message_dedup : List DedupRow
  pub message_outbox : List OutboxRow

-- `faults` says of the next statements which of them fail, BEGIN and COMMIT among them: behind its
-- end all are answered. A statement that fails has had no effect; a COMMIT that was carried out and
-- whose answer was lost is not among the faults.
-- `server_now` is the server's NOW(), and `app_now` the program's time.Now().
pub record Instance (D : Type 0) : Type 0 where
  pub db : D
  pub faults : List (Option Error)
  pub server_now : ℕ
  pub app_now : ℕ

abbrev pub Server : Type 0
Server = Instance Db

abbrev next_fault : List (Option Error) → Option Error
next_fault [] = none
next_fault (f ∷ rest) = f

abbrev later_faults : List (Option Error) → List (Option Error)
later_faults [] = []
later_faults (f ∷ rest) = rest

module _ {D A : Type 0} where
  abbrev answer : Option Error → (D → A × D) → Call (Instance D) A
  answer none f s = let (a, db') = f s.db in (ok a, record s { db = db' })
  answer (some e) f s = (err e, s)

  -- One statement: it fails and changes nothing, or it is answered.
  unfoldable pub exec : (D → A × D) → Call (Instance D) A
  exec f s = answer (next_fault s.faults) f (record s { faults = later_faults s.faults })

module _ {D A : Type 0} where
  abbrev settle : D → Result A × Instance D → Result A × Instance D
  settle before (ok a, s) = exec (λ db. (a, db)) s
  settle before (err e, s) = (err e, record s { db = before })

  abbrev rollback : D → Result A × Instance D → Result A × Instance D
  rollback before (ok a, s) = (ok a, s)
  rollback before (err e, s) = (err e, record s { db = before })

  abbrev after_begin :
      Call (Instance D) A → D → Result (Unit {0}) × Instance D → Result A × Instance D
  after_begin body before (ok done, s) = rollback before (settle before (body s))
  after_begin body before (err e, s) = (err e, s)

  -- BEGIN, the statements, COMMIT: a failure anywhere leaves the tables as they were, where a COMMIT
  -- that fails was not carried out.
  unfoldable pub transaction : Call (Instance D) A → Call (Instance D) A
  unfolding exec
  transaction body s = after_begin body s.db (exec (λ db. (tt, db)) s)
