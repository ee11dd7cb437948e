-- ===== src/Postgres/Messages/Laws.antt =====
-- Saving a message: all of it or nothing, and once for each sender and client message id.
use mathlib.Core.Bool.{false≢true}
use aelora.Prelude.{
  ◌≡◌, ◌≢◌, refl, ap, ◌⊎◌, inl, inr, String, ◌==◌, eq_refl, Bool, true, false, ◌||◌, List, [], ◌∷◌,
  ◌++◌, arith, Bool-cases,
}
use aelora.Domain.{Message, Result, ok, err}
use aelora.Call.Post.{Post, Post-then, Post-if, Post-fail, Post-weaken, Post-at, err-ne-ok}
use aelora.Postgres.{DedupRow, Db, Server}
use aelora.Postgres.Statement.{Answered, exec-Post, Committed, transaction-Post}
use aelora.Postgres.Messages.{has_key, dedup_key, insert_dedup, insert_row, save_body, save}

pub has_key-append :
    (key : String) (row : DedupRow) (rows : List DedupRow)
    → has_key key (rows ++ row ∷ []) ≡ (row.client_msg_id == key) || has_key key rows
has_key-append key row [] = refl
has_key-append key row (r ∷ rest) = ground (arith, has_key-append key row rest)

module _ (digest : String → String) (before : Message → Message → Bool) (msg : Message) where
  abbrev key : String
  key = dedup_key digest before msg.sender_id msg.client_msg_id

  -- The key was free, and the message and its key stand at the end of their tables.
  pub record Stored (old new : Db) : Type 0 where
    pub was_free : has_key key old.message_dedup ≡ false
    pub taken : has_key key new.message_dedup ≡ true
    pub appended : new.messages ≡ old.messages ++ msg ∷ []

  abbrev Saves : Db → Result (Unit {0}) → Server → Type 0
  Saves old (ok done) s = Stored old s.db
  Saves old (err e) s = Unit

  abbrev Reserved : Db → Result Bool → Server → Type 0
  Reserved old (ok fresh) s = insert_dedup digest before msg old ≡ (fresh, s.db)
  Reserved old (err e) s = s.db ≡ old

  abbrev with_key : Db → Db
  with_key old = record old {
    message_dedup =
        old.message_dedup
        ++ record { client_msg_id = key; room_id = msg.room_id; message_id = msg.id } ∷ [];
  }

  with_key_taken : (old : Db) → has_key key (with_key old).message_dedup ≡ true
  with_key_taken old = ground (
    arith,
    has_key-append key (record { client_msg_id = key; room_id = msg.room_id; message_id = msg.id })
        old.message_dedup,
    eq_refl key,
  )

  reserve :
      (old new : Db)
      → insert_dedup digest before msg old ≡ (true, new)
      → (has_key key old.message_dedup ≡ false)
        × (has_key key new.message_dedup ≡ true)
        × (new.messages ≡ old.messages)
  unfolding insert_dedup
  reserve old new e = elim (Bool-cases (has_key key old.message_dedup)) [
    | inl used ↦
        let same : ◌≡◌ {A = Bool × Db} (false, old) (true, new) = rw used at e in
        absurd (false≢true (ap (λ x. x.0) same))
    | inr free ↦
        let same : ◌≡◌ {A = Bool × Db} (true, with_key old) (true, new) = rw free at e in
        rw (← ap (λ x. x.1) same) (free, with_key_taken old, refl)
  ]

  body-Post : (s : Server) → Post (Saves s.db) (save_body digest before msg) s
  unfolding save_body insert_row
  body-Post s =
      Post-then (exec-Post (insert_dedup digest before msg) s) (λ e s1 h. tt)
        λ fresh s1 q answered.
          Post-if fresh
            (λ yes.
              Post-weaken (stored s1.db (reserve s.db s1.db (rw yes at answered)))
                (exec-Post (insert_row digest before msg) s1))
            (λ no. Post-fail tt)
    where
      stored :
          (mid : Db)
          → (has_key key s.db.message_dedup ≡ false)
            × (has_key key mid.message_dedup ≡ true)
            × (mid.messages ≡ s.db.messages)
          → (r : Result (Unit {0})) (s2 : Server) → Answered (insert_row digest before msg) mid r s2
          → Saves s.db r s2
      stored mid h (ok done) s2 answered =
          rw (← ap (λ x. x.1) answered)
            (record { was_free = h.0; taken = h.1; appended = rw h.2 refl })
      stored mid h (err e) s2 same = tt

  abbrev pub SavedOrNot : Db → Result (Unit {0}) → Server → Type 0
  SavedOrNot old (ok done) s = Stored old s.db
  SavedOrNot old (err e) s = s.db ≡ old

  saved_or_not :
      (s : Server) (r : Result (Unit {0})) (s' : Server)
      → Committed (save_body digest before msg) s.db r s'
      → SavedOrNot s.db r s'
  saved_or_not s (ok done) s' (b, c, start, run, same) =
      let stored = Post-at (ok done) c (body-Post b) run in rw (same, ← start) stored
  saved_or_not s (err e) s' same = same

  pub save-Post : (s : Server) → Post (SavedOrNot s.db) (save digest before msg) s
  unfolding save
  save-Post s = Post-weaken (saved_or_not s) (transaction-Post (save_body digest before msg) s)

  -- Saving a message either fails and leaves every table as it was, or the sender's client message id
  -- was new, is now taken, and the message stands at the end of the table. A COMMIT that fails was not
  -- carried out.
  pub save_all_or_nothing :
      (s : Server)
      → let (r, s') = save digest before msg s in
        ((r ≢ ok tt) × (s'.db ≡ s.db)) ⊎ ((r ≡ ok tt) × Stored s.db s'.db)
  save_all_or_nothing s =
      read (save digest before msg s).0 (save digest before msg s).1 (save-Post s).holds
    where
      read :
          (r : Result (Unit {0})) (s' : Server)
          → SavedOrNot s.db r s'
          → ((r ≢ ok tt) × (s'.db ≡ s.db)) ⊎ ((r ≡ ok tt) × Stored s.db s'.db)
      read (ok done) s' h = inr (refl, h)
      read (err e) s' h = inl (err-ne-ok _ _, h)
