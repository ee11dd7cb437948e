-- ===== src/Postgres/Messages/Once.antt =====
-- message_repo.go: a sender's client message id is used once, whatever happens later.
use mathlib.Core.Bool.{false≢true}
use aelora.Prelude.{
  ℕ, ◌≡◌, ◌≢◌, sym, ap, ◌∙◌, inl, inr, String, Bool, true, List, arith, Bool-cases, is_nil,
}
use aelora.Prelude.Int.{ℤ}
use aelora.Domain.{Message, Result, ok, err}
use aelora.Call.Post.{Post, Post-then, Post-if, Post-fail, Post-weaken, Post-at, Post-pure}
use aelora.Postgres.{DedupRow, Db, Server, exec}
use aelora.Postgres.Statement.{Answered, exec-Post, Committed, transaction-Post}
use aelora.Postgres.Messages.{
  has_key, dedup_key, insert_dedup, insert_row, save_body, save, exists_by_client_msg_id,
  list_by_room, get_by_ids,
}
use aelora.Postgres.Messages.Laws.{has_key-append, save-Post, save_all_or_nothing}

module _ (digest : String → String) (before : Message → Message → Bool) where
  -- A call of the repository, by whoever makes it and however it ends; or the rest of the program, time
  -- and the server, which do not touch the keys.
  pub data Step : Server → Server → Type 0 where
    saved : {s : Server} (msg : Message) → Step s (save digest before msg s).1
    looked_up :
        {s : Server} (sender_id client_msg_id : String)
        → Step s (exists_by_client_msg_id digest before sender_id client_msg_id s).1
    listed :
        {s : Server} (room_id : String) (since : ℕ) (limit : ℤ)
        → Step s (list_by_room digest before room_id since limit s).1
    fetched :
        {s : Server} (room_id : String) (ids : List String)
        → Step s (get_by_ids digest before room_id ids s).1
    elsewhere : {s : Server} (s' : Server) → s'.db.message_dedup ≡ s.db.message_dedup → Step s s'

  pub data Steps : Server → Server → Type 0 where
    here : {s : Server} → Steps s s
    then_step : {s s' s'' : Server} → Steps s s' → Step s' s'' → Steps s s''

  module _ (key : String) where
    abbrev Has : Db → Type 0
    Has db = has_key key db.message_dedup ≡ true

    Keeps : {A : Type 0} → Result A → Server → Type 0
    Keeps r s = Has s.db

    exec-Keeps :
        {A : Type 0} (f : Db → A × Db) (s : Server)
        → Has (f s.db).1
        → Has s.db
        → Post Keeps (exec f) s
    unfolding Keeps
    exec-Keeps f s after old = Post-weaken (by_answer f s after old) (exec-Post f s)
      where
        by_answer :
            {A : Type 0} (f : Db → A × Db) (s : Server)
            → Has (f s.db).1
            → Has s.db
            → (r : Result A) (s' : Server) → Answered f s.db r s'
            → Keeps r s'
        by_answer f s after old (ok a) s' h =
            ap (λ x. has_key key x.1.message_dedup) (sym h) ∙ after
        by_answer f s after old (err e) s' h = ap (λ x. has_key key x.message_dedup) h ∙ old

    insert_dedup-Has :
        (msg : Message) (db : Db) → Has db → Has (insert_dedup digest before msg db).1
    unfolding insert_dedup
    insert_dedup-Has msg db old =
        let own = dedup_key digest before msg.sender_id msg.client_msg_id in
        let row : DedupRow = record {
          client_msg_id = own;
          room_id = msg.room_id;
          message_id = msg.id;
        } in
        elim (Bool-cases (has_key own db.message_dedup)) [
          | inl used ↦ rw used old
          | inr free ↦ rw free (ground (arith, has_key-append key row db.message_dedup, old))
        ]

    body-Keeps :
        (msg : Message) (s : Server) → Has s.db → Post Keeps (save_body digest before msg) s
    unfolding save_body insert_row Keeps
    body-Keeps msg s old =
        Post-then {R = Keeps}
          (exec-Keeps (insert_dedup digest before msg) s (insert_dedup-Has msg s.db old) old)
          (λ e s1 h. h)
          λ fresh s1 q h.
            Post-if fresh (λ yes. exec-Keeps (insert_row digest before msg) s1 h h)
              (λ no. Post-fail h)

    save-Keeps : (msg : Message) (s : Server) → Has s.db → Post Keeps (save digest before msg) s
    unfolding save Keeps
    save-Keeps msg s old =
        Post-weaken (settled msg s old) (transaction-Post (save_body digest before msg) s)
      where
        settled :
            (msg : Message) (s : Server)
            → Has s.db
            → (r : Result (Unit {0})) (s' : Server)
            → Committed (save_body digest before msg) s.db r s'
            → Keeps r s'
        settled msg s old (ok done) s' (b, c, start, run, same) =
            ap (λ x. has_key key x.message_dedup) same
            ∙ Post-at {Q = Keeps} (ok done) c
                (body-Keeps msg b (ap (λ x. has_key key x.message_dedup) start ∙ old)) run
        settled msg s old (err e) s' same = ap (λ x. has_key key x.message_dedup) same ∙ old

    Step-Has : {s s' : Server} → Step s s' → Has s.db → Has s'.db
    unfolding exists_by_client_msg_id list_by_room get_by_ids Keeps
    Step-Has {s} (saved msg) old = (save-Keeps msg s old).holds
    Step-Has {s} (looked_up sender_id client_msg_id) old = (exec-Keeps _ s old old).holds
    Step-Has {s} (listed room_id since limit) old = (exec-Keeps _ s old old).holds
    Step-Has {s} (fetched room_id ids) old =
        (Post-if {Q = Keeps} (is_nil ids) (λ none_asked. Post-pure old)
          λ some_asked. exec-Keeps _ s old old).holds
    Step-Has (elsewhere s' same) old = ap (has_key key) same ∙ old

    Steps-Has : {s s' : Server} → Steps s s' → Has s.db → Has s'.db
    Steps-Has here old = old
    Steps-Has (then_step earlier t) old = Step-Has t (Steps-Has earlier old)

  -- Once a message is saved, no message of the same sender with the same client message id is saved
  -- any more, whatever was called in between by whom, and the attempt leaves every table as it was. A
  -- COMMIT that fails was not carried out.
  pub save_once :
      (first second : Message) (s s1 s2 : Server)
      → first.sender_id ≡ second.sender_id
      → first.client_msg_id ≡ second.client_msg_id
      → save digest before first s ≡ (ok tt, s1)
      → Steps s1 s2
      → let (r, s3) = save digest before second s2 in (r ≢ ok tt) × (s3.db ≡ s2.db)
  save_once first second s s1 s2 sender client saved_first steps =
      elim (save_all_or_nothing digest before second s2) [
        | inl refused ↦ refused
        | inr (done, stored) ↦
            let old = Post-at (ok tt) s1 (save-Post digest before first s) saved_first in
            let key = dedup_key digest before first.sender_id first.client_msg_id in
            let still = Steps-Has key steps old.taken in
            absurd (false≢true (sym stored.was_free ∙ rw (← sender, ← client) still))
      ]
