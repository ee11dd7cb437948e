-- ===== src/Postgres/Rooms/Creation.antt =====
-- Creating a room: all of it or nothing.
use aelora.Prelude.{
  ◌≡◌, ◌≢◌, refl, sym, ap, ◌∙◌, ◌⊎◌, inl, inr, String, Bool, true, false, List, [], ◌∷◌, ◌++◌,
  contains, Bool-cases,
}
use mathlib.Core.Bool.{false≢true}
use aelora.Domain.{Room, Result, ok, err}
use aelora.Call.Post.{
  Post, Post-pure, Post-fail, Post-if, Post-then, Post-weaken, Post-at, err-ne-ok,
}
use aelora.Postgres.{MemberRow, Db, Server}
use aelora.Postgres.Statement.{exec-Post, Committed, transaction-Post}
use aelora.Postgres.Rooms.{
  new_member, insert_room, insert_member, insert_members, create_body, create,
}

abbrev rows_for : String → List String → List MemberRow
rows_for id [] = []
rows_for id (user ∷ rest) = new_member id user ∷ rows_for id rest

append_assoc :
    (a : List MemberRow) (x : MemberRow) (b : List MemberRow) → (a ++ x ∷ []) ++ b ≡ a ++ x ∷ b
append_assoc [] x b = refl
append_assoc (y ∷ a) x b = ap (λ l. y ∷ l) (append_assoc a x b)

append_nil : (a : List MemberRow) → a ≡ a ++ []
append_nil [] = refl
append_nil (y ∷ a) = ap (λ l. y ∷ l) (append_nil a)

abbrev Inserted : String → List String → Db → Result (Unit {0}) → Server → Type 0
Inserted id members old (ok done) s =
    (s.db.rooms ≡ old.rooms) × (s.db.room_members ≡ old.room_members ++ rows_for id members)
Inserted id members old (err e) s = Unit

insert_members-Post :
    (id : String) (members : List String) (s : Server)
    → Post (Inserted id members s.db) (insert_members id members) s
unfolding insert_members insert_member
insert_members-Post id [] s = Post-pure (refl, append_nil s.db.room_members)
insert_members-Post id (user ∷ rest) s =
    Post-then (exec-Post (insert_member id user) s) (λ e s1 h. tt)
      λ done s1 q answered.
        Post-weaken (more s1 (ap (λ x. x.1) answered)) (insert_members-Post id rest s1)
  where
    more :
        (s1 : Server)
        → record s.db { room_members = s.db.room_members ++ new_member id user ∷ [] } ≡ s1.db
        → (r : Result (Unit {0})) (s2 : Server) → Inserted id rest s1.db r s2
        → Inserted id (user ∷ rest) s.db r s2
    more s1 same (ok done) s2 (rooms, rows) = (
      rooms ∙ sym (ap (λ d. d.rooms) same),
      rows
          ∙ sym (ap (λ d. d.room_members ++ rows_for id rest) same)
          ∙ append_assoc s.db.room_members (new_member id user) (rows_for id rest),
    )
    more s1 same (err e) s2 h = tt

module _ (room : Room) where
  -- The room's id was free; the room and a row for each of its members stand at the end of their
  -- tables.
  pub record Stored (old new : Db) : Type 0 where
    pub was_free : contains room.id old.rooms ≡ false
    pub rooms : new.rooms ≡ old.rooms ++ room.id ∷ []
    pub members : new.room_members ≡ old.room_members ++ rows_for room.id room.members

  abbrev Creates : Db → Result (Unit {0}) → Server → Type 0
  Creates old (ok done) s = Stored old s.db
  Creates old (err e) s = Unit

  reserved :
      (old new : Db)
      → insert_room room.id old ≡ (true, new)
      → (contains room.id old.rooms ≡ false)
        × (new.rooms ≡ old.rooms ++ room.id ∷ [])
        × (new.room_members ≡ old.room_members)
  unfolding insert_room
  reserved old new e = elim (Bool-cases (contains room.id old.rooms)) [
    | inl used ↦
        let same : ◌≡◌ {A = Bool × Db} (false, old) (true, new) = rw used at e in
        absurd (false≢true (ap (λ x. x.0) same))
    | inr free ↦
        let same : ◌≡◌ {A = Bool × Db} (true, record old { rooms = old.rooms ++ room.id ∷ [] })
            (true, new) =
          rw free at e in
        rw (← ap (λ x. x.1) same) (free, refl, refl)
  ]

  create_body-Post : (s : Server) → Post (Creates s.db) (create_body room) s
  unfolding create_body
  create_body-Post s =
      Post-then (exec-Post (insert_room room.id) s) (λ e s1 h. tt)
        λ fresh s1 q answered.
          Post-if fresh
            (λ yes.
              Post-weaken (stored s1 (reserved s.db s1.db (rw yes at answered)))
                (insert_members-Post room.id room.members s1))
            (λ no. Post-fail tt)
    where
      stored :
          (s1 : Server)
          → (contains room.id s.db.rooms ≡ false)
            × (s1.db.rooms ≡ s.db.rooms ++ room.id ∷ [])
            × (s1.db.room_members ≡ s.db.room_members)
          → (r : Result (Unit {0})) (s2 : Server) → Inserted room.id room.members s1.db r s2
          → Creates s.db r s2
      stored s1 h (ok done) s2 (rooms, rows) = record {
        was_free = h.0;
        rooms = rooms ∙ h.1;
        members = rows ∙ ap (λ l. l ++ rows_for room.id room.members) h.2;
      }
      stored s1 h (err e) s2 i = tt

  abbrev Outcome : Db → Result (Unit {0}) → Server → Type 0
  Outcome old r s = ((r ≢ ok tt) × (s.db ≡ old)) ⊎ ((r ≡ ok tt) × Stored old s.db)

  settled :
      (s : Server) (r : Result (Unit {0})) (s' : Server)
      → Committed (create_body room) s.db r s'
      → Outcome s.db r s'
  settled s (ok done) s' (b, c, start, run, same) =
      let stored = Post-at (ok done) c (create_body-Post b) run in
      inr (refl, rw (same, ← start) stored)
  settled s (err e) s' same = inl (err-ne-ok _ _, same)

  create-Post : (s : Server) → Post (Outcome s.db) (create room) s
  unfolding create
  create-Post s = Post-weaken (settled s) (transaction-Post (create_body room) s)

  -- Creating a room either fails and leaves every table as it was, or the id was free and the room
  -- and a row for each of its members, all of them plain members, stand at the end of their tables. A COMMIT that fails was not
  -- carried out.
  pub create_all_or_nothing :
      (s : Server)
      → let (r, s') = create room s in
        ((r ≢ ok tt) × (s'.db ≡ s.db)) ⊎ ((r ≡ ok tt) × Stored s.db s'.db)
  create_all_or_nothing s = (create-Post s).holds
