-- ===== src/Application/CreateRoom/Laws.antt =====
-- What a created room is.
use aelora.Prelude.{◌≡◌, false, String, some, ◌∷◌, contains}
use aelora.Domain.{Room, Result, ok, err, new_room, has_member}
use aelora.Domain.Laws.{new_room-members}
use aelora.Call.{Call}
use aelora.Call.Post.{
  Post, Post-pure, Post-call, Post-bind, Post-lift, Post-given, Post-then, Post-at,
}
use aelora.Application.CreateRoom.{CreateRoomUseCase, CreateRoomCommand, set_owner, execute}

module _ {S : Type 0} (u : CreateRoomUseCase S) (cmd : CreateRoomCommand) (s : S) where
  -- The room has the id that was drawn, its members are the creator and the listed users, it was
  -- stored, and where the repository keeps roles the creator is its owner.
  pub record Created (room : Room) (s' : S) : Type 0 where
    pub drawn : S
    pub stored : S
    pub draw : u.ids.new s ≡ (ok room.id, drawn)
    pub members :
        (user : String) → has_member room user ≡ contains user (cmd.creator ∷ cmd.member_ids)
    pub no_empty_name : contains "" (cmd.creator ∷ cmd.member_ids) ≡ false
    pub store : u.rooms.create room drawn ≡ (ok tt, stored)
    pub owner :
        (set : String → String → String → Call S (Unit {0}))
        → u.rooms.set_member_role ≡ some set
        → set room.id cmd.creator "owner" stored ≡ (ok tt, s')

  abbrev Ends : Result Room → S → Type 0
  Ends (ok room) s' = Created room s'
  Ends (err e) s' = Unit

  abbrev Owned : Room → S → Result (Unit {0}) → S → Type 0
  Owned room stored (ok done) s' =
      (set : String → String → String → Call S (Unit {0}))
      → u.rooms.set_member_role ≡ some set
      → set room.id cmd.creator "owner" stored ≡ (ok tt, s')
  Owned room stored (err e) s' = Unit

  owner-Post :
      (room : Room) (stored : S)
      → Post (Owned room stored) (set_owner u.rooms room.id cmd.creator) stored
  unfolding set_owner
  owner-Post room stored =
      Post-given u.rooms.set_member_role (λ missing. Post-pure (λ set h. cc))
        λ set h. Post-call (set room.id cmd.creator "owner") stored (own set h)
    where
      own :
          (set : String → String → String → Call S (Unit {0}))
          → u.rooms.set_member_role ≡ some set
          → (r : Result (Unit {0})) (s' : S) → set room.id cmd.creator "owner" stored ≡ (r, s')
          → Owned room stored r s'
      own set h (ok done) s' q = λ set' h'. let same : set ≡ set' = cc in rw (← same) q
      own set h (err e) s' q = tt

  create-Post : Post Ends (execute u cmd) s
  unfolding execute
  create-Post =
      Post-bind u.ids.new s (λ e s1 q. tt)
        λ room_id s1 q.
          Post-lift (new_room room_id (cmd.creator ∷ cmd.member_ids)) (λ e bad. tt)
            λ room built.
              let facts = λ (user : String).
                new_room-members room_id (cmd.creator ∷ cmd.member_ids) room user built in
              Post-bind (u.rooms.create room) s1 (λ e s2 q2. tt)
                λ done s2 q2.
                  Post-then (owner-Post room s2) (λ e s3 p. tt)
                    λ done3 s3 q3 owned. Post-pure (record {
                      drawn = s1;
                      stored = s2;
                      draw = rw (facts "").0 q;
                      members = λ user. (facts user).2;
                      no_empty_name = (facts "").3;
                      store = q2;
                      owner = owned;
                    })

  -- A room that is returned has the id that was drawn, exactly the creator and the listed users as
  -- members, none of them the empty name; it was stored, and where the repository keeps roles its
  -- creator was made the owner.
  pub create_room_ok : (s' : S) (room : Room) → execute u cmd s ≡ (ok room, s') → Created room s'
  create_room_ok s' room e = Post-at (ok room) s' create-Post e
