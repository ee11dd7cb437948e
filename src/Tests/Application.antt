-- ===== src/Tests/Application.antt =====
-- The use cases, run in the in-memory world.
pub mod Sends
mod Reads
use aelora.Prelude.{
  ◌≡◌, ◌≢◌, ◌↔◌, refl, inl, inr, Bool, true, false, Option, none, List, [], ◌∷◌, contains, arith,
}
use aelora.Domain.{Room, Message, Result, ok, err, room_not_found, has_member, new_room, validate}
use aelora.Domain.Laws.{IsSendable, validate_iff, new_room-members}
use aelora.Call.{Call, lift}
use aelora.Ports.{RoomRepository}
use aelora.Application.CreateRoom.{CreateRoomUseCase, CreateRoomCommand, execute}
use aelora.Application.CreateRoom.Laws.{Created, create_room_ok}
use aelora.Application.JoinRoom.{JoinRoomCommand}
use aelora.Application.JoinRoom.{execute as execute_join}
use aelora.RoomCache.{Repository, get, create, add_member, list_members}
use aelora.RoomCache.Laws.{AnsweredBy, writes_follow_primary, reads_from_either}
use aelora.Tests.World.{World, world, rooms, room_ids, alice_hello}

hello-IsSendable : (validate alice_hello ≡ ok tt) ↔ IsSendable alice_hello
hello-IsSendable = validate_iff alice_hello

abbrev creates : CreateRoomUseCase World
creates = record { rooms = rooms; ids = room_ids }

abbrev carol_and_dave : CreateRoomCommand
carol_and_dave = record { creator = "carol"; member_ids = "dave" ∷ "carol" ∷ [] }

abbrev den : Room
den = record { id = "den"; members = "carol" ∷ "dave" ∷ [] }

den_members :
    (den.id ≡ "den")
    × (den.id ≢ "")
    × (has_member den "dave" ≡ contains "dave" ("carol" ∷ "dave" ∷ "carol" ∷ []))
    × (contains "" ("carol" ∷ "dave" ∷ "carol" ∷ []) ≡ false)
    × (den.members ≢ [])
unfolding new_room
den_members = new_room-members "den" ("carol" ∷ "dave" ∷ "carol" ∷ []) den "dave" refl

abbrev with_den : World
with_den = record world {
  draws = 1;
  rooms = ("lobby", record { id = "lobby"; members = "alice" ∷ "bob" ∷ [] }) ∷ ("den", den) ∷ [];
  roles = ("lobby/alice", "owner") ∷ ("lobby/bob", "member") ∷ ("den/carol", "owner") ∷ [];
}

create_room_ok_example : Created creates carol_and_dave world den with_den
unfolding execute new_room lift
create_room_ok_example = create_room_ok creates carol_and_dave world with_den den refl

abbrev alice_adds_carol : JoinRoomCommand
alice_adds_carol = record { room_id = "lobby"; actor_id = "alice"; user_id = "carol" }

-- Nothing is queued yet, and no lookup changes that.
abbrev Unqueued : World → Type 0
Unqueued w = w.queued ≡ []

-- The cache knows no room.
abbrev no_cache : RoomRepository World
no_cache = record rooms {
  get = λ id w. (err room_not_found, w);
  list_members = λ id w. (err room_not_found, w);
  add_member = λ id user w. (err room_not_found, w);
}

abbrev cached : Repository World
cached = record { primary = rooms; cache = no_cache }

writes_follow_primary_example :
    ((create cached den world).0 ≡ (rooms.create den world).0)
    × ((add_member cached "lobby" "carol" world).0 ≡ (rooms.add_member "lobby" "carol" world).0)
writes_follow_primary_example = writes_follow_primary cached world den "lobby" "carol"

cached_room_is_read :
    AnsweredBy cached world (no_cache.get "lobby") (rooms.get "lobby") (get cached "lobby" world).0
    × AnsweredBy cached world
        (no_cache.list_members "lobby")
        (rooms.list_members "lobby")
        (list_members cached "lobby" world).0
cached_room_is_read = reads_from_either cached world "lobby"
