-- ===== src/Application/CreateRoom.antt =====
-- internal/application/create_room.go
pub mod Laws
use aelora.Prelude.{String, none, some, List, ◌∷◌}
use aelora.Domain.{Room, new_room}
use aelora.Call.{Call, pure, lift, given, ◌>>=◌, ◌>>◌}
use aelora.Ports.{RoomRepository, RoomIdGenerator}

pub record CreateRoomCommand : Type 0 where
  pub creator : String
  pub member_ids : List String

pub record CreateRoomUseCase (S : Type 0) : Type 0 where
  pub rooms : RoomRepository S
  pub ids : RoomIdGenerator S

module _ {S : Type 0} where
  -- The repository may not be a `roomRoleWriter`.
  set_owner : RoomRepository S → String → String → Call S (Unit {0})
  set_owner rooms room_id creator =
      given rooms.set_member_role (pure tt) (λ set. set room_id creator "owner")

  unfoldable pub execute : CreateRoomUseCase S → CreateRoomCommand → Call S Room
  unfolding set_owner
  execute u cmd = do
    room_id ← u.ids.new
    room ← lift (new_room room_id (cmd.creator ∷ cmd.member_ids))
    u.rooms.create room
    set_owner u.rooms room.id cmd.creator
    pure room
