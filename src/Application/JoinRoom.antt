-- ===== src/Application/JoinRoom.antt =====
-- internal/application/join_room.go
pub mod Laws
use aelora.Prelude.{
  String, ◌==◌, Bool, true, false, not, ◌&&◌, ◌||◌, Option, none, some, List, [], ◌∷◌,
  if◌then◌else◌,
}
use aelora.Domain.{
  Error, app, room_access_denied, user_already_exists, room_not_found, Result, ok, err,
}
use aelora.Call.{Call, pure, fail, handle, given, ◌>>=◌, ◌>>◌}
use aelora.Ports.{RoomRepository}

pub record JoinRoomCommand : Type 0 where
  pub room_id : String
  pub actor_id : String
  pub user_id : String

-- The loop over the members, on `actorInRoom` and `targetInRoom`.
scan : String → String → Bool × Bool → List String → Bool × Bool
scan actor user found [] = found
scan actor user (a, t) (member ∷ rest) =
    scan actor user (if member == actor then true else a, if member == user then true else t) rest

-- `errors.Is(err, domain.ErrRoomNotFound)` of the role lookup becomes a denial.
role_error : Error → Error
role_error room_not_found = app room_access_denied
role_error e = e

module _ {S : Type 0} where
  check_role : RoomRepository S → JoinRoomCommand → Call S (Unit {0})
  check_role rooms cmd = given rooms.get_member_role (fail (app room_access_denied)) (λ get_role.
      handle (get_role cmd.room_id cmd.actor_id) (λ e. fail (role_error e))
        (λ role.
          if not (role == "owner") && not (role == "admin")
          then fail (app room_access_denied)
          else pure tt))

  unfoldable pub execute : RoomRepository S → JoinRoomCommand → Call S (Unit {0})
  unfolding scan check_role role_error
  execute rooms cmd =
      if (cmd.room_id == "") || (cmd.actor_id == "") || (cmd.user_id == "")
      then fail (app room_access_denied)
      else if cmd.actor_id == cmd.user_id
      then fail (app user_already_exists)
      else do
        members ← rooms.list_members cmd.room_id
        let found = scan cmd.actor_id cmd.user_id (false, false) members
        if not found.0
            then fail (app room_access_denied)
            else if found.1
            then fail (app user_already_exists)
            else do
              if not (cmd.actor_id == cmd.user_id) then check_role rooms cmd else pure tt
              rooms.add_member cmd.room_id cmd.user_id
