-- ===== src/Valkey/Rooms.antt =====
-- internal/adapters/outbound/valkey/room_repository.go
use aelora.Prelude.{
  String, none, List, [], ◌∷◌, ltb, eqb, is_nil, sort_texts, or_else, if◌then◌else◌,
}
use aelora.Domain.{Room, new_room, room_not_found, room_already_exists, invalid_room}
use aelora.Call.{Call, pure, fail, lift, read, ◌>>=◌, ◌>>◌}
use aelora.Ports.{RoomRepository}
use aelora.Valkey.{Client, room_members_key, room_meta_key}

-- `now_text` is the time in UTC, written by RFC3339Nano.
module _ {S : Type 0} (client : Client S) (now_text : S → String) where
  members : String → Call S (List String)
  members room_id = do found ← client.smembers (room_members_key room_id); pure (or_else found [])

  unfoldable pub get : String → Call S Room
  unfolding members
  get room_id = do
    found ← members room_id
    if is_nil found then fail room_not_found else lift (new_room room_id found)

  unfoldable pub create : Room → Call S (Unit {0})
  create room = do
    exists ← client.exists (room_members_key room.id)
    if ltb 0 exists
        then fail room_already_exists
        else if is_nil room.members
        then fail invalid_room
        else do
          client.sadd (room_members_key room.id) room.members
          now ← read now_text
          client.set (room_meta_key room.id) now

  unfoldable pub add_member : String → String → Call S (Unit {0})
  add_member room_id user_id = do
    exists ← client.exists (room_members_key room_id)
    if eqb exists 0
        then fail room_not_found
        else client.sadd (room_members_key room_id) (user_id ∷ [])

  unfoldable pub list_members : String → Call S (List String)
  unfolding members
  list_members room_id = do
    found ← members room_id
    if is_nil found then fail room_not_found else pure (sort_texts found)

  -- It has no roles.
  abbrev pub room_repository : RoomRepository S
  room_repository = record {
    get = get;
    create = create;
    add_member = add_member;
    list_members = list_members;
    get_member_role = none;
    set_member_role = none;
  }
